-- ===== src/Kex/Run/Trust.antt =====
-- When ssh_kex_run succeeds.
use eessh.Prelude.{ℕ, ◌≡◌, ok, Ensures, >>=-Ensures}
use eessh.Buffer.{Allocator}
use eessh.Stream.{Crypto}
use eessh.Kex.Exchange.{Primitives, Exchange}
use eessh.Kex.Dh.{Identity, dh_run}
use eessh.Kex.Dh.Trust.{Authentic, dh_run-Authentic}
use eessh.Kex.Run.{start, run, start_with}

module _ (k : Crypto) (a : Allocator) (p : Primitives k) (fuel beyond : ℕ) (id : Identity) where
  dh_run-Ensures :
      Ensures
        (λ (_ : Unit {0}) (q : Exchange k). Authentic k a p fuel beyond id q.kex)
        (dh_run k a p fuel beyond id)
  dh_run-Ensures = record { after = λ s s' x e. (dh_run-Authentic k a p fuel beyond id s s' e).0 }

  run-Ensures :
      Ensures
        (λ (_ : Unit {0}) (q : Exchange k). Authentic k a p fuel beyond id q.kex)
        (run k a p fuel beyond id)
  unfolding run start start_with
  run-Ensures = search (>>=-Ensures, dh_run-Ensures) depth 10

  -- ssh_kex_run succeeds only with an authentic server, whatever the server sends and whichever
  -- algorithms are agreed on: the key of the server has signed the hash of this exchange, and the
  -- client has approved the key.
  pub run-Authentic :
      (s s' : Exchange k)
      → run k a p fuel beyond id s ≡ (ok tt, s')
      → Authentic k a p fuel beyond id s'.kex
  run-Authentic s s' h = run-Ensures.after s s' tt h
