-- ===== src/Kex/Run.antt =====
-- ssh/kex.c: kex_start and ssh_kex_run.
pub mod Trust
use eessh.Prelude.{
  ℕ, List, [], ◌∷◌, Bool, true, false, not, ◌==◌, ◌&&◌, if◌then◌else◌, Option, none, some, Result,
  ok, fail, bad_algorithm, Act, pure, lift, gets, modify, ◌>>=◌, ◌>>◌,
}
use eessh.Buffer.{Allocator, contents}
use eessh.Reader.{Reader, reader_of_buffer, read_skip}
use eessh.Algorithms.{
  Row, KexAlgo, PubkeyAlgo, CipherAlgo, MacAlgo, KexType, kex_algos, pubkey_algos, cipher_algos,
  mac_algos, get_by_name, pubkey_get_by_name, get_kex_algo,
}
use eessh.Stream.{Crypto}
use eessh.Connection.{Peer}
use eessh.Kex.{choose_algo, on_client, on_server}
use eessh.Kex.Exchange.{Primitives, Kex, kex_new, Exchange, receive, send_init_msg, recv_init_msg}
use eessh.Kex.Dh.{Identity, dh_run}

-- A name of a list that is in none of the own tables is an error.
abbrev pub algo_or_fail : {T : Type 0} → Option T → Result T
algo_or_fail none = fail bad_algorithm
algo_or_fail (some t) = ok t

-- What kex_start takes from the two lists
pub record Chosen : Type 0 where
  pub guessed_right : Bool
  pub kex : KexAlgo
  pub pubkey : PubkeyAlgo
  pub cipher_cts : CipherAlgo
  pub cipher_stc : CipherAlgo
  pub mac_cts : MacAlgo
  pub mac_stc : MacAlgo

-- The calls of choose_algo and the lookups of the names
unfoldable pub choose_all : ℕ → Act (Reader × Reader) Chosen
unfolding ◌>>=◌
choose_all beyond = do
  on_client (read_skip 17)
  on_server (read_skip 17)
  kex_algo ← choose_algo
  server_host_key_algo ← choose_algo
  encryption_cts_algo ← choose_algo
  encryption_stc_algo ← choose_algo
  mac_cts_algo ← choose_algo
  mac_stc_algo ← choose_algo
  kex ← lift (algo_or_fail (get_by_name beyond kex_algos kex_algo.0))
  pubkey ← lift (algo_or_fail (pubkey_get_by_name beyond pubkey_algos server_host_key_algo.0))
  cipher_cts ← lift (algo_or_fail (get_by_name beyond cipher_algos encryption_cts_algo.0))
  cipher_stc ← lift (algo_or_fail (get_by_name beyond cipher_algos encryption_stc_algo.0))
  mac_cts ← lift (algo_or_fail (get_by_name beyond mac_algos mac_cts_algo.0))
  mac_stc ← lift (algo_or_fail (get_by_name beyond mac_algos mac_stc_algo.0))
  pure (record {
    guessed_right = kex_algo.1;
    kex = kex;
    pubkey = pubkey;
    cipher_cts = cipher_cts;
    cipher_stc = cipher_stc;
    mac_cts = mac_cts;
    mac_stc = mac_stc;
  })

abbrev pub store_types : Chosen → Kex → Kex
store_types c x = record x {
  type = c.kex.type;
  pubkey_type = c.pubkey.type;
  cipher_type_cts = c.cipher_cts.type;
  cipher_type_stc = c.cipher_stc.type;
  mac_type_cts = c.mac_cts.type;
  mac_type_stc = c.mac_stc.type;
}

abbrev pub kex_algo_of : Option (Row KexAlgo) → Result KexAlgo
kex_algo_of none = fail bad_algorithm
kex_algo_of (some r) = ok r.info

module _ (k : Crypto) (a : Allocator) (p : Primitives k) (fuel beyond : ℕ) (id : Identity) where
  -- The packet of a wrong guess is dropped.
  unfoldable pub drop_guess : Bool → Act (Exchange k) Unit
  unfolding ◌>>=◌
  drop_guess guessed_right = do
    follows ← gets (λ s. s.kex.first_kex_packet_follows)
    if not (follows == 0) && not guessed_right
        then (receive k a p fuel >>= λ pack. pure tt)
        else pure tt

  -- The types go into struct SSH_KEX, a packet of a wrong guess is dropped, and the exchange runs;
  -- ssh_kex_dh_run is the function of all rows of the table.
  unfoldable pub start_with : Chosen → Act (Exchange k) Unit
  unfolding ◌>>=◌
  start_with chosen = do
    modify (λ s. record s { kex = store_types chosen s.kex })
    drop_guess chosen.guessed_right
    algo ← lift (kex_algo_of (get_kex_algo chosen.kex.type))
    modify (λ s. record s { kex = record s.kex { hash_type = algo.hash } })
    dh_run k a p fuel beyond id

  -- The algorithms that both lists allow
  abbrev pub negotiate : Act (Exchange k) Chosen
  negotiate s = (
    (choose_all beyond
        (reader_of_buffer s.kex.client_kexinit, reader_of_buffer s.kex.server_kexinit)).0,
    s,
  )

  -- kex_start
  unfoldable pub start : Act (Exchange k) Unit
  unfolding ◌>>=◌
  start = do
    send_init_msg k a p fuel
    recv_init_msg k a p fuel
    chosen ← negotiate
    start_with chosen

  -- ssh_kex_run
  unfoldable pub run : Act (Exchange k) Unit
  unfolding ◌>>=◌
  run = do modify (λ s. record s { kex = kex_new }); start
