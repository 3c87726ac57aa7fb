-- ===== src/Connection/Open/Secure.antt =====
-- What an open connection is.
use eessh.Prelude.{
  ℕ, ◌≡◌, sym, ap, subst, List, true, Bool-cases, inl, inr, Result, ok, fail, Status, ok_injective,
  pure, >>=-eq-ok, Ensures, >>=-Ensures, failed_not_ok, Result-cases,
}
use eessh.Buffer.{Allocator}
use eessh.Network.{ReadEvent, WriteEvent}
use eessh.Stream.{Crypto}
use eessh.Version.{VersionString}
use eessh.Connection.{Peer}
use eessh.Userauth
use eessh.Userauth.Success.{IsGranted, run-IsGranted}
use eessh.Kex.Exchange.{Primitives, Kex, Exchange, on_peer}
use eessh.Kex.Dh.Trust.{Authentic}
use eessh.Kex.Run
use eessh.Kex.Run.Trust.{run-Authentic}
use eessh.Connection.Open.{
  Config, Prepared, prepare, is_supported, accept_version, setup, identity, log_in, secure, start,
  connected, open_conn,
}

module _ (k : Crypto) (a : Allocator) (p : Primitives k) (fuel beyond : ℕ) where
  -- The server speaks version 2, has proved who it is, and has admitted the user.
  pub record IsSecure (cfg : Config) (q : Prepared) (server : VersionString) (c : Exchange k)
      : Type 0 where
    pub version : is_supported server.version ≡ true
    pub authentic : Authentic k a p fuel beyond (identity k a p fuel beyond cfg q server) c.kex
    pub granted : IsGranted k a fuel c.peer

  -- The version of the server is one that is supported.
  abbrev HasVersion : {S : Type 0} → VersionString → S → Type 0
  HasVersion server _ = is_supported server.version ≡ true

  accept_version-Ensures :
      (server : VersionString) → Ensures HasVersion (accept_version k a p fuel beyond server)
  accept_version-Ensures server = record { after = accepted }
    where
      accepted :
          (s s' : Peer k) (v : VersionString)
          → accept_version k a p fuel beyond server s ≡ (ok v, s')
          → is_supported v.version ≡ true
      accepted s s' v h = elim (Bool-cases (is_supported server.version)) [
        | inr other ↦ absurd (failed_not_ok (rw other at h))
        | inl good ↦
            subst (λ (w : VersionString). is_supported w.version ≡ true)
              (ok_injective (ap (λ (w : Result VersionString × Peer k). w.0) (rw good at h))) good
      ]

  setup-Ensures : (client : VersionString) → Ensures HasVersion (setup k a p fuel beyond client)
  unfolding setup
  setup-Ensures client = search (>>=-Ensures, accept_version-Ensures) depth 8

  secure-IsSecure :
      (cfg : Config) (q : Prepared) (server v : VersionString) (s c : Exchange k)
      → is_supported server.version ≡ true
      → secure k a p fuel beyond cfg q server s ≡ (ok v, c)
      → (v ≡ server) × IsSecure cfg q server c
  unfolding secure log_in
  secure-IsSecure cfg q server v s c ver h =
      let (x, t, e, g) =
        >>=-eq-ok (Run.run k a p fuel beyond (identity k a p fuel beyond cfg q server))
          (λ _. log_in k a p fuel beyond cfg q server) {s = s} h in
      let (y, u, e', g') =
        >>=-eq-ok (on_peer k a p fuel (Userauth.run k a fuel q.username cfg.password_reader))
          (λ _. pure server) {s = t} g in
      let real = run-Authentic k a p fuel beyond (identity k a p fuel beyond cfg q server) s t e in
      let admitted =
        run-IsGranted k a fuel q.username cfg.password_reader t.peer u.peer
          (ap (λ (w : Status × Exchange k). (w.0, w.1.peer)) e') in
      let same = sym (ok_injective (ap (λ (w : Result VersionString × Exchange k). w.0) g')) in
      let last = ap (λ (w : Result VersionString × Exchange k). w.1) g' in
      (
        same,
        subst (IsSecure cfg q server) last (record {
          version = ver;
          authentic =
              subst
                (λ (z : Kex).
                  Authentic k a p fuel beyond (identity k a p fuel beyond cfg q server) z)
                (ap (λ (w : Status × Exchange k). w.1.kex) e') real;
          granted = admitted;
        }),
      )

  start-IsSecure :
      (cfg : Config) (q : Prepared) (v : VersionString) (s c : Exchange k)
      → start k a p fuel beyond cfg q s ≡ (ok v, c)
      → IsSecure cfg q v c
  unfolding start
  start-IsSecure cfg q v s c h =
      let (server, t, e, g) =
        >>=-eq-ok (on_peer k a p fuel (setup k a p fuel beyond q.client_version))
          (secure k a p fuel beyond cfg q) {s = s} h in
      let ver =
        (setup-Ensures q.client_version).after s.peer t.peer server
          (ap (λ (w : Result VersionString × Exchange k). (w.0, w.1.peer)) e) in
      let (same, done) = secure-IsSecure cfg q server v t c ver g in
      subst (λ (w : VersionString). IsSecure cfg q w c) (sym same) done

  connected-ok :
      (r : Result VersionString × Exchange k) {v : VersionString} {c : Exchange k}
      → connected k a p fuel beyond r ≡ ok (v, c)
      → r ≡ (ok v, c)
  connected-ok (ok w, d) h = ap (λ (q : VersionString × Exchange k). (ok q.0, q.1)) (ok_injective h)
  connected-ok (fail e, d) h = cc

  -- ssh_conn_open gives a connection only when the configuration was complete, the server's version
  -- string names version 2.0 or 1.99, its key has signed the hash of the exchange that has set the
  -- keys and was approved by the client's check, and the server's last answer to the
  -- authentication was SSH_MSG_USERAUTH_SUCCESS.
  pub open_conn-IsSecure :
      (conn_size : ℕ) (net_connect : List ℕ → List ℕ → Result (List ReadEvent × List WriteEvent))
      (cfg : Config) (v : VersionString) (c : Exchange k)
      → open_conn k a p fuel beyond conn_size net_connect cfg ≡ ok (v, c)
      → (q : Prepared) × (prepare a cfg ≡ ok q) × IsSecure cfg q v c
  unfolding open_conn
  open_conn-IsSecure conn_size net_connect cfg v c h = elim (Bool-cases (a.grants conn_size)) [
    | inr full ↦ cc (rw full at h)
    | inl granted ↦ elim (Result-cases (prepare a cfg)) [
      | inr (e, incomplete) ↦ cc (rw (granted, incomplete) at h)
      | inl (q, ready) ↦ elim (Result-cases (net_connect q.server q.port)) [
        | inr (e, refused) ↦ cc (rw (granted, ready, refused) at h)
        | inl ((arrivals, departures), open_) ↦ (
          q,
          ready,
          start-IsSecure cfg q v _ c (connected-ok _ (rw (granted, ready, open_) at h)),
        )
      ]
    ]
  ]
