-- ===== src/Connection/Open.antt =====
-- ssh/connection.c: how a connection is opened. What the kernel answers on the socket that
-- ssh_net_connect makes (Network/Connect) is a parameter, for both directions.
pub mod Secure
use eessh.Prelude.{
  ℕ, ◌+◌, List, [], ◌∷◌, ◌++◌, Bool, true, false, ◌||◌, ◌&&◌, if◌then◌else◌, length, Option, none,
  some, same_bytes, get_or, Result, ok, fail, Status, bad_version, out_of_memory, io_error, Act,
  lift, gets, modify, pure, raise, ◌>>=◌, ◌>>◌,
}
use eessh.Buffer.{Allocator}
use eessh.Network.{ReadEvent, WriteEvent, net_write}
use eessh.Stream.{Crypto, Stream, init}
use eessh.Version
use eessh.Version.{VersionString, build}
use eessh.Connection.{Peer}
use eessh.Userauth
use eessh.Kex.Exchange.{Primitives, Exchange, kex_new, on_peer}
use eessh.Kex.Dh.{Identity}
use eessh.Kex.Run

-- struct SSH_CONN_CONFIG: the texts may be NULL, and so may the callbacks. The password reader is
-- given the number of the try.
pub record Config : Type 0 where
  pub server : Option (List ℕ)
  pub port : Option (List ℕ)
  pub username : Option (List ℕ)
  pub version_software : Option (List ℕ)
  pub version_comments : Option (List ℕ)
  pub password_reader : Option (ℕ → Option (List ℕ))
  pub server_identity_checker : Option (List ℕ → List ℕ → Status)

-- CLIENT_SOFTWARE, "eessh_0.1"
abbrev pub client_software : List ℕ
client_software = 101 ∷ 101 ∷ 115 ∷ 115 ∷ 104 ∷ 95 ∷ 48 ∷ 46 ∷ 49 ∷ []

-- "--"
abbrev pub no_comments : List ℕ
no_comments = 45 ∷ 45 ∷ []

-- "22"
abbrev pub ssh_port : List ℕ
ssh_port = 50 ∷ 50 ∷ []

abbrev pub or_default : Option (List ℕ) → List ℕ → List ℕ
or_default none d = d
or_default (some xs) d = xs

-- What conn_connect keeps of the configuration
pub record Prepared : Type 0 where
  pub server : List ℕ
  pub port : List ℕ
  pub username : List ℕ
  pub hostname : List ℕ
  pub client_version : VersionString

module _ (a : Allocator) where
  -- conn_save_hostname: "%s,%s"
  unfoldable pub save_hostname : List ℕ → List ℕ → Result (List ℕ)
  save_hostname server port =
      if a.grants (length server + length port + 2)
      then ok (server ++ 44 ∷ port)
      else fail out_of_memory

  -- ssh_str_dup_cstring on the user's name
  abbrev pub dup_cstring : List ℕ → Result (List ℕ)
  dup_cstring text = if a.grants (length text + 1) then ok text else fail out_of_memory

  -- conn_set_client_software, and the error that conn_connect sets
  abbrev pub client_version_of : Result VersionString → Result VersionString
  client_version_of (ok v) = ok v
  client_version_of (fail e) = fail bad_version

  abbrev pub prepared :
      List ℕ
      → List ℕ
      → List ℕ
      → Result (List ℕ)
      → Result (List ℕ)
      → Result VersionString
      → Result Prepared
  prepared server port username (fail e) name version = fail e
  prepared server port username (ok hostname) (fail e) version = fail e
  prepared server port username (ok hostname) (ok name) (fail e) = fail e
  prepared server port username (ok hostname) (ok name) (ok version) = ok (record {
    server = server;
    port = port;
    username = name;
    hostname = hostname;
    client_version = version;
  })

  -- The part of conn_connect in front of ssh_net_connect
  unfoldable pub prepare : Config → Result Prepared
  prepare cfg = elim cfg.server [
    | none ↦ fail io_error
    | some server ↦ elim cfg.username [
      | none ↦ fail io_error
      | some username ↦
          let port = or_default cfg.port ssh_port in
          prepared server port username (save_hostname server port) (dup_cstring username) (
            client_version_of (
              build (or_default cfg.version_software client_software)
                (or_default cfg.version_comments no_comments)))
    ]
  ]

-- "1.99" or "2.0"
abbrev pub is_supported : List ℕ → Bool
is_supported version =
    same_bytes version (49 ∷ 46 ∷ 57 ∷ 57 ∷ []) || same_bytes version (50 ∷ 46 ∷ 48 ∷ [])

module _ (k : Crypto) (a : Allocator) (p : Primitives k) (fuel beyond : ℕ) where
  -- ssh_net_write on the socket of a connection
  unfoldable pub write_raw : List ℕ → Act (Peer k) Unit
  write_raw bytes s =
      let (r, out, es) = net_write s.output.departures bytes in
      (r, record s { output = record s.output { departures = es; sent = s.output.sent ++ out } })

  -- ssh_version_string_read, with the buffer of the input stream
  unfoldable pub read_version : Act (Peer k) VersionString
  read_version s =
      let (r, b, es) = Version.read a fuel s.input.buf s.input.arrivals in
      (r, record s { input = record s.input { buf = b; arrivals = es } })

  abbrev pub accept_version : VersionString → Act (Peer k) VersionString
  accept_version server = if is_supported server.version then pure server else raise bad_version

  -- conn_setup
  unfoldable pub setup : VersionString → Act (Peer k) VersionString
  unfolding ◌>>=◌
  setup client = do
    write_raw client.buf
    write_raw (13 ∷ 10 ∷ [])
    server ← read_version
    accept_version server

  abbrev pub identity : Config → Prepared → VersionString → Identity
  identity cfg q server = record {
    hostname = q.hostname;
    client_version = q.client_version.buf;
    server_version = server.buf;
    checker = cfg.server_identity_checker;
  }

  -- ssh_userauth_run
  unfoldable pub log_in : Config → Prepared → VersionString → Act (Exchange k) VersionString
  unfolding ◌>>=◌
  log_in cfg q server = do
    on_peer k a p fuel (Userauth.run k a fuel q.username cfg.password_reader)
    pure server

  -- ssh_kex_run, and then ssh_userauth_run
  unfoldable pub secure : Config → Prepared → VersionString → Act (Exchange k) VersionString
  unfolding ◌>>=◌
  secure cfg q server = Run.run k a p fuel beyond (identity cfg q server) >> log_in cfg q server

  -- The part of conn_connect behind ssh_net_connect
  unfoldable pub start : Config → Prepared → Act (Exchange k) VersionString
  unfolding ◌>>=◌
  start cfg q = on_peer k a p fuel (setup q.client_version) >>= secure cfg q

  abbrev pub connected : Result VersionString × Exchange k → Result (VersionString × Exchange k)
  connected (ok v, c) = ok (v, c)
  connected (fail e, c) = fail e

  abbrev pub start_on :
      Config
      → Prepared
      → Result (List ReadEvent × List WriteEvent)
      → Result (VersionString × Exchange k)
  start_on cfg q (fail e) = fail e
  start_on cfg q (ok (arrivals, departures)) = connected (
      start cfg q (record {
        peer = record { input = init k a arrivals []; output = init k a [] departures };
        session_id = [];
        kex = kex_new;
      }))

  abbrev pub connect :
      (List ℕ → List ℕ → Result (List ReadEvent × List WriteEvent))
      → Config
      → Result Prepared
      → Result (VersionString × Exchange k)
  connect net_connect cfg (fail e) = fail e
  connect net_connect cfg (ok q) = start_on cfg q (net_connect q.server q.port)

  -- ssh_conn_open: the server's version string and the connection, or NULL. `conn_size` is the size of
  -- the structure that conn_new allocates.
  unfoldable pub open_conn :
      ℕ
      → (List ℕ → List ℕ → Result (List ReadEvent × List WriteEvent))
      → Config
      → Result (VersionString × Exchange k)
  open_conn conn_size net_connect cfg =
      if a.grants conn_size then connect net_connect cfg (prepare a cfg) else fail out_of_memory
