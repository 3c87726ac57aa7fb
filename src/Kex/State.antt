-- ===== src/Kex/State.antt =====
-- ssh/kex_i.h and the outside of ssh/kex.c: what an exchange keeps and what it calls.
use eessh.Prelude.{ℕ, List, [], Bool, Result, Status}
use eessh.Buffer
use eessh.Buffer.{Buffer}
use eessh.Algorithms.{
  HashType, sha1, KexType, dh_group_1, PubkeyType, rsa, CipherType, no_cipher, MacType, no_mac,
}
use eessh.Stream.{Crypto}
use eessh.Connection.{Peer}

-- What the exchange calls outside of ssh: hashes, RSA, Diffie-Hellman, random bytes; and the
-- contexts that ssh_cipher_new (true: to encrypt) and ssh_mac_new make.
pub record Primitives (k : Crypto) : Type 1 where
  pub hash_compute : HashType → List ℕ → Result (List ℕ)
  pub rsa_verify : HashType → List ℕ → List ℕ → List ℕ → List ℕ → Status
  pub Dh : Type 0
  pub dh_new : ℕ → ℕ → Result Dh
  pub dh_get_pubkey : Dh → Result (List ℕ)
  pub dh_compute_key : Dh → List ℕ → Result (List ℕ)
  pub random_gen : ℕ → Result (List ℕ)
  pub cipher_new : CipherType → Bool → List ℕ → List ℕ → Result (k.CipherCtx)
  pub mac_new : MacType → List ℕ → Result (k.MacCtx)

-- struct SSH_KEX
pub record Kex : Type 0 where
  pub first_kex_packet_follows : ℕ
  pub type : KexType
  pub hash_type : HashType
  pub pubkey_type : PubkeyType
  pub cipher_type_cts : CipherType
  pub cipher_type_stc : CipherType
  pub mac_type_cts : MacType
  pub mac_type_stc : MacType
  pub shared_secret : List ℕ
  pub exchange_hash : List ℕ
  pub server_kexinit : Buffer
  pub client_kexinit : Buffer

-- kex_new, on memory from `calloc`
abbrev pub kex_new : Kex
kex_new = record {
  first_kex_packet_follows = 0;
  type = dh_group_1;
  hash_type = sha1;
  pubkey_type = rsa;
  cipher_type_cts = no_cipher;
  cipher_type_stc = no_cipher;
  mac_type_cts = no_mac;
  mac_type_stc = no_mac;
  shared_secret = [];
  exchange_hash = [];
  server_kexinit = Buffer.new;
  client_kexinit = Buffer.new;
}

-- What an exchange changes: the streams and the session id of the connection, and struct SSH_KEX
pub record Exchange (k : Crypto) : Type 0 where
  pub peer : Peer k
  pub session_id : List ℕ
  pub kex : Kex
