-- ===== src/Kex/Dh.antt =====
-- ssh/kex_dh.c: the Diffie-Hellman exchange (RFC 4253, section 8).
pub mod Finish
pub mod Transcript
pub mod Trust
pub mod Failure
use eessh.Prelude.{
  ℕ, List, [], ◌∷◌, Bool, true, false, ◌==◌, not, if◌then◌else◌, Option, none, some, Result, ok,
  fail, Status, bad_algorithm, bad_identity_error, unexpected_packet, Act, pure, raise, lift, gets,
  ◌>>=◌, ◌>>◌,
}
use eessh.Buffer
use eessh.Buffer.{Buffer, Allocator, contents, write_data, write_buffer}
use eessh.Buffer.Strings.{dup_result}
use eessh.Reader.{Reader, read_u8, read_string}
use eessh.Message.{byte, text}
use eessh.Algorithms.{HashType, KexType, dh_group_1, dh_group_14, same_kex, find}
use eessh.Pubkey.{verify_signature}
use eessh.Stream.{Crypto}
use eessh.Connection.{packet_type, send}
use eessh.Kex.Exchange.{Primitives, Kex, Exchange, on_peer, receive, finish}
use eessh.Constants.{msg_kexdh_init, msg_kexdh_reply}

-- struct DH_ALGO; the hexadecimal texts are numbers here.
pub record DhAlgo : Type 0 where
  pub type : KexType
  pub gen : ℕ
  pub modulus : ℕ

abbrev pub dh_algos : List DhAlgo
dh_algos =
    record {
      type = dh_group_1;
      gen = 2;
      modulus =
          0xFFFFFFFFFFFFFFFFC90FDAA22168C234C4C6628B80DC1CD129024E088A67CC74020BBEA63B139B22514A08798E3404DDEF9519B3CD3A431B302B0A6DF25F14374FE1356D6D51C245E485B576625E7EC6F44C42E9A637ED6B0BFF5CB6F406B7EDEE386BFB5A899FA5AE9F24117C4B1FE649286651ECE65381FFFFFFFFFFFFFFFF;
    }
    ∷ record {
      type = dh_group_14;
      gen = 2;
      modulus =
          0xFFFFFFFFFFFFFFFFC90FDAA22168C234C4C6628B80DC1CD129024E088A67CC74020BBEA63B139B22514A08798E3404DDEF9519B3CD3A431B302B0A6DF25F14374FE1356D6D51C245E485B576625E7EC6F44C42E9A637ED6B0BFF5CB6F406B7EDEE386BFB5A899FA5AE9F24117C4B1FE649286651ECE45B3DC2007CB8A163BF0598DA48361C55D39A69163FA8FD24CF5F83655D23DCA3AD961C62F356208552BB9ED529077096966D670C354E4ABC9804F1746C08CA18217C32905E462E36CE3BE39E772C180E86039B2783A2EC07A28FB5C55DF06F4C52C9DE2BCBF6955817183995497CEA956AE515D2261898FA051015728E5A8AACAA68FFFFFFFFFFFFFFFF;
    }
    ∷ []

-- kex_dh_get_algo
unfoldable pub get_dh_algo : KexType → Option DhAlgo
get_dh_algo t = find (λ r. same_kex r.type t) dh_algos

abbrev pub dh_algo_of : Option DhAlgo → Result DhAlgo
dh_algo_of none = fail bad_algorithm
dh_algo_of (some r) = ok r

-- What the connection knows of both sides: the name and port of the server, the two version
-- strings, and the client's callback that checks the server's key, if there is one.
pub record Identity : Type 0 where
  pub hostname : List ℕ
  pub client_version : List ℕ
  pub server_version : List ℕ
  pub checker : Option (List ℕ → List ℕ → Status)

-- ssh_conn_check_server_identity
abbrev pub check_with : Option (List ℕ → List ℕ → Status) → List ℕ → List ℕ → Status
check_with none hostname host_key = fail bad_identity_error
check_with (some checker) hostname host_key = checker hostname host_key

unfoldable pub check_server_identity : Identity → List ℕ → Status
check_server_identity id host_key = check_with id.checker id.hostname host_key

-- The three strings of SSH_MSG_KEXDH_REPLY
pub record Reply : Type 0 where
  pub host_key : List ℕ
  pub pubkey : List ℕ
  pub signature : List ℕ

unfoldable pub read_reply_strings : Act Reader Reply
unfolding ◌>>=◌
read_reply_strings = do
  type ← read_u8
  host_key ← read_string
  pubkey ← read_string
  signature ← read_string
  pure (record { host_key = host_key; pubkey = pubkey; signature = signature })

module _ (k : Crypto) (a : Allocator) (p : Primitives k) (fuel beyond : ℕ) (id : Identity) where
  -- dh_kex_send_init_msg
  unfoldable pub send_init_msg : p.Dh → Act (Exchange k) Unit
  unfolding ◌>>=◌
  send_init_msg dh = do
    e ← lift (p.dh_get_pubkey dh)
    on_peer k a p fuel (send k a (byte msg_kexdh_init ∷ text e ∷ []))

  -- The bytes that dh_kex_hash hashes
  unfoldable pub write_transcript : Kex → List ℕ → List ℕ → List ℕ → List ℕ → Act Buffer Unit
  unfolding ◌>>=◌
  write_transcript kex server_host_key client_pubkey server_pubkey shared_secret = do
    write_data a id.client_version
    write_data a id.server_version
    write_buffer a kex.client_kexinit
    write_buffer a kex.server_kexinit
    write_data a server_host_key
    write_data a client_pubkey
    write_data a server_pubkey
    write_data a shared_secret

  abbrev pub hash_of : HashType → Status × Buffer → Result (List ℕ)
  hash_of type (fail e, b) = fail e
  hash_of type (ok _, b) = dup_result a (p.hash_compute type (contents b))

  -- dh_kex_hash
  unfoldable pub kex_hash : Kex → List ℕ → List ℕ → List ℕ → List ℕ → Result (List ℕ)
  kex_hash kex server_host_key client_pubkey server_pubkey shared_secret =
      hash_of kex.hash_type
        (write_transcript kex server_host_key client_pubkey server_pubkey shared_secret Buffer.new)

  -- The end of dh_kex_read_reply: the exchange hash, the signature, the identity
  unfoldable pub authenticate : Reply → List ℕ → List ℕ → Kex → Act (Exchange k) Unit
  unfolding ◌>>=◌
  authenticate reply shared_secret client_pubkey kex = do
    exchange_hash ← lift (kex_hash kex reply.host_key client_pubkey reply.pubkey shared_secret)
    lift (
        verify_signature p.hash_compute p.rsa_verify beyond kex.pubkey_type reply.host_key
          reply.signature exchange_hash)
    lift (check_server_identity id reply.host_key)
    finish k a p fuel shared_secret exchange_hash

  -- dh_kex_read_reply, behind the reads from the packet
  unfoldable pub use_reply : p.Dh → Reply → Act (Exchange k) Unit
  unfolding ◌>>=◌
  use_reply dh reply = do
    shared_secret ← lift (p.dh_compute_key dh reply.pubkey)
    client_pubkey ← lift (p.dh_get_pubkey dh)
    kex ← gets (λ s. s.kex)
    authenticate reply shared_secret client_pubkey kex

  -- What dh_kex_read_reply does with the packet it has received
  unfoldable pub by_reply : p.Dh → Reader → Act (Exchange k) Unit
  unfolding ◌>>=◌
  by_reply dh pack =
      if packet_type pack == msg_kexdh_reply
      then lift (read_reply_strings pack).0 >>= use_reply dh
      else raise unexpected_packet

  -- dh_kex_read_reply
  unfoldable pub read_reply : p.Dh → Act (Exchange k) Unit
  unfolding ◌>>=◌
  read_reply dh = receive k a p fuel >>= by_reply dh

  abbrev pub own_algo : Act (Exchange k) DhAlgo
  own_algo s = (dh_algo_of (get_dh_algo s.kex.type), s)

  -- ssh_kex_dh_run
  unfoldable pub dh_run : Act (Exchange k) Unit
  unfolding ◌>>=◌
  dh_run = do
    algo ← own_algo
    dh ← lift (p.dh_new algo.gen algo.modulus)
    send_init_msg dh
    read_reply dh
