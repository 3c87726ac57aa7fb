-- ===== src/Kex/Dh/Transcript.antt =====
-- What dh_kex_hash hashes.
use eessh.Prelude.{
  ℕ, ◌<◌, ◌≡◌, refl, sym, ◌∙◌, ap, List, [], ◌∷◌, ◌++◌, length, All, ok, fail, Status,
}
use eessh.Buffer
use eessh.Buffer.{Buffer, Allocator, size_mod, contents, write_data, write_buffer}
use eessh.Buffer.Strings.{dup_result-same}
use eessh.Buffer.Valid.{new-IsValid}
use eessh.Buffer.Writes.{string_bytes, Wrote, Writes, Writes-then, write_data-Writes}
use eessh.Algorithms.{HashType}
use eessh.Stream.{Crypto}
use eessh.Kex.Exchange.{Primitives, Kex}
use eessh.Kex.Dh.{Identity, write_transcript, hash_of, kex_hash}

-- Strings on the wire, one behind the other
abbrev pub wire : List (List ℕ) → List ℕ
wire [] = []
wire (x ∷ []) = string_bytes x
wire (x ∷ y ∷ ys) = string_bytes x ++ wire (y ∷ ys)

module _ (k : Crypto) (a : Allocator) (p : Primitives k) (fuel beyond : ℕ) (id : Identity)
    (kex : Kex) (server_host_key client_pubkey server_pubkey shared_secret : List ℕ) where
  -- V_C, V_S, I_C, I_S, K_S, e, f and K of RFC 4253, section 8
  abbrev pub parts : List (List ℕ)
  parts =
      id.client_version
      ∷ id.server_version
      ∷ contents kex.client_kexinit
      ∷ contents kex.server_kexinit
      ∷ server_host_key
      ∷ client_pubkey
      ∷ server_pubkey
      ∷ shared_secret
      ∷ []

  write_transcript-Writes :
      All (λ xs. length xs < size_mod) parts
      → Writes a (wire parts) (
          write_transcript k a p fuel beyond id kex server_host_key client_pubkey server_pubkey
            shared_secret)
  unfolding write_transcript write_buffer
  write_transcript-Writes h = Writes-then a (write_data-Writes a _ h.0) (
      Writes-then a (write_data-Writes a _ h.1.0) (
        Writes-then a (write_data-Writes a _ h.1.1.0) (
          Writes-then a (write_data-Writes a _ h.1.1.1.0) (
            Writes-then a (write_data-Writes a _ h.1.1.1.1.0) (
              Writes-then a (write_data-Writes a _ h.1.1.1.1.1.0) (
                Writes-then a (write_data-Writes a _ h.1.1.1.1.1.1.0)
                  (write_data-Writes a _ h.1.1.1.1.1.1.1.0)))))))

  hash_of-Wrote :
      (type : HashType) (out : Status × Buffer) (xs digest : List ℕ)
      → Wrote xs Buffer.new out
      → hash_of k a p fuel beyond id type out ≡ ok digest
      → p.hash_compute type xs ≡ ok digest
  hash_of-Wrote type (fail e, b) xs digest w h = cc
  hash_of-Wrote type (ok _, b) xs digest w h =
      ap (p.hash_compute type) (sym (w.appends refl))
      ∙ dup_result-same a (p.hash_compute type (contents b)) digest h

  -- The exchange hash is the hash of RFC 4253, section 8: of both version strings, both
  -- SSH_MSG_KEXINIT, the key of the server, both public numbers and the secret, each as a string of
  -- the wire, in this order. Each is shorter than 2 ^ 64 bytes.
  pub kex_hash_lem :
      (digest : List ℕ)
      → All (λ xs. length xs < size_mod) parts
      → kex_hash k a p fuel beyond id kex server_host_key client_pubkey server_pubkey shared_secret
        ≡ ok digest
      → p.hash_compute kex.hash_type (wire parts) ≡ ok digest
  unfolding kex_hash
  kex_hash_lem digest h e =
      hash_of-Wrote kex.hash_type _ (wire parts) digest
        ((write_transcript-Writes h).step Buffer.new new-IsValid) e
