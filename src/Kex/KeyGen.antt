-- ===== src/Kex/KeyGen.antt =====
-- ssh/kex.c: gen_key, the keys that follow from the shared secret (RFC 4253, section 7.2). The hash
-- is a parameter.
pub mod Derived
use eessh.Prelude.{
  ℕ, zero, suc, ◌+◌, List, [], ◌∷◌, ltb, if◌then◌else◌, blit, length, take, Result, ok, fail,
  Status, Act, pure, lift, gets, modify, ◌>>=◌, ◌>>◌, would_block, crypto_failure,
}
use eessh.Buffer.{
  Buffer, Allocator, add_size, contents, new, clear, grow, write_u8, append_data, write_data,
}
use eessh.Buffer.Strings.{dup_string}

-- SSH_HASH_MAX_LEN
abbrev pub hash_max_len : ℕ
hash_max_len = 256

-- The two buffers of gen_key
pub record Work : Type 0 where
  pub input : Buffer
  pub hash : Buffer

abbrev pub on_data : {A : Type 0} → Act Buffer A → Act Work A
on_data m s = let (r, b) = m s.input in (r, record s { input = b })

abbrev pub on_hash : {A : Type 0} → Act Buffer A → Act Work A
on_hash m s = let (r, b) = m s.hash in (r, record s { hash = b })

-- The digest goes behind the fill level, which moves past it.
abbrev pub add_digest : List ℕ → Buffer → Buffer
add_digest digest b = record b {
  mem = blit b.mem b.len digest;
  len = add_size b.len (length digest);
}

-- ssh_str_dup_string on the front of the hash buffer
abbrev pub key_of : Allocator → ℕ → Result (Unit {0}) → Work → Result (List ℕ)
key_of a gen_key_len (ok _) s = dup_string a (take gen_key_len s.hash.mem)
key_of a gen_key_len (fail e) s = fail e

module _ (a : Allocator) (hash_compute : List ℕ → Result (List ℕ))
    (shared_secret exchange_hash : List ℕ) where
  -- ssh_buf_grow on the hash buffer, ssh_hash_compute over the data buffer
  unfoldable pub digest_data : Act Work Unit
  unfolding ◌>>=◌
  digest_data = do
    on_hash (grow a hash_max_len)
    digest ← (λ s. (hash_compute (contents s.input), s))
    on_hash (modify (add_digest digest))

  -- K[1] = HASH(K || H || X || session_id)
  unfoldable pub first_block : ℕ → List ℕ → Act Work Unit
  unfolding ◌>>=◌
  first_block key_id session_id = do
    on_data (write_data a shared_secret)
    on_data (append_data a exchange_hash)
    on_data (write_u8 a key_id)
    on_data (append_data a session_id)
    digest_data

  -- K[n] = HASH(K || H || K[1] || ... || K[n-1])
  unfoldable pub next_block : Act Work Unit
  unfolding ◌>>=◌
  next_block = do
    on_data (modify clear)
    on_data (write_data a shared_secret)
    on_data (append_data a exchange_hash)
    so_far ← gets (λ s. contents s.hash)
    on_data (append_data a so_far)
    digest_data

  -- The loop; a digest is not empty, so that `gen_key_len` turns are enough.
  unfoldable pub more_blocks : ℕ → ℕ → Act Work Unit
  unfolding ◌>>=◌
  more_blocks zero gen_key_len = pure tt
  more_blocks (suc fuel) gen_key_len = do
    len ← gets (λ s. s.hash.len)
    if ltb len gen_key_len then next_block >> more_blocks fuel gen_key_len else pure tt

  unfoldable pub gen_blocks : ℕ → ℕ → List ℕ → Act Work Unit
  unfolding ◌>>=◌
  gen_blocks gen_key_len key_id session_id = do
    first_block key_id session_id
    more_blocks gen_key_len gen_key_len

  -- gen_key; the key is a copy of the front of the hash buffer
  unfoldable pub gen_key : ℕ → ℕ → List ℕ → Result (List ℕ)
  gen_key gen_key_len key_id session_id =
      let (r, s) = gen_blocks gen_key_len key_id session_id (record { input = new; hash = new }) in
      key_of a gen_key_len r s
