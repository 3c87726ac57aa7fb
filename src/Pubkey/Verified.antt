-- ===== src/Pubkey/Verified.antt =====
-- What a signature that passes is.
use eessh.Prelude.{
  ℕ, ◌≡◌, sym, ap, List, [], ◌∷◌, Result, ok, Status, Act, ◌>>=◌, proceed-ok, lift-step, check-step,
  ok_injective, subst,
}
use eessh.Reader.{Reader, reader_of_string, read_string}
use eessh.Algorithms.{
  HashType, PubkeyType, PubkeyAlgo, rsa, sha1, pubkey_algos, pubkey_get_by_name, get_pubkey_algo,
}
use eessh.Pubkey.{
  Readers, on_key, on_sig, same_type, algo_of, rsa_verify, verify_with, verify_signature,
}

-- The strings in a row at the start of some bytes
abbrev pub IsStrings : List (List ℕ) → Reader → Type 0
IsStrings [] r = Unit
IsStrings (x ∷ xs) r = ((read_string r).0 ≡ ok x) × IsStrings xs (read_string r).1

-- The key is a name of a table with two numbers, the signature is a name of the table with its
-- value, and RSA with SHA-1 accepts this value for the hash of the data.
pub record Verified (hash_compute : HashType → List ℕ → Result (List ℕ))
    (crypto_rsa_verify : HashType → List ℕ → List ℕ → List ℕ → List ℕ → Status) (beyond : ℕ)
    (key signature data_bytes : List ℕ) : Type 0 where
  pub key_name : List ℕ
  pub e : List ℕ
  pub n : List ℕ
  pub sig_name : List ℕ
  pub sig_data : List ℕ
  pub hash : List ℕ
  pub key_parts : IsStrings (key_name ∷ e ∷ n ∷ []) (reader_of_string key)
  pub sig_parts : IsStrings (sig_name ∷ sig_data ∷ []) (reader_of_string signature)
  pub key_known : same_type rsa (pubkey_get_by_name beyond pubkey_algos key_name) ≡ ok tt
  pub sig_known : same_type rsa (pubkey_get_by_name beyond pubkey_algos sig_name) ≡ ok tt
  pub hashed : hash_compute sha1 data_bytes ≡ ok hash
  pub accepted : crypto_rsa_verify sha1 e n sig_data hash ≡ ok tt

module _ (hash_compute : HashType → List ℕ → Result (List ℕ))
    (crypto_rsa_verify : HashType → List ℕ → List ℕ → List ℕ → List ℕ → Status) (beyond : ℕ) where
  -- A chain that succeeds, taken apart at its first call
  on_key-step :
      {A : Type 0} (m : Act Reader A) (f : A → Act Readers Unit) (s : Readers) {t : Readers}
      → (on_key m >>= f) s ≡ (ok tt, t)
      → (x : A) × ((m s.key).0 ≡ ok x) × (f x (record s { key = (m s.key).1 }) ≡ (ok tt, t))
  unfolding ◌>>=◌
  on_key-step m f s h = proceed-ok _ _ f h

  on_sig-step :
      {A : Type 0} (m : Act Reader A) (f : A → Act Readers Unit) (s : Readers) {t : Readers}
      → (on_sig m >>= f) s ≡ (ok tt, t)
      → (x : A) × ((m s.sig).0 ≡ ok x) × (f x (record s { sig = (m s.sig).1 }) ≡ (ok tt, t))
  unfolding ◌>>=◌
  on_sig-step m f s h = proceed-ok _ _ f h

  pair_of : (m : Act Readers Unit) (s : Readers) → (m s).0 ≡ ok tt → m s ≡ (ok tt, (m s).1)
  pair_of m s h i = (h i, (m s).1)

  -- The lookup by type gives the row of "ssh-rsa".
  first_hash : {algo : PubkeyAlgo} → algo_of (get_pubkey_algo rsa) ≡ ok algo → algo.hash ≡ sha1
  unfolding get_pubkey_algo
  first_hash h = ap (λ (q : PubkeyAlgo). q.hash) (sym (ok_injective h))

  -- What rsa_verify has read from the key behind its type, and from the signature.
  record Checked (r sig : Reader) (data_bytes : List ℕ) : Type 0 where
    e : List ℕ
    n : List ℕ
    sig_name : List ℕ
    sig_data : List ℕ
    hash : List ℕ
    key_parts : IsStrings (e ∷ n ∷ []) r
    sig_parts : IsStrings (sig_name ∷ sig_data ∷ []) sig
    sig_known : same_type rsa (pubkey_get_by_name beyond pubkey_algos sig_name) ≡ ok tt
    hashed : hash_compute sha1 data_bytes ≡ ok hash
    accepted : crypto_rsa_verify sha1 e n sig_data hash ≡ ok tt

  rsa_verify-Checked :
      (s : Readers) (data_bytes : List ℕ) {t : Readers}
      → rsa_verify hash_compute crypto_rsa_verify beyond rsa data_bytes s ≡ (ok tt, t)
      → Checked s.key s.sig data_bytes
  unfolding rsa_verify
  rsa_verify-Checked s data_bytes h =
      let (e, h1, g1) = on_key-step read_string _ s h in
      let (n, h2, g2) = on_key-step read_string _ _ g1 in
      let (name, h3, g3) = on_sig-step read_string _ _ g2 in
      let (h4, g4) =
        check-step (same_type rsa (pubkey_get_by_name beyond pubkey_algos name)) _ _ g3 in
      let (algo, h5, g5) = lift-step (algo_of (get_pubkey_algo rsa)) _ _ g4 in
      let (hash, h6, g6) = lift-step (hash_compute algo.hash data_bytes) _ _ g5 in
      let (sig_data, h7, g7) = on_sig-step read_string _ _ g6 in
      record {
        e = e;
        n = n;
        sig_name = name;
        sig_data = sig_data;
        hash = hash;
        key_parts = (h1, (h2, tt));
        sig_parts = (h3, (h7, tt));
        sig_known = h4;
        hashed = subst (λ q. hash_compute q data_bytes ≡ ok hash) (first_hash h5) h6;
        accepted =
            subst (λ q. crypto_rsa_verify q e n sig_data hash ≡ ok tt) (first_hash h5)
              (ap (λ (p : Status × Readers). p.0) g7);
      }

  verify_with-Verified :
      (key signature data_bytes : List ℕ) {t : Readers}
      → verify_with hash_compute crypto_rsa_verify beyond rsa data_bytes
          (record { key = reader_of_string key; sig = reader_of_string signature })
        ≡ (ok tt, t)
      → Verified hash_compute crypto_rsa_verify beyond key signature data_bytes
  unfolding verify_with
  verify_with-Verified key signature data_bytes h =
      let (name, h1, g1) = on_key-step read_string _ _ h in
      let (h2, g2) =
        check-step (same_type rsa (pubkey_get_by_name beyond pubkey_algos name)) _ _ g1 in
      let (algo, h3, g3) = lift-step (algo_of (get_pubkey_algo rsa)) _ _ g2 in
      let c = rsa_verify-Checked _ data_bytes g3 in
      record {
        key_name = name;
        e = c.e;
        n = c.n;
        sig_name = c.sig_name;
        sig_data = c.sig_data;
        hash = c.hash;
        key_parts = (h1, c.key_parts);
        sig_parts = c.sig_parts;
        key_known = h2;
        sig_known = c.sig_known;
        hashed = c.hashed;
        accepted = c.accepted;
      }

  -- A signature passes ssh_pubkey_verify_signature only if key and signature consist of the
  -- expected strings, both name an RSA algorithm, and RSA accepts the signature for the SHA-1 hash
  -- of the data, whichever of the names was agreed on.
  pub verify_signature-Verified :
      (key_type : PubkeyType) (key signature data_bytes : List ℕ)
      → verify_signature hash_compute crypto_rsa_verify beyond key_type key signature data_bytes
        ≡ ok tt
      → Verified hash_compute crypto_rsa_verify beyond key signature data_bytes
  unfolding verify_signature
  verify_signature-Verified rsa key signature data_bytes h =
      verify_with-Verified key signature data_bytes
        (pair_of (verify_with hash_compute crypto_rsa_verify beyond rsa data_bytes) _ h)
