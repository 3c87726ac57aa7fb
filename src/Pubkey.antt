-- ===== src/Pubkey.antt =====
-- ssh/pubkey.c: the check of the server's signature. The hash and RSA are parameters.
pub mod Verified
use eessh.Prelude.{
  ℕ, List, [], ◌∷◌, Bool, true, false, if◌then◌else◌, Option, none, some, Result, ok, fail, Status,
  bad_algorithm, Act, pure, lift, ◌>>=◌, ◌>>◌,
}
use eessh.Reader.{Reader, reader_of_string, read_string}
use eessh.Algorithms.{
  HashType, Row, PubkeyType, PubkeyAlgo, same_pubkey, pubkey_algos, pubkey_get_by_name,
  get_pubkey_algo,
}

-- `key_type != ssh_pubkey_get_by_name_n(...)` is an error.
abbrev pub same_type : PubkeyType → Option PubkeyAlgo → Status
same_type key_type none = fail bad_algorithm
same_type key_type (some algo) =
    if same_pubkey key_type algo.type then ok tt else fail bad_algorithm

-- The row that get_pubkey_algo gives
abbrev pub algo_of : Option (Row PubkeyAlgo) → Result PubkeyAlgo
algo_of none = fail bad_algorithm
algo_of (some r) = ok r.info

-- The readers of the key and of the signature
pub record Readers : Type 0 where
  pub key : Reader
  pub sig : Reader

abbrev pub on_key : {A : Type 0} → Act Reader A → Act Readers A
on_key m s = let (r, k) = m s.key in (r, record s { key = k })

abbrev pub on_sig : {A : Type 0} → Act Reader A → Act Readers A
on_sig m s = let (r, k) = m s.sig in (r, record s { sig = k })

module _ (hash_compute : HashType → List ℕ → Result (List ℕ))
    (crypto_rsa_verify : HashType → List ℕ → List ℕ → List ℕ → List ℕ → Status) (beyond : ℕ) where
  -- rsa_verify, on readers of the key, behind its type, and of the signature
  unfoldable pub rsa_verify : PubkeyType → List ℕ → Act Readers Unit
  unfolding ◌>>=◌
  rsa_verify key_type data_bytes = do
    e ← on_key read_string
    n ← on_key read_string
    sig_type ← on_sig read_string
    lift (same_type key_type (pubkey_get_by_name beyond pubkey_algos sig_type))
    algo ← lift (algo_of (get_pubkey_algo key_type))
    hash ← lift (hash_compute algo.hash data_bytes)
    sig_data ← on_sig read_string
    lift (crypto_rsa_verify algo.hash e n sig_data hash)

  -- All rows of the table have rsa_verify as their function.
  unfoldable pub verify_with : PubkeyType → List ℕ → Act Readers Unit
  unfolding ◌>>=◌
  verify_with key_type data_bytes = do
    key_type_str ← on_key read_string
    lift (same_type key_type (pubkey_get_by_name beyond pubkey_algos key_type_str))
    algo ← lift (algo_of (get_pubkey_algo key_type))
    rsa_verify key_type data_bytes

  -- ssh_pubkey_verify_signature
  unfoldable pub verify_signature : PubkeyType → List ℕ → List ℕ → List ℕ → Status
  verify_signature key_type key signature data_bytes =
      (verify_with key_type data_bytes
        (record { key = reader_of_string key; sig = reader_of_string signature })).0
