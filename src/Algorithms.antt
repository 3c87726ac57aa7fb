-- ===== src/Algorithms.antt =====
-- The tables of algorithms of ssh/cipher.c, ssh/mac.c, ssh/kex.c, ssh/hash.c and ssh/pubkey.c, and
-- the functions that look in them. Each file has its own copy of the loops; here they take the
-- table as an argument. The enumerations are those of crypto/algorithms.h, ssh/mac_i.h and
-- ssh/kex_i.h; their `_INVALID` members are `none`.
pub mod Lookup
pub mod Supported
use eessh.Prelude.{
  ℕ, zero, suc, ◌+◌, List, [], ◌∷◌, ◌++◌, Bool, true, false, ◌&&◌, ◌||◌, Option, none, some, ◌==◌,
  if◌then◌else◌, length, take, get_or, replicate, same_bytes, Act, pure, modify, ◌>>=◌, ◌>>◌,
}
use eessh.Buffer.{Buffer, Allocator, clear, write_u8, append_data}

-- A row of a table: its name, and the rest.
pub record Row (T : Type 0) : Type 0 where
  pub name : List ℕ
  pub info : T

abbrev pub names_of : {T : Type 0} → List (Row T) → List (List ℕ)
names_of [] = []
names_of (r ∷ rs) = r.name ∷ names_of rs

-- `strncmp` gives 0 on the first `n` bytes. A list that ends stands for a terminator.
abbrev pub strncmp_is_zero : ℕ → List ℕ → List ℕ → Bool
strncmp_is_zero zero xs ys = true
strncmp_is_zero (suc n) [] [] = true
strncmp_is_zero (suc n) [] (y ∷ ys) = y == 0
strncmp_is_zero (suc n) (x ∷ xs) [] = x == 0
strncmp_is_zero (suc n) (x ∷ xs) (y ∷ ys) = x == y && (x == 0 || strncmp_is_zero n xs ys)

-- The loop of `*_get_by_name_n`, and of `*_get_algo` on the type: the first row that passes.
abbrev pub find {ℓ} : {A : Type ℓ} → (A → Bool) → List A → Option A
find p [] = none
find p (x ∷ xs) = let later = find p xs in if p x then some x else later

abbrev pub info_of : {T : Type 0} → Option (Row T) → Option T
info_of none = none
info_of (some r) = some r.info

-- `beyond` is what is found behind the terminator of a name of a table.
module _ (beyond : ℕ) where
  -- name[n] == '\0'
  abbrev pub ends_at : List ℕ → ℕ → Bool
  ends_at row n = get_or (row ++ 0 ∷ []) n beyond == 0

  abbrev pub strncmp_matches : List ℕ → List ℕ → Bool
  strncmp_matches name row = strncmp_is_zero (length name) name row && ends_at row (length name)

  abbrev pub memcmp_matches : List ℕ → List ℕ → Bool
  memcmp_matches name row =
      same_bytes (take (length name) (row ++ 0 ∷ replicate (length name) beyond)) name
      && ends_at row (length name)

  -- ssh_kex_get_by_name_n, ssh_cipher_get_by_name_n, ssh_mac_get_by_name_n
  unfoldable pub get_by_name : {T : Type 0} → List (Row T) → List ℕ → Option T
  get_by_name rows name = info_of (find (λ r. strncmp_matches name r.name) rows)

  -- ssh_pubkey_get_by_name_n
  unfoldable pub pubkey_get_by_name : {T : Type 0} → List (Row T) → List ℕ → Option T
  pubkey_get_by_name rows name = info_of (find (λ r. memcmp_matches name r.name) rows)

-- The loop of `*_get_supported_algos`: the names with commas between them.
unfoldable pub append_names : Allocator → Bool → List (List ℕ) → Act Buffer Unit
unfolding ◌>>=◌
append_names a first [] = pure tt
append_names a true (x ∷ xs) = append_data a x >> append_names a false xs
append_names a false (x ∷ xs) = (write_u8 a 44 >> append_data a x) >> append_names a false xs

-- ssh_kex_get_supported_algos and its copies
unfoldable pub get_supported_algos : {T : Type 0} → Allocator → List (Row T) → Act Buffer Unit
unfolding ◌>>=◌
get_supported_algos a rows = do modify clear; append_names a true (names_of rows)

-- ssh/hash.c
pub data HashType : Type 0 where
  sha1 : HashType
  sha2_256 : HashType
  sha2_512 : HashType

abbrev same_hash : HashType → HashType → Bool
same_hash sha1 sha1 = true
same_hash sha2_256 sha2_256 = true
same_hash sha2_512 sha2_512 = true
same_hash _ _ = false

pub record HashAlgo : Type 0 where
  pub type : HashType
  pub len : ℕ

abbrev pub hash_algos : List (Row HashAlgo)
hash_algos =
    record { name = 115 ∷ 104 ∷ 97 ∷ 49 ∷ []; info = record { type = sha1; len = 20 } }
    ∷ record {
      name = 115 ∷ 104 ∷ 97 ∷ 50 ∷ 45 ∷ 50 ∷ 53 ∷ 54 ∷ [];
      info = record { type = sha2_256; len = 32 };
    }
    ∷ record {
      name = 115 ∷ 104 ∷ 97 ∷ 50 ∷ 45 ∷ 53 ∷ 49 ∷ 50 ∷ [];
      info = record { type = sha2_512; len = 64 };
    }
    ∷ []

-- get_algo, ssh_hash_get_len
unfoldable pub get_hash_algo : HashType → Option (Row HashAlgo)
get_hash_algo t = find (λ r. same_hash r.info.type t) hash_algos

unfoldable pub hash_get_len : HashType → Option ℕ
hash_get_len t = elim (get_hash_algo t) [ none ↦ none | some r ↦ some (r.info.len) ]

-- ssh/cipher.c
pub data CipherType : Type 0 where
  no_cipher : CipherType
  aes128_ctr : CipherType
  aes128_cbc : CipherType

abbrev same_cipher : CipherType → CipherType → Bool
same_cipher no_cipher no_cipher = true
same_cipher aes128_ctr aes128_ctr = true
same_cipher aes128_cbc aes128_cbc = true
same_cipher _ _ = false

pub record CipherAlgo : Type 0 where
  pub type : CipherType
  pub block_len : ℕ
  pub key_len : ℕ
  pub iv_len : ℕ

abbrev pub cipher_algos : List (Row CipherAlgo)
cipher_algos =
    record {
      name = 97 ∷ 101 ∷ 115 ∷ 49 ∷ 50 ∷ 56 ∷ 45 ∷ 99 ∷ 116 ∷ 114 ∷ [];
      info = record { type = aes128_ctr; block_len = 16; key_len = 16; iv_len = 16 };
    }
    ∷ record {
      name = 97 ∷ 101 ∷ 115 ∷ 49 ∷ 50 ∷ 56 ∷ 45 ∷ 99 ∷ 98 ∷ 99 ∷ [];
      info = record { type = aes128_cbc; block_len = 16; key_len = 16; iv_len = 16 };
    }
    ∷ []

-- cipher_get_algo and what is read from the row; the key's and the iv's length are exchanged, as
-- in the source
unfoldable pub get_cipher_algo : CipherType → Option (Row CipherAlgo)
get_cipher_algo t = find (λ r. same_cipher r.info.type t) cipher_algos

unfoldable pub cipher_get_block_len : CipherType → Option ℕ
cipher_get_block_len t = elim (get_cipher_algo t) [ none ↦ none | some r ↦ some (r.info.block_len) ]

unfoldable pub cipher_get_key_len : CipherType → Option ℕ
cipher_get_key_len t = elim (get_cipher_algo t) [ none ↦ none | some r ↦ some (r.info.iv_len) ]

unfoldable pub cipher_get_iv_len : CipherType → Option ℕ
cipher_get_iv_len t = elim (get_cipher_algo t) [ none ↦ none | some r ↦ some (r.info.key_len) ]

-- ssh/mac.c
pub data MacType : Type 0 where
  no_mac : MacType
  hmac_sha2_256 : MacType
  hmac_sha2_512 : MacType

abbrev same_mac : MacType → MacType → Bool
same_mac no_mac no_mac = true
same_mac hmac_sha2_256 hmac_sha2_256 = true
same_mac hmac_sha2_512 hmac_sha2_512 = true
same_mac _ _ = false

pub record MacAlgo : Type 0 where
  pub type : MacType
  pub hash : HashType
  pub len : ℕ

abbrev pub mac_algos : List (Row MacAlgo)
mac_algos =
    record {
      name = 104 ∷ 109 ∷ 97 ∷ 99 ∷ 45 ∷ 115 ∷ 104 ∷ 97 ∷ 50 ∷ 45 ∷ 50 ∷ 53 ∷ 54 ∷ [];
      info = record { type = hmac_sha2_256; hash = sha2_256; len = 32 };
    }
    ∷ record {
      name = 104 ∷ 109 ∷ 97 ∷ 99 ∷ 45 ∷ 115 ∷ 104 ∷ 97 ∷ 50 ∷ 45 ∷ 53 ∷ 49 ∷ 50 ∷ [];
      info = record { type = hmac_sha2_512; hash = sha2_512; len = 64 };
    }
    ∷ []

unfoldable pub get_mac_algo : MacType → Option (Row MacAlgo)
get_mac_algo t = find (λ r. same_mac r.info.type t) mac_algos

unfoldable pub mac_get_len : MacType → Option ℕ
mac_get_len t = elim (get_mac_algo t) [ none ↦ none | some r ↦ some (r.info.len) ]

-- ssh/kex.c
pub data KexType : Type 0 where
  dh_group_1 : KexType
  dh_group_14 : KexType

abbrev pub same_kex : KexType → KexType → Bool
same_kex dh_group_1 dh_group_1 = true
same_kex dh_group_14 dh_group_14 = true
same_kex _ _ = false

pub record KexAlgo : Type 0 where
  pub type : KexType
  pub hash : HashType

abbrev pub kex_algos : List (Row KexAlgo)
kex_algos =
    record {
      name =
          100 ∷ 105 ∷ 102 ∷ 102 ∷ 105 ∷ 101 ∷ 45 ∷ 104 ∷ 101 ∷ 108 ∷ 108 ∷ 109 ∷ 97 ∷ 110 ∷ 45 ∷ 103
          ∷ 114 ∷ 111 ∷ 117 ∷ 112 ∷ 49 ∷ 52 ∷ 45 ∷ 115 ∷ 104 ∷ 97 ∷ 49 ∷ [];
      info = record { type = dh_group_14; hash = sha1 };
    }
    ∷ record {
      name =
          100 ∷ 105 ∷ 102 ∷ 102 ∷ 105 ∷ 101 ∷ 45 ∷ 104 ∷ 101 ∷ 108 ∷ 108 ∷ 109 ∷ 97 ∷ 110 ∷ 45 ∷ 103
          ∷ 114 ∷ 111 ∷ 117 ∷ 112 ∷ 49 ∷ 45 ∷ 115 ∷ 104 ∷ 97 ∷ 49 ∷ [];
      info = record { type = dh_group_1; hash = sha1 };
    }
    ∷ []

unfoldable pub get_kex_algo : KexType → Option (Row KexAlgo)
get_kex_algo t = find (λ r. same_kex r.info.type t) kex_algos

-- ssh/pubkey.c: the three names stand for one type
pub data PubkeyType : Type 0 where
  rsa : PubkeyType

pub record PubkeyAlgo : Type 0 where
  pub type : PubkeyType
  pub hash : HashType

abbrev pub pubkey_algos : List (Row PubkeyAlgo)
pubkey_algos =
    record {
      name = 115 ∷ 115 ∷ 104 ∷ 45 ∷ 114 ∷ 115 ∷ 97 ∷ [];
      info = record { type = rsa; hash = sha1 };
    }
    ∷ record {
      name = 114 ∷ 115 ∷ 97 ∷ 45 ∷ 115 ∷ 104 ∷ 97 ∷ 50 ∷ 45 ∷ 53 ∷ 49 ∷ 50 ∷ [];
      info = record { type = rsa; hash = sha2_512 };
    }
    ∷ record {
      name = 114 ∷ 115 ∷ 97 ∷ 45 ∷ 115 ∷ 104 ∷ 97 ∷ 50 ∷ 45 ∷ 50 ∷ 53 ∷ 54 ∷ [];
      info = record { type = rsa; hash = sha2_256 };
    }
    ∷ []

abbrev pub same_pubkey : PubkeyType → PubkeyType → Bool
same_pubkey rsa rsa = true

unfoldable pub get_pubkey_algo : PubkeyType → Option (Row PubkeyAlgo)
get_pubkey_algo t = find (λ r. same_pubkey r.info.type t) pubkey_algos
