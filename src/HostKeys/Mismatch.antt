-- ===== src/HostKeys/Mismatch.antt =====
-- A host that was added with one key is refused with another key of the same type.
use eessh.Prelude.{
  ℕ, ◌+◌, ◌%◌, ◌≡◌, ◌≢◌, refl, sym, ◌∙◌, ap, List, [], ◌∷◌, ◌++◌, true, false, ◌&&◌, Bool-cases,
  inl, inr, ◌⊎◌, Result, ok, fail, ok_injective, same_bytes, same_bytes→eq, same_bytes_self, length,
  out_of_memory, arith,
}
use eessh.Buffer.{Allocator}
use eessh.Base64.{encode, allocated}
use eessh.Base64.Length.{encode-allocated}
use eessh.Reader.{reader_of_string, read_string}
use eessh.HostKeys.{
  HostData, StoreFile, bad_identity, is_missing, is_token, line_matches_key, key_line, FileSystem,
  add, check_server, encoded_text, host_data_of, host_data_create,
}
use eessh.HostKeys.Tokens.{IsEntry, tokens, is_token_self}
use eessh.HostKeys.Add.{rewritten, replaces, no_token-missing}
use eessh.HostKeys.Check.{first_match, new_lines, search-flat}
use eessh.HostKeys.Store.{add-Added, old_lines}

-- The same host and type with another key's text
abbrev pub with_key : HostData → List ℕ → HostData
with_key d text = record d { host_key = text }

is_token-other : (xs ys : List ℕ) → ys ≢ xs → is_token xs ys ≡ false
is_token-other [] ys n = refl
is_token-other (x ∷ xs) ys n = elim (Bool-cases (same_bytes (x ∷ xs) ys)) [
  | inl same ↦ absurd (n (sym (same_bytes→eq _ _ same)))
  | inr differ ↦ differ
]

match_other_key :
    (d : HostData) (text : List ℕ)
    → IsEntry d
    → text ≢ d.host_key
    → line_matches_key (key_line d) (with_key d text) ≡ bad_identity
unfolding line_matches_key
match_other_key d text e n =
    rw
      (
        (tokens d e).0,
        (tokens d e).1,
        (tokens d e).2,
        e.plain,
        same_bytes_self d.hostname,
        is_token_self d.key_type e.type,
        is_token-other d.host_key text n,
      )
      refl

-- Which lines are passed over does not depend on the key.
missing-with_key :
    (t : List ℕ) (d : HostData) (text : List ℕ)
    → is_missing (line_matches_key t (with_key d text)) ≡ is_missing (line_matches_key t d)
unfolding line_matches_key
missing-with_key t d text = ground arith

first_match-with_key :
    (d : HostData) (text : List ℕ) (ts rest : List (List ℕ))
    → IsEntry d
    → text ≢ d.host_key
    → (replaces d ts ≡ false → first_match (with_key d text) rest ≡ bad_identity)
    → first_match (with_key d text) (rewritten d ts ++ rest) ≡ bad_identity
first_match-with_key d text [] rest e n h = h refl
first_match-with_key d text ([] ∷ ts) rest e n h =
    first_match-with_key d text ts rest e n (λ r. h (rw (no_token-missing d) r))
first_match-with_key d text ((x ∷ xs) ∷ ts) rest e n h =
    elim (Bool-cases (is_missing (line_matches_key (x ∷ xs) d))) [
      | inl m ↦
          rw (m, missing-with_key (x ∷ xs) d text, m)
            (first_match-with_key d text ts rest e n (λ r. h (rw m r)))
      | inr m ↦ rw (m, match_other_key d text e n) refl
    ]

-- A key whose length three divides has its Base64 text.
pub encoded-inside :
    (a : Allocator) (key : List ℕ) → length key % 3 ≡ 0 → encoded_text a key ≡ encode key
encoded-inside a key h = rw (encode-allocated key, h) refl

-- host_data_create reads everything but the key's text from the start of the key.
host_data_of-with_key :
    (a : Allocator) (hostname key key' : List ℕ) (type : Result (List ℕ)) {d : HostData}
    → host_data_of a hostname key type ≡ ok d
    → (d.host_key ≡ encoded_text a key)
      × ((host_data_of a hostname key' type ≡ ok (with_key d (encoded_text a key')))
          ⊎ (host_data_of a hostname key' type ≡ fail out_of_memory))
host_data_of-with_key a hostname key key' (fail e) h = cc
host_data_of-with_key a hostname key key' (ok type) h =
    elim (Bool-cases (a.grants (length type + 1) && a.grants (allocated (length key)))) [
      | inr refused ↦ cc (rw refused at h)
      | inl granted ↦
          let made = ok_injective (rw granted at h) in
          (
            ap (λ (x : HostData). x.host_key) (sym made),
            elim (Bool-cases (a.grants (length type + 1) && a.grants (allocated (length key')))) [
              | inl also ↦ inl (rw also (ap (λ x. ok (with_key x (encoded_text a key'))) made))
              | inr refused ↦ inr (rw refused refl)
            ],
          )
    ]

module _ (a : Allocator) where
  pub host_data_create-with_key :
      (hostname key key' : List ℕ) {d : HostData}
      → host_data_create a hostname key ≡ ok d
      → (read_string (reader_of_string key')).0 ≡ (read_string (reader_of_string key)).0
      → (d.host_key ≡ encoded_text a key)
        × ((host_data_create a hostname key' ≡ ok (with_key d (encoded_text a key')))
            ⊎ (host_data_create a hostname key' ≡ fail out_of_memory))
  unfolding host_data_create
  host_data_create-with_key hostname key key' h t =
      rw t (host_data_of-with_key a hostname key key' _ h)

module _ (a : Allocator) (fs fs' : FileSystem) where
  -- After a successful addition another key of the same type is a bad identity of the host.
  pub check_server-add_mismatch :
      (hostname key key' text : List ℕ) (old new : StoreFile) (d : HostData)
      → host_data_create a hostname key ≡ ok d
      → IsEntry d
      → host_data_create a hostname key' ≡ ok (with_key d text)
      → text ≢ d.host_key
      → fs.flushes ≡ true
      → add a fs hostname key old ≡ (ok tt, new)
      → fs'.read_fails ≡ false
      → check_server a fs' hostname key' new ≡ bad_identity
  unfolding check_server
  check_server-add_mismatch hostname key key' text old new d k e k' n w h r =
      let added = add-Added a fs hostname key old d k e w h in
      rw (added.file, k', r)
        (search-flat (with_key d text) (new_lines d (old_lines old)) added.short
          ∙ first_match-with_key d text (old_lines old) _ e n
              (λ q. rw (q, match_other_key d text e n) refl))
