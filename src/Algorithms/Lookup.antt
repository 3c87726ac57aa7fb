-- ===== src/Algorithms/Lookup.antt =====
-- Looking a name up in a table of algorithms.
use eessh.Prelude.{
  ℕ, ◌≡◌, ◌≢◌, refl, List, [], ◌∷◌, ◌++◌, Bool, true, false, ◌&&◌, Option, none, some, ◌==◌,
  if◌then◌else◌, length, take, replicate, same_bytes, All, arith, Bool-cases, inl, inr,
}
use eessh.Algorithms.{
  Row, find, info_of, ends_at, strncmp_matches, memcmp_matches, get_by_name, pubkey_get_by_name,
}

-- A C string: no byte in it is the terminator.
abbrev pub IsCString : List ℕ → Type 0
IsCString xs = All (λ x. x ≢ 0) xs

abbrev pub HaveCStrings : {T : Type 0} → List (Row T) → Type 0
HaveCStrings rows = All (λ r. IsCString r.name) rows

-- The first row whose name is the one looked for.
abbrev pub named : {T : Type 0} → List (Row T) → List ℕ → Option T
named [] name = none
named (r ∷ rs) name = if same_bytes name r.name then some r.info else named rs name

strncmp_matches_lem :
    (beyond : ℕ) (name row : List ℕ)
    → IsCString name
    → IsCString row
    → strncmp_matches beyond name row ≡ same_bytes name row
strncmp_matches_lem beyond [] [] n r = refl
strncmp_matches_lem beyond [] (y ∷ ys) n r = ground (arith, r.0)
strncmp_matches_lem beyond (x ∷ xs) [] n r = ground (arith, n.0)
strncmp_matches_lem beyond (x ∷ xs) (y ∷ ys) n r =
    ground (arith, n.0, r.0, strncmp_matches_lem beyond xs ys n.1 r.1)

-- What is read behind the terminator has no effect.
region_lem :
    (beyond : ℕ) (tail name row : List ℕ)
    → IsCString name
    → IsCString row
    → same_bytes (take (length name) (row ++ 0 ∷ tail)) name && ends_at beyond row (length name)
      ≡ same_bytes name row
region_lem beyond tail [] [] n r = refl
region_lem beyond tail [] (y ∷ ys) n r = ground (arith, r.0)
region_lem beyond tail (x ∷ xs) [] n r = ground (arith, n.0)
region_lem beyond tail (x ∷ xs) (y ∷ ys) n r = elim (Bool-cases (x == y)) [
  | inl e ↦ rw (e, ==-swap x y e) (region_lem beyond tail xs ys n.1 r.1)
  | inr d ↦ rw (d, ==-false-swap x y d) refl
]
  where
    ==-swap : (a b : ℕ) → (a == b) ≡ true → (b == a) ≡ true
    ==-swap a b h = ground arith

    ==-false-swap : (a b : ℕ) → (a == b) ≡ false → (b == a) ≡ false
    ==-false-swap a b h = ground arith

memcmp_matches_lem :
    (beyond : ℕ) (name row : List ℕ)
    → IsCString name
    → IsCString row
    → memcmp_matches beyond name row ≡ same_bytes name row
memcmp_matches_lem beyond name row = region_lem beyond (replicate (length name) beyond) name row

find_lem :
    {T : Type 0} (p : List ℕ → Bool) (name : List ℕ) (rows : List (Row T))
    → All (λ r. p r.name ≡ same_bytes name r.name) rows
    → info_of (find (λ r. p r.name) rows) ≡ named rows name
find_lem p name [] h = refl
find_lem p name (r ∷ rs) h = elim (Bool-cases (same_bytes name r.name)) [
  | inl hit ↦ rw (h.0, hit) refl
  | inr miss ↦ rw (h.0, miss) (find_lem p name rs h.1)
]

each :
    {T : Type 0} {P : List ℕ → Type 0} (rows : List (Row T))
    → ((row : List ℕ) → IsCString row → P row)
    → HaveCStrings rows
    → All (λ r. P r.name) rows
each [] f h = tt
each (r ∷ rs) f h = (f r.name h.0, each rs f h.1)

-- A name without zero bytes is looked up as whole strings are compared, whatever stands behind
-- the names of the table.
get_by_name_lem :
    {T : Type 0} (beyond : ℕ) (rows : List (Row T)) (name : List ℕ)
    → HaveCStrings rows
    → IsCString name
    → get_by_name beyond rows name ≡ named rows name
unfolding get_by_name
get_by_name_lem beyond rows name h n =
    find_lem (strncmp_matches beyond name) name rows
      (each rows (λ row r. strncmp_matches_lem beyond name row n r) h)

-- The same for the table of public keys, whose names are compared by `memcmp`.
pub pubkey_get_by_name_lem :
    {T : Type 0} (beyond : ℕ) (rows : List (Row T)) (name : List ℕ)
    → HaveCStrings rows
    → IsCString name
    → pubkey_get_by_name beyond rows name ≡ named rows name
unfolding pubkey_get_by_name
pubkey_get_by_name_lem beyond rows name h n =
    find_lem (memcmp_matches beyond name) name rows
      (each rows (λ row r. memcmp_matches_lem beyond name row n r) h)
