-- ===== src/Kex/Names.antt =====
-- Lists of names, as choose_algo reads them.
use eessh.Prelude.{
  ℕ, ◌≤◌, ◌<◌, ◌≡◌, refl, ◌∙◌, ap, List, [], ◌∷◌, Bool, true, false, Option, none, some,
  if◌then◌else◌, length, ◌==◌, Result, fail, no_shared_algorithms, same_bytes, arith, Bool-cases,
  inl, inr, ◌⊎◌,
}
use eessh.Reader.Until.{before, past}
use eessh.Kex.{comma, with_found}

-- A list of names by itself: the pieces between the commas, up to the first one that is empty.
abbrev cons_head : ℕ → List (List ℕ) → List (List ℕ)
cons_head x [] = (x ∷ []) ∷ []
cons_head x (p ∷ ps) = (x ∷ p) ∷ ps

abbrev pub pieces : List ℕ → List (List ℕ)
pieces [] = [] ∷ []
pieces (x ∷ xs) = let ps = pieces xs in if x == comma then [] ∷ ps else cons_head x ps

abbrev pub until_empty : List (List ℕ) → List (List ℕ)
until_empty [] = []
until_empty ([] ∷ ps) = []
until_empty ((x ∷ xs) ∷ ps) = (x ∷ xs) ∷ until_empty ps

abbrev pub names : List ℕ → List (List ℕ)
names xs = until_empty (pieces xs)

-- Where a name stands in a list: `first` tells what to answer at its head.
abbrev pub found : Bool → List ℕ → List (List ℕ) → Option Bool
found first c [] = none
found first c (s ∷ ss) = if same_bytes c s then some first else found false c ss

-- The first name of `cs` that is in `ss`, and whether it is the first of both.
abbrev pub agreed : Bool → List (List ℕ) → List (List ℕ) → Result (List ℕ × Bool)
agreed first [] ss = fail no_shared_algorithms
agreed first (c ∷ cs) ss = with_found (found true c ss) c first (agreed false cs ss)

abbrev tail : List (List ℕ) → List (List ℕ)
tail [] = []
tail (p ∷ ps) = ps

pieces-eq-before : (xs : List ℕ) → pieces xs ≡ before comma xs ∷ tail (pieces xs)
pieces-eq-before [] = refl
pieces-eq-before (x ∷ xs) = elim (Bool-cases (x == comma)) [
  | inl hit ↦ rw hit refl
  | inr miss ↦ rw (miss, pieces-eq-before xs) refl
]

names-past : (xs : List ℕ) → until_empty (tail (pieces xs)) ≡ names (past comma xs)
names-past [] = refl
names-past (x ∷ xs) = elim (Bool-cases (x == comma)) [
  | inl hit ↦ rw hit refl
  | inr miss ↦ rw (miss, pieces-eq-before xs) (names-past xs)
]

-- One turn of a loop over a list of names.
abbrev pub turn : List ℕ → List (List ℕ) → List (List ℕ)
turn [] later = []
turn (x ∷ xs) later = (x ∷ xs) ∷ later

pub names-eq-turn : (xs : List ℕ) → names xs ≡ turn (before comma xs) (names (past comma xs))
names-eq-turn xs = ap until_empty (pieces-eq-before xs) ∙ by_head (before comma xs)
  where
    by_head : (b : List ℕ) → until_empty (b ∷ tail (pieces xs)) ≡ turn b (names (past comma xs))
    by_head [] = refl
    by_head (y ∷ ys) = ap (λ zs. (y ∷ ys) ∷ zs) (names-past xs)

pub length-past : (xs : List ℕ) → length (past comma xs) ≤ length xs
length-past [] = omega arith
length-past (x ∷ xs) = ground (arith, length-past xs)

-- A turn that finds a name has taken a byte.
pub past_shrinks :
    (xs : List ℕ) {y : ℕ} {ys : List ℕ}
    → before comma xs ≡ y ∷ ys
    → length (past comma xs) < length xs
past_shrinks [] e = cc
past_shrinks (x ∷ xs) e = ground (arith, length-past xs)

pub List-cases : (xs : List ℕ) → (xs ≡ []) ⊎ ((y : ℕ) × (ys : List ℕ) × (xs ≡ y ∷ ys))
List-cases [] = inl refl
List-cases (y ∷ ys) = inr (y, ys, refl)
