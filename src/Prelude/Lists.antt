-- ===== src/Prelude/Lists.antt =====
-- Lists measured and indexed by the native numbers, under the library's names.
use Prim.Native.Nat.{ℕ, zero, suc, ◌+◌, ◌-◌, ◌≤◌, ◌<◌, min}
use Prim.Native.Nat.add
use mathlib.Core.Path.{◌≡◌, refl, ap, ◌∙◌}
use mathlib.Core.List.{List, [], ◌∷◌, ◌++◌}
use native.Mathlib.Omega.{arith}

module _ {ℓ} {A : Type ℓ} where
  abbrev pub length : List A → ℕ
  length [] = 0
  length (x ∷ xs) = suc (length xs)

  abbrev pub get_or : List A → ℕ → A → A
  get_or [] i d = d
  get_or (x ∷ xs) zero d = x
  get_or (x ∷ xs) (suc i) d = get_or xs i d

  abbrev pub take : ℕ → List A → List A
  take zero xs = []
  take (suc n) [] = []
  take (suc n) (x ∷ xs) = x ∷ take n xs

  abbrev pub drop : ℕ → List A → List A
  drop zero xs = xs
  drop (suc n) [] = []
  drop (suc n) (x ∷ xs) = drop n xs

  abbrev pub replicate : ℕ → A → List A
  replicate zero a = []
  replicate (suc n) a = a ∷ replicate n a

  -- `memcpy` into a region: the bytes from an index on are overwritten, up to the region's end.
  abbrev pub blit : List A → ℕ → List A → List A
  blit [] p xs = []
  blit (m ∷ ms) zero [] = m ∷ ms
  blit (m ∷ ms) zero (x ∷ xs) = x ∷ blit ms zero xs
  blit (m ∷ ms) (suc p) xs = m ∷ blit ms p xs

  abbrev pub All {κ} : (A → Type κ) → List A → Type κ
  All P [] = Unit {κ}
  All P (x ∷ xs) = P x × All P xs

module _ {ℓ} {A : Type ℓ} where
  pub length-append : (xs ys : List A) → length (xs ++ ys) ≡ length xs + length ys
  length-append [] ys = omega arith
  length-append (x ∷ xs) ys = omega (arith, length-append xs ys)

  pub length-take : (n : ℕ) (xs : List A) → length (take n xs) ≡ min n (length xs)
  length-take zero xs = omega arith
  length-take (suc n) [] = omega arith
  length-take (suc n) (x ∷ xs) = omega (arith, length-take n xs)

  pub length-drop : (n : ℕ) (xs : List A) → length (drop n xs) ≡ length xs - n
  length-drop zero xs = omega arith
  length-drop (suc n) [] = omega arith
  length-drop (suc n) (x ∷ xs) = omega (arith, length-drop n xs)

  pub length-replicate : (n : ℕ) (a : A) → length (replicate n a) ≡ n
  length-replicate zero a = refl
  length-replicate (suc n) a = ap suc (length-replicate n a)

  pub length-blit : (ms : List A) (p : ℕ) (xs : List A) → length (blit ms p xs) ≡ length ms
  length-blit [] p xs = refl
  length-blit (m ∷ ms) zero [] = refl
  length-blit (m ∷ ms) zero (x ∷ xs) = ap suc (length-blit ms zero xs)
  length-blit (m ∷ ms) (suc p) xs = ap suc (length-blit ms p xs)

  pub take-append-drop : (n : ℕ) (xs : List A) → take n xs ++ drop n xs ≡ xs
  take-append-drop zero xs = refl
  take-append-drop (suc n) [] = refl
  take-append-drop (suc n) (x ∷ xs) = ap (λ ys. x ∷ ys) (take-append-drop n xs)

  pub take_of_length-le : (n : ℕ) (xs : List A) → length xs ≤ n → take n xs ≡ xs
  take_of_length-le zero [] h = refl
  take_of_length-le zero (x ∷ xs) h = absurd (omega arith)
  take_of_length-le (suc n) [] h = refl
  take_of_length-le (suc n) (x ∷ xs) h = ap (λ ys. x ∷ ys) (take_of_length-le n xs (omega arith))

  pub drop_of_length-le : (n : ℕ) (xs : List A) → length xs ≤ n → drop n xs ≡ []
  drop_of_length-le zero [] h = refl
  drop_of_length-le zero (x ∷ xs) h = absurd (omega arith)
  drop_of_length-le (suc n) [] h = refl
  drop_of_length-le (suc n) (x ∷ xs) h = drop_of_length-le n xs (omega arith)

  pub take-append : (n : ℕ) (xs ys : List A) → n ≡ length xs → take n (xs ++ ys) ≡ xs
  take-append zero [] ys h = refl
  take-append (suc n) [] ys h = absurd (omega arith)
  take-append zero (x ∷ xs) ys h = absurd (omega arith)
  take-append (suc n) (x ∷ xs) ys h = ap (λ zs. x ∷ zs) (take-append n xs ys (omega arith))

  pub drop-append : (n : ℕ) (xs ys : List A) → n ≡ length xs → drop n (xs ++ ys) ≡ ys
  drop-append zero [] ys h = refl
  drop-append (suc n) [] ys h = absurd (omega arith)
  drop-append zero (x ∷ xs) ys h = absurd (omega arith)
  drop-append (suc n) (x ∷ xs) ys h = drop-append n xs ys (omega arith)

  pub take-append_le : (n : ℕ) (xs ys : List A) → n ≤ length xs → take n (xs ++ ys) ≡ take n xs
  take-append_le zero xs ys h = refl
  take-append_le (suc n) [] ys h = absurd (omega arith)
  take-append_le (suc n) (x ∷ xs) ys h = ap (λ zs. x ∷ zs) (take-append_le n xs ys (omega arith))

  pub drop-append_le :
      (n : ℕ) (xs ys : List A) → n ≤ length xs → drop n (xs ++ ys) ≡ drop n xs ++ ys
  drop-append_le zero xs ys h = refl
  drop-append_le (suc n) [] ys h = absurd (omega arith)
  drop-append_le (suc n) (x ∷ xs) ys h = drop-append_le n xs ys (omega arith)

  pub take-take : (m n : ℕ) (xs : List A) → m ≤ n → take m (take n xs) ≡ take m xs
  take-take zero n xs h = refl
  take-take (suc m) zero xs h = absurd (omega arith)
  take-take (suc m) (suc n) [] h = refl
  take-take (suc m) (suc n) (x ∷ xs) h = ap (λ zs. x ∷ zs) (take-take m n xs (omega arith))

  pub drop-drop : (m n : ℕ) (xs : List A) → drop m (drop n xs) ≡ drop (n + m) xs
  drop-drop m zero xs = rw add.zero
  drop-drop zero (suc n) [] = rw add.suc
  drop-drop (suc m) (suc n) [] = rw add.suc
  drop-drop m (suc n) (x ∷ xs) = rw add.suc (drop-drop m n xs)

  pub get_or-append :
      (xs : List A) (y : A) (ys : List A) (d : A) → get_or (xs ++ y ∷ ys) (length xs) d ≡ y
  get_or-append [] y ys d = refl
  get_or-append (x ∷ xs) y ys d = get_or-append xs y ys d

  -- Reading at an index is reading the head of what is left from there.
  pub drop-eq-cons :
      (n : ℕ) (xs : List A) (d : A) → n < length xs → drop n xs ≡ get_or xs n d ∷ drop (suc n) xs
  drop-eq-cons zero [] d h = absurd (omega arith)
  drop-eq-cons zero (x ∷ xs) d h = refl
  drop-eq-cons (suc n) [] d h = absurd (omega arith)
  drop-eq-cons (suc n) (x ∷ xs) d h = drop-eq-cons n xs d (omega arith)

  pub take-blit_front :
      (ms xs : List A) → length xs ≤ length ms → take (length xs) (blit ms zero xs) ≡ xs
  take-blit_front [] [] h = refl
  take-blit_front [] (x ∷ xs) h = absurd (omega arith)
  take-blit_front (m ∷ ms) [] h = refl
  take-blit_front (m ∷ ms) (x ∷ xs) h = ap (λ zs. x ∷ zs) (take-blit_front ms xs (omega arith))

  -- What a write leaves in front of its end.
  pub take-blit :
      (ms : List A) (p n : ℕ) (xs : List A)
      → p + length xs ≡ n
      → n ≤ length ms
      → take n (blit ms p xs) ≡ take p ms ++ xs
  take-blit [] zero n [] e h = ap (λ k. take k []) {x = n} {y = zero} (omega arith)
  take-blit [] zero n (x ∷ xs) e h = absurd (omega arith)
  take-blit [] (suc p) n xs e h = absurd (omega arith)
  take-blit (m ∷ ms) zero n xs e h =
      ap (λ k. take k (blit (m ∷ ms) zero xs)) {x = n} {y = length xs} (omega arith)
      ∙ take-blit_front (m ∷ ms) xs (omega arith)
  take-blit (m ∷ ms) (suc p) zero xs e h = absurd (omega arith)
  take-blit (m ∷ ms) (suc p) (suc n) xs e h =
      ap (λ zs. m ∷ zs) (take-blit ms p n xs (omega arith) (omega arith))

  -- A write at an index leaves what stands in front of it.
  pub take-blit_le :
      (n : ℕ) (ms : List A) (p : ℕ) (xs : List A) → n ≤ p → take n (blit ms p xs) ≡ take n ms
  take-blit_le zero ms p xs h = refl
  take-blit_le (suc n) [] p xs h = refl
  take-blit_le (suc n) (m ∷ ms) zero xs h = absurd (omega arith)
  take-blit_le (suc n) (m ∷ ms) (suc p) xs h =
      ap (λ zs. m ∷ zs) (take-blit_le n ms p xs (omega arith))

  -- Two writes that touch are one write.
  pub blit-append :
      (ms : List A) (p n : ℕ) (xs ys : List A)
      → p + length xs ≡ n
      → blit (blit ms p xs) n ys ≡ blit ms p (xs ++ ys)
  blit-append [] p n xs ys e = refl
  blit-append (m ∷ ms) zero zero [] ys e = refl
  blit-append (m ∷ ms) zero (suc n) [] ys e = absurd (omega arith)
  blit-append (m ∷ ms) zero zero (x ∷ xs) ys e = absurd (omega arith)
  blit-append (m ∷ ms) zero (suc n) (x ∷ xs) ys e =
      ap (λ zs. x ∷ zs) (blit-append ms zero n xs ys (omega arith))
  blit-append (m ∷ ms) (suc p) zero xs ys e = absurd (omega arith)
  blit-append (m ∷ ms) (suc p) (suc n) xs ys e =
      ap (λ zs. m ∷ zs) (blit-append ms p n xs ys (omega arith))

  -- A prefix, and what is left, that reach `k` elements into the second list.
  pub take-append_ge :
      (n k : ℕ) (xs ys : List A) → n ≡ length xs + k → take n (xs ++ ys) ≡ xs ++ take k ys
  take-append_ge n k [] ys h = ap (λ m. take m ys) (omega arith)
  take-append_ge zero k (x ∷ xs) ys h = absurd (omega arith)
  take-append_ge (suc n) k (x ∷ xs) ys h =
      ap (λ zs. x ∷ zs) (take-append_ge n k xs ys (omega arith))

  pub drop-append_ge :
      (n k : ℕ) (xs ys : List A) → n ≡ length xs + k → drop n (xs ++ ys) ≡ drop k ys
  drop-append_ge n k [] ys h = ap (λ m. drop m ys) (omega arith)
  drop-append_ge zero k (x ∷ xs) ys h = absurd (omega arith)
  drop-append_ge (suc n) k (x ∷ xs) ys h = drop-append_ge n k xs ys (omega arith)
