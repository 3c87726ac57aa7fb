-- ===== src/Buffer/Strings.antt =====
-- common/buffer.c: the strings (`struct SSH_STRING`), as the bytes that they point to. memcmp is a
-- parameter: its result is taken by its sign, which is all that is used of it.
use eessh.Prelude.{
  ℕ, suc, zero, ◌≡◌, refl, sym, ◌∙◌, ap, subst, List, [], ◌∷◌, length, take, ltb, if◌then◌else◌,
  Result, ok, fail, out_of_memory, ok_injective, Bool-cases, inl, inr, arith,
}
use eessh.Buffer.{Allocator}

-- ssh_str_alloc: the length of the new string, if there is memory
unfoldable pub str_alloc : Allocator → ℕ → Result ℕ
str_alloc a len = if a.grants len then ok len else fail out_of_memory

-- ssh_str_dup_string
unfoldable pub dup_string : Allocator → List ℕ → Result (List ℕ)
dup_string a str = elim (str_alloc a (length str)) [ fail e ↦ fail e | ok len ↦ ok str ]

-- A copy has the same bytes.
pub dup_string-same : (a : Allocator) (str copy : List ℕ) → dup_string a str ≡ ok copy → str ≡ copy
unfolding dup_string str_alloc
dup_string-same a str copy h = elim (Bool-cases (a.grants (length str))) [
  | inl granted ↦ ok_injective (rw (granted, dup_string, str_alloc) at h)
  | inr refused ↦ cc (rw (refused, dup_string, str_alloc) at h)
]

-- What it is to copy the result of a computation
abbrev pub dup_result : Allocator → Result (List ℕ) → Result (List ℕ)
dup_result a (ok bytes) = dup_string a bytes
dup_result a (fail e) = fail e

pub dup_result-same :
    (a : Allocator) (r : Result (List ℕ)) (copy : List ℕ) → dup_result a r ≡ ok copy → r ≡ ok copy
dup_result-same a (ok bytes) copy h = ap ok (dup_string-same a bytes copy h)
dup_result-same a (fail e) copy h = cc h

take_all : (n : ℕ) (xs : List ℕ) → n ≡ length xs → take n xs ≡ xs
take_all zero [] h = refl
take_all zero (x ∷ xs) h = absurd (omega arith)
take_all (suc n) [] h = absurd (omega arith)
take_all (suc n) (x ∷ xs) h = ap (λ ys. x ∷ ys) (take_all n xs (omega arith))

-- The sign of an `int`
pub data Sign : Type 0 where
  negative : Sign
  equal : Sign
  positive : Sign

-- What memcmp promises on as many bytes of both
pub record IsMemcmp (memcmp : List ℕ → List ℕ → Sign) : Type 0 where
  pub same : (xs ys : List ℕ) → length xs ≡ length ys → memcmp xs ys ≡ equal → xs ≡ ys
  pub self : (xs : List ℕ) → memcmp xs xs ≡ equal

module _ (memcmp : List ℕ → List ℕ → Sign) where
  abbrev pub by_length : ℕ → ℕ → Sign
  by_length n m = if ltb n m then negative else if ltb m n then positive else equal

  abbrev pub by_sign : Sign → Sign → Sign
  by_sign negative later = negative
  by_sign equal later = later
  by_sign positive later = positive

  -- ssh_str_cmp_data, and on the bytes of another string ssh_str_cmp_string
  unfoldable pub cmp_data : List ℕ → List ℕ → Sign
  cmp_data str data_bytes =
      let cmp_len =
        if ltb (length str) (length data_bytes) then length str else length data_bytes in
      by_sign (memcmp (take cmp_len str) (take cmp_len data_bytes))
        (by_length (length str) (length data_bytes))

  by_sign-equal : (s later : Sign) → by_sign s later ≡ equal → (s ≡ equal) × (later ≡ equal)
  by_sign-equal negative later h = absurd (cc h)
  by_sign-equal equal later h = (refl, h)
  by_sign-equal positive later h = absurd (cc h)

  by_length-equal : (n m : ℕ) → by_length n m ≡ equal → n ≡ m
  by_length-equal n m h = ground arith

  by_length_self : (n : ℕ) → by_length n n ≡ equal
  by_length_self n = ground arith

  self : IsMemcmp memcmp → (xs : List ℕ) → cmp_data xs xs ≡ equal
  unfolding cmp_data
  self law xs =
      let n = if ltb (length xs) (length xs) then length xs else length xs in
      ap (λ s. by_sign s (by_length (length xs) (length xs))) (law.self (take n xs))
      ∙ by_length_self (length xs)

  -- Two strings compare as equal just when they are the same.
  pub cmp_data-equal :
      IsMemcmp memcmp
      → (xs ys : List ℕ) → (cmp_data xs ys ≡ equal → xs ≡ ys) × (xs ≡ ys → cmp_data xs ys ≡ equal)
  unfolding cmp_data
  cmp_data-equal law xs ys = (
    λ h.
        let n = if ltb (length xs) (length ys) then length xs else length ys in
        let (same, later) =
          by_sign-equal (memcmp (take n xs) (take n ys)) (by_length (length xs) (length ys)) h in
        let e = by_length-equal (length xs) (length ys) later in
        let left : n ≡ length xs = ground arith in
        let front = take_all n xs left in
        let front' = take_all n ys (left ∙ e) in
        sym front
        ∙ law.same (take n xs) (take n ys) (ap length front ∙ e ∙ ap length (sym front')) same
        ∙ front',
    λ e. subst (λ zs. cmp_data xs zs ≡ equal) e (self law xs),
  )
