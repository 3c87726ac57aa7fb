-- ===== src/Reader/Rest.antt =====
-- A reader seen as the list of bytes that it has left: each call takes bytes off the front, or
-- fails because there are too few.
use eessh.Prelude.{
  ℕ, zero, suc, ◌+◌, ◌-◌, ◌/◌, ◌%◌, ◌^◌, ◌≤◌, ◌<◌, ◌≡◌, refl, sym, ◌∙◌, ap, List, ◌∷◌, [], ◌++◌,
  arith, length, take, drop, get_or, length-drop, length-take, drop-drop, take-take, All, ok, fail,
  past_end, lt→ltb, le→ltb-false,
}
use Prim.Native.Nat.add
use eessh.Buffer.{size_mod, add_size}
use eessh.Buffer.Valid.{checked_add_ok}
use eessh.Buffer.Writes.{u32_bytes}
use eessh.Reader.{
  Reader, advance, check, check_advance, read_skip, read_u8, read_u32, read_string, u32_of, get_u32,
}

pub record IsValid (r : Reader) : Type 0 where
  pub in_bytes : r.len ≤ length r.bytes
  pub in_len : r.pos ≤ r.len
  pub sized : r.len < size_mod

abbrev pub rest : Reader → List ℕ
rest r = drop r.pos (take r.len r.bytes)

pub length-rest : {r : Reader} → IsValid r → length (rest r) ≡ r.len - r.pos
length-rest {r} v = omega (arith, length-drop r.pos (take r.len r.bytes), length-take r.len r.bytes)

-- The numbers in a list are bytes.
abbrev pub IsBytes : List ℕ → Type 0
IsBytes xs = All (λ x. x < 256) xs

pub advance-IsValid : {r : Reader} (n : ℕ) → IsValid r → n ≤ length (rest r) → IsValid (advance n r)
advance-IsValid {r} n v h = record {
  in_bytes = v.in_bytes;
  in_len = omega (arith, length-rest v);
  sized = v.sized;
}

pub rest-advance :
    {r : Reader} (n : ℕ) → IsValid r → n ≤ length (rest r) → rest (advance n r) ≡ drop n (rest r)
rest-advance {r} n v h =
    ap (λ k. drop k (take r.len r.bytes)) {x = add_size r.pos n} {y = r.pos + n}
      (omega (arith, length-rest v))
    ∙ sym (drop-drop n r.pos (take r.len r.bytes))

-- A read of `n` bytes is in bounds exactly when that many are left.
pub check_ok : {r : Reader} (n : ℕ) → IsValid r → n ≤ length (rest r) → check n r ≡ (ok tt, r)
unfolding check check_advance
check_ok {r} n v h = rw (
  checked_add_ok r.pos n (omega (arith, length-rest v)),
  check_advance,
  le→ltb-false r.len (r.pos + n) (omega (arith, length-rest v)),
)

pub check_past :
    {r : Reader} (n : ℕ)
    → IsValid r
    → r.pos + n < size_mod
    → length (rest r) < n
    → check n r ≡ (fail past_end, r)
unfolding check check_advance
check_past {r} n v s h = rw (
  checked_add_ok r.pos n s,
  check_advance,
  lt→ltb r.len (r.pos + n) (omega (arith, length-rest v)),
)

pub read_skip_ok :
    {r : Reader} (n : ℕ) → IsValid r → n ≤ length (rest r) → read_skip n r ≡ (ok tt, advance n r)
unfolding read_skip
read_skip_ok n v h = rw (check_ok n v h)

get_or-take : (n i : ℕ) (xs : List ℕ) → i < n → get_or (take n xs) i 0 ≡ get_or xs i 0
get_or-take zero i xs h = absurd (omega arith)
get_or-take (suc n) i [] h = refl
get_or-take (suc n) zero (x ∷ xs) h = refl
get_or-take (suc n) (suc i) (x ∷ xs) h = get_or-take n i xs (omega arith)

get_or-drop : (i n : ℕ) (xs : List ℕ) → get_or (drop n xs) i 0 ≡ get_or xs (n + i) 0
get_or-drop i zero xs = ap (λ k. get_or xs k 0) {x = i} {y = zero + i} (omega arith)
get_or-drop i (suc n) [] = refl
get_or-drop i (suc n) (x ∷ xs) = rw add.suc (get_or-drop i n xs)

-- A slice inside the first `l` elements does not see where they end.
pub take-drop-take :
    (n p l : ℕ) (xs : List ℕ) → p + n ≤ l → take n (drop p (take l xs)) ≡ take n (drop p xs)
take-drop-take n zero l xs h = take-take n l xs (omega arith)
take-drop-take n (suc p) zero xs h = absurd (omega arith)
take-drop-take n (suc p) (suc l) [] h = refl
take-drop-take n (suc p) (suc l) (x ∷ xs) h = take-drop-take n p l xs (omega arith)

-- The byte at an offset from the cursor.
pub get_or-rest :
    {r : Reader} (i : ℕ)
    → IsValid r
    → i < length (rest r)
    → get_or r.bytes (r.pos + i) 0 ≡ get_or (rest r) i 0
get_or-rest {r} i v h = sym (
    get_or-drop i r.pos (take r.len r.bytes)
    ∙ get_or-take r.len (r.pos + i) r.bytes (omega (arith, length-rest v)))

-- ssh_buf_read_u8 takes the first byte.
pub read_u8_cons :
    {r : Reader} (x : ℕ) (xs : List ℕ)
    → IsValid r
    → rest r ≡ x ∷ xs
    → read_u8 r ≡ (ok x, advance 1 r)
unfolding read_u8
read_u8_cons {r} x xs v e =
    rw (check_ok 1 v (omega (arith, ap length e))) (ap (λ y. (ok y, advance 1 r)) val)
  where
    val : get_or r.bytes r.pos 0 ≡ x
    val =
        ap (λ k. get_or r.bytes k 0) {x = r.pos} {y = r.pos + 0} (omega arith)
        ∙ get_or-rest 0 v (omega (arith, ap length e))
        ∙ ap (λ ys. get_or ys 0 0) e

-- ssh_buf_read_u32 takes four bytes, the high one first.
pub read_u32_cons :
    {r : Reader} (w x y z : ℕ) (xs : List ℕ)
    → IsValid r
    → rest r ≡ w ∷ x ∷ y ∷ z ∷ xs
    → read_u32 r ≡ (ok (u32_of w x y z), advance 4 r)
unfolding read_u32 get_u32
read_u32_cons {r} w x y z xs v e =
    rw (check_ok 4 v (omega (arith, ap length e))) (ap (λ n. (ok n, advance 4 r)) val)
  where
    at : (i : ℕ) → i < 4 → get_or r.bytes (r.pos + i) 0 ≡ get_or (w ∷ x ∷ y ∷ z ∷ xs) i 0
    at i h = get_or-rest i v (omega (arith, ap length e)) ∙ ap (λ ys. get_or ys i 0) e

    val : get_u32 r.bytes r.pos ≡ u32_of w x y z
    val = omega (
      arith,
      at 0 (omega arith),
      at 1 (omega arith),
      at 2 (omega arith),
      at 3 (omega arith),
      ap (λ k. get_or r.bytes k 0) {x = r.pos} {y = r.pos + 0} (omega arith),
    )

-- The four bytes of a 32-bit number make that number.
pub u32_of-u32_bytes :
    (n : ℕ)
    → n < 2 ^ 32
    → u32_of (n / 2 ^ 24 % 256) (n / 2 ^ 16 % 256) (n / 2 ^ 8 % 256) (n % 256) ≡ n
u32_of-u32_bytes n h = omega arith

-- ssh_buf_read_string takes a length and that many bytes.
pub read_string_cons :
    {r : Reader} (n : ℕ) (ys : List ℕ)
    → IsValid r
    → n < 2 ^ 32
    → n ≤ length ys
    → rest r ≡ u32_bytes n ++ ys
    → read_string r ≡ (ok (take n ys), advance n (advance 4 r))
unfolding read_string
read_string_cons {r} n ys v hn h e =
    rw (read_u32_cons _ _ _ _ ys v e, u32_of-u32_bytes n hn, check_ok n v' more)
      (ap (λ zs. (ok zs, advance n (advance 4 r))) slice)
  where
    v' : IsValid (advance 4 r)
    v' = advance-IsValid 4 v (omega (arith, ap length e))

    after : rest (advance 4 r) ≡ ys
    after = rest-advance 4 v (omega (arith, ap length e)) ∙ ap (drop 4) e

    more : n ≤ length (rest (advance 4 r))
    more = omega (arith, ap length after)

    slice : take n (drop (advance 4 r).pos r.bytes) ≡ take n ys
    slice =
        sym (
          take-drop-take n (advance 4 r).pos r.len r.bytes
            (omega (arith, length-rest v', more, v'.in_len)))
        ∙ ap (take n) after
