-- ===== src/Base64/Decode.antt =====
-- Base64 read back, after RFC 4648, section 4: a description of the code that does not look at the
-- encoder's table.
use eessh.Prelude.{
  Bool-cases, inl, inr, ==-false→ne, ℕ, zero, suc, ◌+◌, ◌-◌, ◌*◌, ◌/◌, ◌%◌, ◌<◌, ◌≡◌, ◌≢◌, refl,
  sym, ap, ◌∙◌, List, [], ◌∷◌, ◌++◌, Bool, true, false, not, ◌&&◌, leb, ◌==◌, if◌then◌else◌, All,
  arith, ==→eq,
}
use eessh.Base64.{char, equals, encode}

-- The six bits that a letter stands for
abbrev value : ℕ → ℕ
value c =
    if leb b'a' c
    then c - b'a' + 26
    else if leb b'A' c
    then c - b'A'
    else if leb b'0' c
    then c - b'0' + 52
    else if c == b'+'
    then 62
    else 63

-- The bytes of a group of four letters, of which the last ones may be padding
abbrev group : ℕ → ℕ → ℕ → ℕ → List ℕ
group u v c d =
    if d == equals
    then (if c == equals
        then (u * 4 + v / 16) ∷ []
        else (u * 4 + v / 16) ∷ (v % 16 * 16 + value c / 4) ∷ [])
    else (u * 4 + v / 16) ∷ (v % 16 * 16 + value c / 4) ∷ (value c % 4 * 64 + value d) ∷ []

unfoldable pub decode : List ℕ → List ℕ
decode (b ∷ c ∷ d ∷ e ∷ rest) = group (value b) (value c) d e ++ decode rest
decode _ = []

abbrev pub IsByte : ℕ → Type 0
IsByte x = x < 256

-- A test that all six-bit groups below a bound pass
unfoldable pub passes : (ℕ → Bool) → ℕ → Bool
passes test zero = true
passes test (suc top) = passes test top && test top

both_true : (b c : Bool) → b && c ≡ true → (b ≡ true) × (c ≡ true)
both_true true c e = (refl, e)
both_true false c e = cc

pub passes-test :
    (test : ℕ → Bool) (bound six : ℕ) → passes test bound ≡ true → six < bound → test six ≡ true
unfolding passes
passes-test test zero six e l = absurd (omega arith)
passes-test test (suc top) six e l =
    let (lower, last) = both_true (passes test top) (test top) e in
    elim (Bool-cases (six == top)) [
      | inl at_top ↦ ap test (==→eq six top at_top) ∙ last
      | inr below ↦ passes-test test top six lower (omega (arith, ==-false→ne six top below))
    ]

values_table : passes (λ i. value (char i) == i) 64 ≡ true
unfolding passes
values_table = refl

letters_table : passes (λ i. not (char i == equals)) 64 ≡ true
unfolding passes
letters_table = refl

value-char : (i : ℕ) → i < 64 → value (char i) ≡ i
value-char i h = ==→eq _ i (passes-test (λ i. value (char i) == i) 64 i values_table h)

char-ne-equals : (i : ℕ) → i < 64 → (char i == equals) ≡ false
char-ne-equals i h =
    flip (char i == equals) (passes-test (λ i. not (char i == equals)) 64 i letters_table h)
  where
    flip : (b : Bool) → not b ≡ true → b ≡ false
    flip true e = sym e
    flip false e = refl

-- The letters of a group give back the bytes that they were made of.
one : (x : ℕ) → IsByte x → decode (encode (x ∷ [])) ≡ x ∷ []
unfolding decode encode
one x h =
    rw (value-char (x / 4) (omega arith), value-char (x * 16 % 64 + 0 / 16) (omega arith))
      (ap (λ n. n ∷ []) {x = x / 4 * 4 + (x * 16 % 64 + 0 / 16) / 16} {y = x} (omega arith))

two : (x y : ℕ) → IsByte x → IsByte y → decode (encode (x ∷ y ∷ [])) ≡ x ∷ y ∷ []
unfolding decode encode
two x y h g =
    rw
      (
        value-char (x / 4) (omega arith),
        value-char (x * 16 % 64 + y / 16) (omega arith),
        char-ne-equals (y * 4 % 64 + 0 / 64) (omega arith),
        value-char (y * 4 % 64 + 0 / 64) (omega arith),
      )
      (λ i. first i ∷ second i ∷ [])
  where
    first : x / 4 * 4 + (x * 16 % 64 + y / 16) / 16 ≡ x
    first = omega arith

    second : (x * 16 % 64 + y / 16) % 16 * 16 + (y * 4 % 64 + 0 / 64) / 4 ≡ y
    second = omega arith

three :
    (x y z : ℕ) (rest : List ℕ)
    → IsByte x
    → IsByte y
    → IsByte z
    → decode (encode (x ∷ y ∷ z ∷ rest)) ≡ x ∷ y ∷ z ∷ decode (encode rest)
unfolding decode encode
three x y z rest h g k =
    rw
      (
        value-char (x / 4) (omega arith),
        value-char (x * 16 % 64 + y / 16) (omega arith),
        char-ne-equals (z % 64) (omega arith),
        value-char (y * 4 % 64 + z / 64) (omega arith),
        value-char (z % 64) (omega arith),
      )
      (λ i. first i ∷ second i ∷ third i ∷ decode (encode rest))
  where
    first : x / 4 * 4 + (x * 16 % 64 + y / 16) / 16 ≡ x
    first = omega arith

    second : (x * 16 % 64 + y / 16) % 16 * 16 + (y * 4 % 64 + z / 64) / 4 ≡ y
    second = omega arith

    third : (y * 4 % 64 + z / 64) % 4 * 64 + z % 64 ≡ z
    third = omega arith

-- What ssh_base64_encode writes for bytes is read back as these bytes.
pub decode-encode : (xs : List ℕ) → All IsByte xs → decode (encode xs) ≡ xs
unfolding decode encode
decode-encode [] h = refl
decode-encode (x ∷ []) h = one x h.0
decode-encode (x ∷ y ∷ []) h = two x y h.0 h.1.0
decode-encode (x ∷ y ∷ z ∷ rest) h =
    three x y z rest h.0 h.1.0 h.1.1.0 ∙ ap (λ ys. x ∷ y ∷ z ∷ ys) (decode-encode rest h.1.1.1)

-- Different bytes have different texts.
pub encode-ne : (xs ys : List ℕ) → All IsByte xs → All IsByte ys → xs ≢ ys → encode xs ≢ encode ys
encode-ne xs ys h g n e = n (sym (decode-encode xs h) ∙ ap decode e ∙ decode-encode ys g)
