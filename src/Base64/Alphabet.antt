-- ===== src/Base64/Alphabet.antt =====
-- The letters of Base64.
use eessh.Prelude.{
  ℕ, ◌+◌, ◌*◌, ◌/◌, ◌%◌, ◌<◌, ◌≡◌, refl, List, [], ◌∷◌, Bool, true, ◌&&◌, ◌||◌, leb, ◌==◌, All,
  arith,
}
use eessh.Base64.{char, equals, encode}
use eessh.Base64.Decode.{IsByte, passes, passes-test}

-- A letter, a digit, a plus sign, a slash or the padding
abbrev pub is_letter : ℕ → Bool
is_letter c =
    leb b'A' c && leb c b'Z'
    || leb b'a' c && leb c b'z'
    || leb b'0' c && leb c b'9'
    || c == b'+'
    || c == b'/'
    || c == equals

abbrev pub IsLetter : ℕ → Type 0
IsLetter c = is_letter c ≡ true

table : passes (λ i. is_letter (char i)) 64 ≡ true
unfolding passes
table = refl

letter : (i : ℕ) → i < 64 → IsLetter (char i)
letter i h = passes-test (λ i. is_letter (char i)) 64 i table h

-- What ssh_base64_encode writes for bytes is made of the letters of Base64 only.
pub encode-IsLetter : (xs : List ℕ) → All IsByte xs → All IsLetter (encode xs)
unfolding encode
encode-IsLetter [] h = tt
encode-IsLetter (x ∷ []) h = (
  letter (x / 4) (omega arith),
  (letter (x * 16 % 64 + 0 / 16) (omega arith), (refl, (refl, tt))),
)
encode-IsLetter (x ∷ y ∷ []) h = (
  letter (x / 4) (omega arith),
  (
    letter (x * 16 % 64 + y / 16) (omega arith),
    (letter (y * 4 % 64 + 0 / 64) (omega arith), (refl, tt)),
  ),
)
encode-IsLetter (x ∷ y ∷ z ∷ rest) h = (
  letter (x / 4) (omega arith),
  (
    letter (x * 16 % 64 + y / 16) (omega arith),
    (
      letter (y * 4 % 64 + z / 64) (omega arith),
      (letter (z % 64) (omega arith), encode-IsLetter rest h.1.1.1),
    ),
  ),
)
