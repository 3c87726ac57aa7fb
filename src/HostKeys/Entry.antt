-- ===== src/HostKeys/Entry.antt =====
-- The Base64 text of a key is a word of a line.
use eessh.Prelude.{ℕ, ◌<◌, ◌≡◌, ◌≢◌, List, [], ◌∷◌, false, length, All, arith}
use eessh.Base64.{encode}
use eessh.Base64.Decode.{IsByte}
use eessh.Base64.Length.{length-encode}
use eessh.Base64.Alphabet.{IsLetter, encode-IsLetter}
use eessh.HostKeys.{is_blank}
use eessh.HostKeys.Tokens.{IsWord}

letter-plain : (c : ℕ) → IsLetter c → (is_blank c ≡ false) × (c ≢ 0)
letter-plain c h = ground arith

All-plain : (xs : List ℕ) → All IsLetter xs → All (λ y. (is_blank y ≡ false) × (y ≢ 0)) xs
All-plain [] h = tt
All-plain (x ∷ xs) h = (letter-plain x h.0, All-plain xs h.1)

IsWord_of : (xs : List ℕ) → 0 < length xs → All (λ y. (is_blank y ≡ false) × (y ≢ 0)) xs → IsWord xs
IsWord_of [] n h = absurd (omega arith)
IsWord_of (x ∷ xs) n h = (h.0.0, h.0.1, h.1)

pub encode-IsWord : (xs : List ℕ) → All IsByte xs → 0 < length xs → IsWord (encode xs)
encode-IsWord xs h n =
    IsWord_of (encode xs) (omega (arith, length-encode xs))
      (All-plain (encode xs) (encode-IsLetter xs h))
