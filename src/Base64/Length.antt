-- ===== src/Base64/Length.antt =====
-- How much the encoder writes, and into how much memory.
use eessh.Prelude.{ℕ, ◌+◌, ◌*◌, ◌/◌, ◌%◌, ◌≡◌, List, [], ◌∷◌, length, leb, ◌==◌, arith}
use eessh.Base64.{encode, allocated}

pub length-encode : (xs : List ℕ) → length (encode xs) ≡ (length xs + 2) / 3 * 4
unfolding encode
length-encode [] = omega arith
length-encode (x ∷ []) = omega arith
length-encode (x ∷ y ∷ []) = omega arith
length-encode (x ∷ y ∷ z ∷ rest) = omega (arith, length-encode rest)

-- The text and its terminator fit the allocation exactly when the length of the data is a multiple
-- of three; otherwise ssh_base64_encode writes past it.
pub encode-allocated :
    (xs : List ℕ) → leb (length (encode xs) + 1) (allocated (length xs)) ≡ (length xs % 3 == 0)
unfolding allocated
encode-allocated xs = ground (arith, length-encode xs)
