-- ===== src/Mac/Xor.antt =====
-- Two exclusive ors with a common pad.
use eessh.Prelude.{ℕ, zero, suc, ◌+◌, ◌*◌, ◌/◌, ◌%◌, ◌≡◌, refl, ap₂, List, [], ◌∷◌, arith}
use eessh.Mac.{xor, xor_all}

low_bit : (a b R : ℕ) → ((a % 2 + b % 2) % 2 + 2 * R) % 2 ≡ (a % 2 + b % 2) % 2
low_bit a b R = omega arith

high_bits : (a b R : ℕ) → ((a % 2 + b % 2) % 2 + 2 * R) / 2 ≡ R
high_bits a b R = omega arith

sum_lem : (a b c : ℕ) → ((a % 2 + b % 2) % 2 + (b % 2 + c % 2) % 2) % 2 ≡ (a % 2 + c % 2) % 2
sum_lem a b c = omega arith

pub xor-xor : (n a b c : ℕ) → xor n (xor n a b) (xor n b c) ≡ xor n a c
xor-xor zero a b c = refl
xor-xor (suc n) a b c =
    rw
      (
        low_bit a b (xor n (a / 2) (b / 2)),
        low_bit b c (xor n (b / 2) (c / 2)),
        high_bits a b (xor n (a / 2) (b / 2)),
        high_bits b c (xor n (b / 2) (c / 2)),
        sum_lem a b c,
        xor-xor n (a / 2) (b / 2) (c / 2),
      )
      refl

pub xor_all-xor_all : (b c : ℕ) (xs : List ℕ) → xor_all (xor 8 b c) (xor_all b xs) ≡ xor_all c xs
xor_all-xor_all b c [] = refl
xor_all-xor_all b c (x ∷ xs) = ap₂ (λ y ys. y ∷ ys) (xor-xor 8 x b c) (xor_all-xor_all b c xs)
