-- ===== src/Stream/Stores.antt =====
-- What stores through the pointer that ssh_buf_get_write_pointer gives do to the contents.
use eessh.Prelude.{
  ℕ, zero, suc, ◌+◌, ◌<◌, ◌≡◌, refl, sym, ◌∙◌, ap, subst, List, [], ◌∷◌, ◌++◌, take, blit, length,
  length-blit, take-blit, Result, ok, ◌>>=◌, ok_injective, failed_not_ok, inl, inr, arith,
  Bool-cases, ◌==◌,
}
use eessh.Buffer.{Buffer, Allocator, contents, get_write_pointer, size_mod, add_size}
use eessh.Buffer.Valid.{IsValid, Grown, grow_cases}
use eessh.Stream.{poke}

take-blit_comm :
    (m : ℕ) (ms : List ℕ) (p : ℕ) (xs : List ℕ) → take m (blit ms p xs) ≡ blit (take m ms) p xs
take-blit_comm zero ms p xs = refl
take-blit_comm (suc m) [] p xs = refl
take-blit_comm (suc m) (y ∷ ys) zero [] = refl
take-blit_comm (suc m) (y ∷ ys) zero (x ∷ xs) = ap (λ zs. x ∷ zs) (take-blit_comm m ys zero xs)
take-blit_comm (suc m) (y ∷ ys) (suc p) xs = ap (λ zs. y ∷ zs) (take-blit_comm m ys p xs)

pub blit-nil : (ms : List ℕ) → blit ms zero [] ≡ ms
blit-nil [] = refl
blit-nil (m ∷ ms) = refl

-- A store over the whole of what stands behind the first `length xs` elements
blit-end : (xs ys zs : List ℕ) → length ys ≡ length zs → blit (xs ++ ys) (length xs) zs ≡ xs ++ zs
blit-end [] [] [] e = refl
blit-end [] [] (z ∷ zs) e = absurd (omega arith)
blit-end [] (y ∷ ys) [] e = absurd (omega arith)
blit-end [] (y ∷ ys) (z ∷ zs) e = ap (λ ws. z ∷ ws) (blit-end [] ys zs (omega arith))
blit-end (x ∷ xs) ys zs e = ap (λ ws. x ∷ ws) (blit-end xs ys zs e)

-- Room for `n` bytes behind the contents, to be stored through the pointer
pub record Opened (n : ℕ) (b : Buffer) (p : ℕ) (b' : Buffer) : Type 0 where
  pub start : p ≡ b.len
  pub valid : IsValid b'
  pub len : b'.len ≡ b.len + n
  pub front : take b.len b'.mem ≡ contents b

module _ (a : Allocator) where
  pub get_write_pointer-Opened :
      (n : ℕ) (b : Buffer) {p : ℕ} {b' : Buffer}
      → IsValid b
      → n < size_mod
      → get_write_pointer a n b ≡ (ok p, b')
      → Opened n b p b'
  unfolding get_write_pointer ◌>>=◌
  get_write_pointer-Opened n b {p} {b'} v h e = elim (grow_cases a n b v h) [
    | inr (x, g) ↦ absurd (failed_not_ok (rw g at e))
    | inl (c, g, grown) ↦ elim (Bool-cases (c.cap == 0)) [
      | inl none ↦ absurd (failed_not_ok (rw (g, none) at e))
      | inr some ↦ opened c grown (rw (g, some) at e)
    ]
  ]
    where
      opened :
          (c : Buffer)
          → Grown n b c
          → ◌≡◌ {A = Result ℕ × Buffer} (ok (c.len), record c { len = add_size c.len n }) (ok p, b')
          → Opened n b p b'
      opened c grown q =
          let same_start = ok_injective (ap (λ (x : Result ℕ × Buffer). x.0) q) in
          subst (Opened n b p) (ap (λ (x : Result ℕ × Buffer). x.1) q) (record {
            start = sym same_start ∙ grown.same_len;
            valid = record {
              allocated = grown.valid.allocated;
              within = omega (arith, grown.room, grown.same_len, grown.valid.sized);
              sized = grown.valid.sized;
            };
            len = omega (arith, grown.room, grown.same_len, grown.valid.sized);
            front = grown.same;
          })

-- A store of `n` bytes through the pointer appends them.
pub poke-Opened :
    (n : ℕ) (b : Buffer) (p : ℕ) (b' : Buffer) (xs : List ℕ)
    → Opened n b p b'
    → length xs ≡ n
    → IsValid (poke p xs b') × (contents (poke p xs b') ≡ contents b ++ xs)
poke-Opened n b p b' xs o e = (
  record {
    allocated = length-blit b'.mem p xs ∙ o.valid.allocated;
    within = o.valid.within;
    sized = o.valid.sized;
  },
  take-blit b'.mem p b'.len xs (omega (arith, o.start, o.len))
        (omega (arith, o.valid.within, o.valid.allocated))
      ∙ ap (λ ys. ys ++ xs) (ap (λ q. take q b'.mem) o.start ∙ o.front),
)

-- A store inside the contents
pub poke-inside :
    (p : ℕ) (xs : List ℕ) (b : Buffer)
    → IsValid b
    → IsValid (poke p xs b) × (contents (poke p xs b) ≡ blit (contents b) p xs)
poke-inside p xs b v = (
  record { allocated = length-blit b.mem p xs ∙ v.allocated; within = v.within; sized = v.sized },
  take-blit_comm b.len b.mem p xs,
)
