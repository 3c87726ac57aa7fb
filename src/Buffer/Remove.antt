-- ===== src/Buffer/Remove.antt =====
-- ssh_buf_remove_data cuts a range out of the contents.
use eessh.Prelude.{
  ℕ, zero, suc, ◌+◌, ◌-◌, ◌≤◌, ◌<◌, ◌≡◌, refl, sym, ◌∙◌, ap, ap₂, inl, inr, List, ◌∷◌, [], ◌++◌,
  arith, append-nil, length, take, drop, length-blit, length-take, length-drop, take-blit,
  take-take, drop_of_length-le, ok, fail, bad_remove, ltb, Bool-cases, lt→ltb, le→ltb-false, ltb→lt,
  ltb-false→le,
}
use eessh.Buffer.{Buffer, size_mod, sub_size, contents, move_down, remove_data}
use eessh.Buffer.Valid.{IsValid, checked_add_ok, checked_add_fail}

pub drop-take :
    (k n : ℕ) {l : ℕ} (xs : List ℕ) → k + n ≡ l → drop k (take l xs) ≡ take n (drop k xs)
drop-take zero n xs e = ap (λ m. take m xs) (omega arith)
drop-take (suc k) n {l = zero} xs e = absurd (omega arith)
drop-take (suc k) zero {l = suc l} [] e = refl
drop-take (suc k) (suc n) {l = suc l} [] e = refl
drop-take (suc k) n {l = suc l} (x ∷ xs) e = drop-take k n xs (omega arith)

module _ (offset n : ℕ) {b : Buffer} (v : IsValid b) where
  -- The buffer after the move: the bytes behind the range follow those in front of it.
  abbrev cut : Buffer
  cut = record b {
    mem = move_down b.mem offset (offset + n) (b.len - (offset + n));
    len = sub_size b.len n;
  }

  contents-cut :
      offset + n < b.len → contents cut ≡ take offset (contents b) ++ drop (offset + n) (contents b)
  unfolding move_down
  contents-cut h =
      take-blit b.mem offset (sub_size b.len n) tail fits (omega arith)
      ∙ ap₂ ◌++◌ (sym (take-take offset b.len b.mem (omega arith)))
          (sym (drop-take (offset + n) (b.len - (offset + n)) b.mem (omega arith)))
    where
      tail : List ℕ
      tail = take (b.len - (offset + n)) (drop (offset + n) b.mem)

      fits : offset + length tail ≡ sub_size b.len n
      fits = omega (
        arith,
        v.sized,
        v.within,
        v.allocated,
        length-take (b.len - (offset + n)) (drop (offset + n) b.mem),
        length-drop (offset + n) b.mem,
      )

  cut-IsValid : offset + n < b.len → IsValid cut
  unfolding move_down
  cut-IsValid h = record {
    allocated = length-blit b.mem offset _ ∙ v.allocated;
    within = omega (arith, v.sized, v.within);
    sized = v.sized;
  }

  -- A range that ends where the contents end is dropped by the length alone.
  abbrev shortened : Buffer
  shortened = record b { len = sub_size b.len n }

  shortened-IsValid : offset + n ≡ b.len → IsValid shortened
  shortened-IsValid e = record {
    allocated = v.allocated;
    within = omega (arith, v.sized, v.within);
    sized = v.sized;
  }

  contents-shortened :
      offset + n ≡ b.len
      → contents shortened ≡ take offset (contents b) ++ drop (offset + n) (contents b)
  contents-shortened e =
      ap (λ k. take k b.mem) {x = sub_size b.len n} {y = offset} (omega (arith, v.sized, v.within))
      ∙ sym (take-take offset b.len b.mem (omega arith))
      ∙ sym (append-nil (take offset (contents b)))
      ∙ ap (λ ys. take offset (contents b) ++ ys)
          (sym
            (drop_of_length-le (offset + n) (contents b) (omega (arith, length-take b.len b.mem))))

  -- ssh_buf_remove_data of a range inside the contents succeeds and cuts exactly that range out.
  pub remove_data_ok :
      offset + n ≤ b.len
      → ((remove_data offset n b).0 ≡ ok tt)
        × IsValid (remove_data offset n b).1
        × (contents (remove_data offset n b).1
            ≡ take offset (contents b) ++ drop (offset + n) (contents b))
  unfolding remove_data
  remove_data_ok h =
      rw
        (
          checked_add_ok offset n (omega (arith, v.sized, v.within)),
          remove_data,
          le→ltb-false b.len (offset + n) h,
        )
        (elim (Bool-cases (ltb (offset + n) b.len)) [
          | inl more ↦ rw more (refl, cut-IsValid (ltb→lt _ _ more), contents-cut (ltb→lt _ _ more))
          | inr end ↦ rw end (
            refl,
            shortened-IsValid (exact (ltb-false→le _ _ end)),
            contents-shortened (exact (ltb-false→le _ _ end)),
          )
        ])
    where
      exact : b.len ≤ offset + n → offset + n ≡ b.len
      exact g = omega (arith, h)

  -- A range that reaches outside the contents is refused, and the buffer stays as it was.
  pub remove_data_fail :
      offset < size_mod
      → n < size_mod
      → b.len < offset + n
      → remove_data offset n b ≡ (fail bad_remove, b)
  unfolding remove_data
  remove_data_fail ho hn h = elim (Bool-cases (ltb (offset + n) size_mod)) [
    | inl small ↦
        rw (checked_add_ok offset n (ltb→lt _ _ small), remove_data, lt→ltb b.len (offset + n) h)
    | inr big ↦ rw (checked_add_fail offset n ho hn (ltb-false→le _ _ big), remove_data)
  ]
