-- ===== src/Reader/Until.antt =====
-- ssh_buf_read_until splits what is left at the first sentinel, and skips it.
use eessh.Prelude.{
  ℕ, zero, suc, ◌+◌, ◌-◌, ◌≤◌, ◌<◌, ◌≡◌, refl, sym, ◌∙◌, ap, inl, inr, List, ◌∷◌, [], true, arith,
  length, take, drop, get_or, length-take, ok, ltb, ◌==◌, Bool-cases, lt→ltb, le→ltb-false, ltb→lt,
  ltb-false→le, drop_of_length-le, if◌then◌else◌,
}
use eessh.Buffer.{add_size, sub_size}
use eessh.Reader.{Reader, advance, scan, read_until}
use eessh.Reader.Rest.{
  IsValid, rest, length-rest, advance-IsValid, rest-advance, get_or-rest, take-drop-take,
}

-- The bytes in front of the first sentinel, and those behind it.
abbrev pub before : ℕ → List ℕ → List ℕ
before s [] = []
before s (x ∷ xs) = if x == s then [] else x ∷ before s xs

abbrev pub past : ℕ → List ℕ → List ℕ
past s [] = []
past s (x ∷ xs) = if x == s then xs else past s xs

length-before : (s : ℕ) (xs : List ℕ) → length (before s xs) ≤ length xs
length-before s [] = omega arith
length-before s (x ∷ xs) = ground (arith, length-before s xs)

take-before : (s : ℕ) (xs : List ℕ) → take (length (before s xs)) xs ≡ before s xs
take-before s [] = refl
take-before s (x ∷ xs) = ground (arith, take-before s xs)

-- Where the loop stands when it stops: behind the bytes in front of the sentinel.
scan_lem :
    (fuel s : ℕ) {r : Reader} (xs : List ℕ)
    → IsValid r
    → rest r ≡ xs
    → length xs ≤ fuel
    → scan fuel s r ≡ advance (length (before s xs)) r
unfolding scan
scan_lem zero s {r} [] v e h = λ i. record r { pos = same i }
  where
    same : r.pos ≡ add_size r.pos 0
    same = omega (arith, v.in_len, v.sized)
scan_lem zero s (x ∷ xs) v e h = absurd (omega arith)
scan_lem (suc fuel) s {r} [] v e h =
    rw (le→ltb-false r.pos r.len (omega (arith, length-rest v, ap length e)))
      (λ i. record r { pos = same i })
  where
    same : r.pos ≡ add_size r.pos 0
    same = omega (arith, v.in_len, v.sized)
scan_lem (suc fuel) s {r} (x ∷ xs) v e h = elim (Bool-cases (x == s)) [
  | inl hit ↦ rw (inside, here, hit) (λ i. record r { pos = same i })
  | inr miss ↦
      rw (inside, here, miss)
        (scan_lem fuel s xs (advance-IsValid 1 v (omega (arith, ap length e))) next (omega arith)
          ∙ λ i. record r { pos = step i })
]
  where
    inside : ltb r.pos r.len ≡ true
    inside = lt→ltb r.pos r.len (omega (arith, length-rest v, ap length e))

    here : get_or r.bytes r.pos 0 ≡ x
    here =
        ap (λ k. get_or r.bytes k 0) {x = r.pos} {y = r.pos + 0} (omega arith)
        ∙ get_or-rest 0 v (omega (arith, ap length e))
        ∙ ap (λ ys. get_or ys 0 0) e

    same : r.pos ≡ add_size r.pos 0
    same = omega (arith, v.in_len, v.sized)

    next : rest (advance 1 r) ≡ xs
    next = rest-advance 1 v (omega (arith, ap length e)) ∙ ap (drop 1) e

    step :
        add_size (add_size r.pos 1) (length (before s xs))
        ≡ add_size r.pos (suc (length (before s xs)))
    step = omega arith

past_of_before : (s : ℕ) (xs : List ℕ) → past s xs ≡ drop 1 (drop (length (before s xs)) xs)
past_of_before s [] = refl
past_of_before s (x ∷ xs) = ground (arith, past_of_before s xs)

abbrev skip_one : Reader → Reader
skip_one t = if ltb t.pos t.len then advance 1 t else t

skip_one_lem :
    {t : Reader} → IsValid t → (rest (skip_one t) ≡ drop 1 (rest t)) × IsValid (skip_one t)
skip_one_lem {t} v = elim (Bool-cases (ltb t.pos t.len)) [
  | inl more ↦
      rw more
        (rest-advance 1 v (left (ltb→lt _ _ more)), advance-IsValid 1 v (left (ltb→lt _ _ more)))
  | inr end ↦ rw end (none_left (ltb-false→le _ _ end), v)
]
  where
    left : t.pos < t.len → 1 ≤ length (rest t)
    left h = omega (arith, length-rest v)

    none_left : t.len ≤ t.pos → rest t ≡ drop 1 (rest t)
    none_left h =
        drop_of_length-le t.pos (take t.len t.bytes)
          (omega (arith, length-rest v, length-take t.len t.bytes))
        ∙ sym (drop_of_length-le 1 (rest t) (omega (arith, length-rest v)))

-- What ssh_buf_read_until leaves behind the cursor.
module _ (s : ℕ) {r : Reader} (v : IsValid r) where
  stop : Reader
  stop = advance (length (before s (rest r))) r

  stop-IsValid : IsValid stop
  unfolding stop
  stop-IsValid = advance-IsValid _ v (length-before s (rest r))

  scan_stops : scan (r.len - r.pos) s r ≡ stop
  unfolding stop
  scan_stops = scan_lem (r.len - r.pos) s (rest r) v refl (omega (arith, length-rest v))

  -- ssh_buf_read_until hands out what stands in front of the first sentinel, and leaves what
  -- stands behind it; with no sentinel it hands out all that is left.
  pub read_until_lem :
      ((read_until s r).0 ≡ ok (before s (rest r)))
      × (rest (read_until s r).1 ≡ past s (rest r))
      × IsValid (read_until s r).1
  unfolding read_until stop
  read_until_lem =
      rw scan_stops
        (ap ok slice, (skip_one_lem stop-IsValid).0 ∙ left, (skip_one_lem stop-IsValid).1)
    where
      k : ℕ
      k = length (before s (rest r))

      k-le : k ≤ length (rest r)
      k-le = length-before s (rest r)

      slice : take (sub_size stop.pos r.pos) (drop r.pos r.bytes) ≡ before s (rest r)
      slice =
          ap (λ n. take n (drop r.pos r.bytes)) {x = sub_size stop.pos r.pos} {y = k}
            (omega (arith, length-rest v, k-le, v.in_len, v.sized))
          ∙ sym
              (take-drop-take k r.pos r.len r.bytes (omega (arith, length-rest v, k-le, v.in_len)))
          ∙ take-before s (rest r)

      left : drop 1 (rest stop) ≡ past s (rest r)
      left = ap (drop 1) (rest-advance k v k-le) ∙ sym (past_of_before s (rest r))
