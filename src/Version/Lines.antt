-- ===== src/Version/Lines.antt =====
-- Finding the version line among the lines that a server sends first.
use eessh.Prelude.{
  ℕ, zero, suc, ◌<◌, ◌≡◌, ◌≢◌, refl, sym, ◌∙◌, ap, List, [], ◌∷◌, ◌++◌, append_assoc, true, Option,
  none, some, ◌==◌, length, take, drop, All, take-append-drop, length-drop, arith, Bool-cases,
  Option-cases, inl, inr, ne→==-false, ==-false→ne, ==→eq, subst, false,
}
use eessh.Version.{
  newline, memchr, is_version_line, at_line_end, find_version_line, get_version_line,
}

pub memchr-none : (c : ℕ) (xs : List ℕ) → memchr c xs ≡ none → All (λ x. x ≢ c) xs
memchr-none c [] e = tt
memchr-none c (x ∷ xs) e = elim (Bool-cases (x == c)) [
  | inl hit ↦ cc (rw hit at e)
  | inr miss ↦ elim (Option-cases (memchr c xs)) [
    | inl gone ↦ (==-false→ne _ _ miss, memchr-none c xs gone)
    | inr (i, found) ↦ cc (rw (miss, found) at e)
  ]
]

pub memchr-append :
    (c : ℕ) (xs ys : List ℕ) → All (λ x. x ≢ c) xs → memchr c (xs ++ c ∷ ys) ≡ some (length xs)
memchr-append c [] ys h = ground arith
memchr-append c (x ∷ xs) ys h = rw (ne→==-false x c h.0, memchr-append c xs ys h.1) refl

memchr-lt : (c : ℕ) (xs : List ℕ) (i : ℕ) → memchr c xs ≡ some i → i < length xs
memchr-lt c [] i e = cc
memchr-lt c (x ∷ xs) i e = elim (Bool-cases (x == c)) [
  | inl hit ↦ omega (arith, some_injective (rw hit at e))
  | inr miss ↦ elim (Option-cases (memchr c xs)) [
    | inl gone ↦ cc (rw (miss, gone) at e)
    | inr (j, found) ↦ omega (arith, some_injective (rw (miss, found) at e), memchr-lt c xs j found)
  ]
]
  where
    some_injective : {m n : ℕ} → some m ≡ some n → m ≡ n
    some_injective q = cc

-- A line: its bytes and the newline at its end
abbrev pub IsLine : List ℕ → Type 0
IsLine line = (text : List ℕ) × (line ≡ text ++ newline ∷ []) × All (λ x. x ≢ newline) text

-- Lines, none of which is a version line
abbrev pub AreOther : List (List ℕ) → Type 0
AreOther ls = All (λ l. IsLine l × (is_version_line l ≡ false)) ls

abbrev pub joined : List (List ℕ) → List ℕ
joined [] = []
joined (l ∷ ls) = l ++ joined ls

-- What get_version_line says about its input: lines that are no version line, then the version line,
-- which is one line, and what follows it; or no line of the input is one, and the rest has no end of
-- line.
pub record Found (input : List ℕ) (out : Option (List ℕ) × List ℕ) : Type 0 where
  pub found :
      (ver : List ℕ)
      → out.0 ≡ some ver
      → (skipped : List (List ℕ)) × (input ≡ joined skipped ++ (ver ++ out.1))
        × AreOther skipped
        × IsLine ver
        × (is_version_line ver ≡ true)
  pub missing :
      out.0 ≡ none
      → (skipped : List (List ℕ)) × (input ≡ joined skipped ++ out.1)
        × AreOther skipped
        × All (λ x. x ≢ newline) out.1

-- The bytes up to the first newline are a line.
memchr-IsLine : (cur : List ℕ) (i : ℕ) → memchr newline cur ≡ some i → IsLine (take (suc i) cur)
memchr-IsLine [] i e = cc
memchr-IsLine (x ∷ xs) i e = elim (Bool-cases (x == newline)) [
  | inl hit ↦
      let at : 0 ≡ i = some_injective (rw hit at e) in
      ([], ap (λ n. x ∷ take n xs) (sym at) ∙ ap (λ y. y ∷ []) (==→eq x newline hit), tt)
  | inr miss ↦ elim (Option-cases (memchr newline xs)) [
    | inl gone ↦ cc (rw (miss, gone) at e)
    | inr (j, found) ↦
        let at : suc j ≡ i = some_injective (rw (miss, found) at e) in
        let (text, split, plain) = memchr-IsLine xs j found in
        (
          x ∷ text,
          ap (λ n. x ∷ take n xs) (sym at) ∙ ap (λ ys. x ∷ ys) split,
          (==-false→ne x newline miss, plain),
        )
  ]
]
  where
    some_injective : {m n : ℕ} → some m ≡ some n → m ≡ n
    some_injective q = cc

-- A line in front that is no version line changes nothing.
behind :
    (line rest : List ℕ) {out : Option (List ℕ) × List ℕ}
    → IsLine line
    → is_version_line line ≡ false
    → Found rest out
    → Found (line ++ rest) out
behind line rest {out} one other f = record {
  found = λ ver e.
      let (skipped, split, others, whole, good) = f.found ver e in
      (
        line ∷ skipped,
        ap (λ xs. line ++ xs) split ∙ sym (append_assoc line (joined skipped) (ver ++ out.1)),
        ((one, other), others),
        whole,
        good,
      );
  missing = λ e.
      let (skipped, split, others, none_left) = f.missing e in
      (
        line ∷ skipped,
        ap (λ xs. line ++ xs) split ∙ sym (append_assoc line (joined skipped) out.1),
        ((one, other), others),
        none_left,
      );
}

at_line_end-Found :
    (o : Option ℕ) (cur : List ℕ) (later : List ℕ → Option (List ℕ) × List ℕ)
    → memchr newline cur ≡ o
    → ((i : ℕ) → i < length cur → Found (drop (suc i) cur) (later (drop (suc i) cur)))
    → Found cur (at_line_end o cur later)
at_line_end-Found none cur later e next = record {
  found = λ ver h. cc;
  missing = λ _. ([], refl, tt, memchr-none newline cur e);
}
at_line_end-Found (some i) cur later e next =
    elim (Bool-cases (is_version_line (take (suc i) cur))) [
      | inl good ↦ rw good (record {
        found = λ ver h.
            subst
              (λ v.
                (skipped : List (List ℕ)) × (cur ≡ joined skipped ++ (v ++ drop (suc i) cur))
                × AreOther skipped
                × IsLine v
                × (is_version_line v ≡ true))
              (some_injective h)
              ([], sym (take-append-drop (suc i) cur), tt, memchr-IsLine cur i e, good);
        missing = λ h. cc;
      })
      | inr bad ↦ rw bad (
          subst (λ xs. Found xs (later (drop (suc i) cur))) (take-append-drop (suc i) cur)
            (behind (take (suc i) cur) (drop (suc i) cur) (memchr-IsLine cur i e) bad
              (next i (memchr-lt newline cur i e))))
    ]
  where
    some_injective : {m n : List ℕ} → some m ≡ some n → m ≡ n
    some_injective q = cc

find_version_line-Found :
    (fuel : ℕ) (cur : List ℕ) → length cur < fuel → Found cur (find_version_line fuel cur)
unfolding find_version_line
find_version_line-Found zero cur h = absurd (omega arith)
find_version_line-Found (suc fuel) cur h =
    at_line_end-Found (memchr newline cur) cur (find_version_line fuel) refl (λ i short.
      find_version_line-Found fuel (drop (suc i) cur)
        (omega (arith, h, short, length-drop (suc i) cur)))

-- get_version_line finds the first line of the input that is a version line and gives what follows
-- it; or no line is one, and it leaves the bytes behind the last line.
pub get_version_line-Found : (input : List ℕ) → Found input (get_version_line input)
unfolding get_version_line
get_version_line-Found input = find_version_line-Found (suc (length input)) input (omega arith)
