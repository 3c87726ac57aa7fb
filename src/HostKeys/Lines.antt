-- ===== src/HostKeys/Lines.antt =====
-- How the file of host keys is cut into lines.
use eessh.Prelude.{
  ℕ, zero, suc, ◌+◌, ◌-◌, ◌≤◌, ◌<◌, ◌≡◌, ◌≢◌, ◌⊎◌, inl, inr, refl, ap, List, [], ◌∷◌, ◌++◌, true,
  ◌==◌, length, length-append, All, arith, Bool-cases, ==→eq, ==-false→ne, ne→==-false,
}
use eessh.HostKeys.{max_line_size, newline, fgets_line, chunks, c_string, is_whole}

-- A line of text: a newline at the end and nowhere else, and no zero byte.
abbrev pub IsLine : List ℕ → Type 0
IsLine [] = ⊥
IsLine (x ∷ []) = x ≡ newline
IsLine (x ∷ y ∷ ys) = (x ≢ newline) × (x ≢ 0) × IsLine (y ∷ ys)

-- A line that one call of `fgets` reads.
abbrev pub IsShortLine : List ℕ → Type 0
IsShortLine line = IsLine line × (length line ≤ max_line_size - 1)

pub fgets_line-append :
    (n : ℕ) (line rest : List ℕ)
    → IsLine line
    → length line ≤ n
    → fgets_line n (line ++ rest) ≡ (line, rest)
fgets_line-append zero [] rest l h = absurd l
fgets_line-append (suc n) [] rest l h = absurd l
fgets_line-append zero (x ∷ xs) rest l h = absurd (omega arith)
fgets_line-append (suc n) (x ∷ []) rest l h = rw l refl
fgets_line-append (suc n) (x ∷ y ∷ ys) rest l h =
    rw (ne→==-false x newline l.0, fgets_line-append n (y ∷ ys) rest l.2 (omega arith)) refl

pub c_string-IsLine : (line : List ℕ) → IsLine line → c_string line ≡ line
c_string-IsLine [] l = refl
c_string-IsLine (x ∷ []) l = rw l refl
c_string-IsLine (x ∷ y ∷ ys) l = rw (ne→==-false x 0 l.1, c_string-IsLine (y ∷ ys) l.2) refl

pub is_whole-IsLine : (line : List ℕ) → IsLine line → is_whole line ≡ true
is_whole-IsLine [] l = refl
is_whole-IsLine (x ∷ []) l = rw l refl
is_whole-IsLine (x ∷ y ∷ ys) l = is_whole-IsLine (y ∷ ys) l.2

-- The text of a chunk that passes the test of read_key_file is empty or a line.
abbrev pub IsChunk : List ℕ → Type 0
IsChunk chunk =
    (is_whole (c_string chunk) ≡ true → (c_string chunk ≡ []) ⊎ IsLine (c_string chunk))
    × (length (c_string chunk) ≤ max_line_size - 1)

longer-IsLine :
    (x : ℕ) (text : List ℕ)
    → x ≢ newline
    → x ≢ 0
    → (is_whole text ≡ true → (text ≡ []) ⊎ IsLine text)
    → is_whole (x ∷ text) ≡ true
    → IsLine (x ∷ text)
longer-IsLine x [] n z ih w = absurd (n (==→eq _ _ w))
longer-IsLine x (y ∷ ys) n z ih w = elim (ih w) [ inl e ↦ cc | inr l ↦ (n, z, l) ]

fgets_line-whole :
    (n : ℕ) (xs : List ℕ)
    → is_whole (c_string (fgets_line n xs).0) ≡ true
    → (c_string (fgets_line n xs).0 ≡ []) ⊎ IsLine (c_string (fgets_line n xs).0)
fgets_line-whole zero xs w = inl refl
fgets_line-whole (suc n) [] w = inl refl
fgets_line-whole (suc n) (x ∷ xs) w = elim (Bool-cases (x == newline)) [
  | inl end ↦ rw (end, ==→eq _ _ end) (inr refl)
  | inr more ↦ elim (Bool-cases (x == 0)) [
    | inl nul ↦ rw (more, nul) (inl refl)
    | inr byte ↦
        rw (more, byte)
          (inr (
            longer-IsLine x (c_string (fgets_line n xs).0) (==-false→ne _ _ more)
              (==-false→ne _ _ byte) (fgets_line-whole n xs) (rw (more, byte) at w)))
  ]
]

length-c_string : (xs : List ℕ) → length (c_string xs) ≤ length xs
length-c_string [] = omega arith
length-c_string (x ∷ xs) = ground (arith, length-c_string xs)

length-fgets_line :
    (n : ℕ) (xs : List ℕ)
    → (length (fgets_line n xs).0 ≤ n)
      × (length (fgets_line n xs).0 + length (fgets_line n xs).1 ≡ length xs)
length-fgets_line zero xs = omega arith
length-fgets_line (suc n) [] = omega arith
length-fgets_line (suc n) (x ∷ xs) = ground (arith, length-fgets_line n xs)

pub chunks-IsChunk : (fuel : ℕ) (xs : List ℕ) → All IsChunk (chunks fuel xs)
unfolding chunks
chunks-IsChunk zero xs = tt
chunks-IsChunk (suc fuel) [] = tt
chunks-IsChunk (suc fuel) (x ∷ xs) =
    let line = (fgets_line (max_line_size - 1) (x ∷ xs)).0 in
    (
      (
        fgets_line-whole (max_line_size - 1) (x ∷ xs),
        omega (arith, length-c_string line, length-fgets_line (max_line_size - 1) (x ∷ xs)),
      ),
      chunks-IsChunk fuel (fgets_line (max_line_size - 1) (x ∷ xs)).1,
    )

abbrev pub flat : List (List ℕ) → List ℕ
flat [] = []
flat (x ∷ xs) = x ++ flat xs

-- A file of short lines is cut into just these.
pub chunks-flat :
    (fuel : ℕ) (lines : List (List ℕ))
    → All IsShortLine lines
    → length (flat lines) < fuel
    → chunks fuel (flat lines) ≡ lines
unfolding chunks
chunks-flat zero lines h f = absurd (omega arith)
chunks-flat (suc fuel) [] h f = refl
chunks-flat (suc fuel) ([] ∷ lines) h f = absurd h.0.0
chunks-flat (suc fuel) ((x ∷ xs) ∷ lines) h f =
    rw (fgets_line-append (max_line_size - 1) (x ∷ xs) (flat lines) h.0.0 h.0.1) (
      ap (λ ls. (x ∷ xs) ∷ ls)
        (chunks-flat fuel lines h.1 (omega (arith, length-append xs (flat lines)))))
