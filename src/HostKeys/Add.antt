-- ===== src/HostKeys/Add.antt =====
-- What ssh_host_key_store_add writes.
use eessh.Prelude.{
  ℕ, ◌≡◌, refl, sym, ◌∙◌, ap, List, [], ◌∷◌, ◌++◌, append_assoc, append-nil, Bool, true, false, not,
  ◌||◌, if◌then◌else◌, All, Bool-cases, inl, inr, ◌⊎◌,
}
use eessh.HostKeys.{
  HostData, not_found, is_missing, line_matches_key, key_line, c_string, is_whole, Verdict, failed,
  AddState, add_key_callback, read_lines,
}
use eessh.HostKeys.Lines.{IsShortLine, IsChunk, flat}
use eessh.HostKeys.Tokens.{IsEntry, key_line-IsShortLine}

-- The texts of the old file's lines,
abbrev pub texts : List (List ℕ) → List (List ℕ)
texts [] = []
texts (c ∷ cs) = c_string c ∷ texts cs

abbrev pub kept_line : HostData → List ℕ → List ℕ
kept_line d text = if is_missing (line_matches_key text d) then text else key_line d

-- and those of the new file: the lines of the host are replaced.
abbrev pub rewritten : HostData → List (List ℕ) → List (List ℕ)
rewritten d [] = []
rewritten d ([] ∷ ts) = rewritten d ts
rewritten d ((x ∷ xs) ∷ ts) = kept_line d (x ∷ xs) ∷ rewritten d ts

abbrev pub replaces : HostData → List (List ℕ) → Bool
replaces d [] = false
replaces d (t ∷ ts) = not (is_missing (line_matches_key t d)) || replaces d ts

abbrev pub is_failed : Verdict → Bool
is_failed failed = true
is_failed _ = false

-- The state in which the loop has left the new file, if it has not failed.
pub record Copied (d : HostData) (ts : List (List ℕ)) (s : AddState) (out : Verdict × AddState)
    : Type 0 where
  pub written : out.1.out ≡ s.out ++ flat (rewritten d ts)
  pub replaced : out.1.replaced ≡ s.replaced || replaces d ts
  pub short : All IsShortLine (rewritten d ts)
  pub whole : All (λ t. is_whole t ≡ true) ts

abbrev one_line : HostData → List ℕ → AddState → AddState
one_line d text s =
    if is_missing (line_matches_key text d)
    then record s { out = s.out ++ text }
    else record { out = s.out ++ key_line d; replaced = true }

one_line_lem :
    (d : HostData) (text : List ℕ) (s : AddState)
    → ((one_line d text s).out ≡ s.out ++ kept_line d text)
      × ((one_line d text s).replaced ≡ s.replaced || not (is_missing (line_matches_key text d)))
one_line_lem d text s = elim (Bool-cases (is_missing (line_matches_key text d))) [
  | inl m ↦ rw m (refl, or-false s.replaced)
  | inr m ↦ rw m (refl, or-true s.replaced)
]
  where
    or-false : (b : Bool) → b ≡ b || false
    or-false true = refl
    or-false false = refl

    or-true : (b : Bool) → true ≡ b || true
    or-true true = refl
    or-true false = refl

kept-IsShortLine :
    (d : HostData) (text : List ℕ) → IsEntry d → IsShortLine text → IsShortLine (kept_line d text)
kept-IsShortLine d text e l = elim (Bool-cases (is_missing (line_matches_key text d))) [
  | inl m ↦ rw m l
  | inr m ↦ rw m (key_line-IsShortLine d e)
]

pub no_token-missing : (d : HostData) → line_matches_key [] d ≡ not_found
unfolding line_matches_key
no_token-missing d = refl

or_assoc : (a b c : Bool) → (a || b) || c ≡ a || (b || c)
or_assoc true b c = refl
or_assoc false b c = refl

-- One more line in front, whose text is empty or a line.
Copied-cons :
    (d : HostData) (text : List ℕ) (ts : List (List ℕ)) (s : AddState) {out : Verdict × AddState}
    → IsEntry d
    → (text ≡ []) ⊎ IsShortLine text
    → is_whole text ≡ true
    → Copied d ts (one_line d text s) out
    → Copied d (text ∷ ts) s out
Copied-cons d [] ts s e l w c = record {
  written = c.written ∙ ap (λ xs. xs ++ flat (rewritten d ts)) ((one_line_lem d [] s).0 ∙ nothing);
  replaced =
      c.replaced
      ∙ ap (λ b. b || replaces d ts) (one_line_lem d [] s).1
      ∙ or_assoc s.replaced (not (is_missing (line_matches_key [] d))) (replaces d ts);
  short = c.short;
  whole = (w, c.whole);
}
  where
    nothing : s.out ++ kept_line d [] ≡ s.out
    nothing = rw (no_token-missing d) (append-nil s.out)
Copied-cons d (x ∷ xs) ts s e l w c = record {
  written =
      c.written
      ∙ ap (λ ys. ys ++ flat (rewritten d ts)) (one_line_lem d (x ∷ xs) s).0
      ∙ append_assoc s.out (kept_line d (x ∷ xs)) (flat (rewritten d ts));
  replaced =
      c.replaced
      ∙ ap (λ b. b || replaces d ts) (one_line_lem d (x ∷ xs) s).1
      ∙ or_assoc s.replaced (not (is_missing (line_matches_key (x ∷ xs) d))) (replaces d ts);
  short = (kept-IsShortLine d (x ∷ xs) e (line l), c.short);
  whole = (w, c.whole);
}
  where
    line : ((x ∷ xs) ≡ []) ⊎ IsShortLine (x ∷ xs) → IsShortLine (x ∷ xs)
    line (inl q) = cc
    line (inr m) = m

text_of_chunk :
    (c : List ℕ)
    → IsChunk c
    → is_whole (c_string c) ≡ true
    → (c_string c ≡ []) ⊎ IsShortLine (c_string c)
text_of_chunk c k w = elim (k.0 w) [ inl e ↦ inl e | inr l ↦ inr (l, k.1) ]

pub read_lines-Copied :
    (full broken : Bool) (d : HostData) (cs : List (List ℕ)) (s : AddState)
    → IsEntry d
    → All IsChunk cs
    → is_failed (read_lines (add_key_callback full d) broken cs s).0 ≡ false
    → Copied d (texts cs) s (read_lines (add_key_callback full d) broken cs s)
unfolding read_lines add_key_callback
read_lines-Copied full broken d [] s e k f = record {
  written = sym (append-nil s.out);
  replaced = or-false s.replaced;
  short = tt;
  whole = tt;
}
  where
    or-false : (b : Bool) → b ≡ b || false
    or-false true = refl
    or-false false = refl
read_lines-Copied true broken d (c ∷ cs) s e k f = elim (Bool-cases (is_whole (c_string c))) [
  | inr part ↦ cc (rw part at f)
  | inl whole ↦ cc (rw whole at f)
]
read_lines-Copied false broken d (c ∷ cs) s e k f = elim (Bool-cases (is_whole (c_string c))) [
  | inr part ↦ cc (rw part at f)
  | inl whole ↦ rw whole (
      Copied-cons d (c_string c) (texts cs) s e (text_of_chunk c k.0 whole) whole
        (read_lines-Copied false broken d cs (one_line d (c_string c) s) e k.1 (rw whole at f)))
]
