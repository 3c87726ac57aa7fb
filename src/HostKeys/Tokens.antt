-- ===== src/HostKeys/Tokens.antt =====
-- What line_matches_key says of the line that is written for a host.
use eessh.Prelude.{
  ℕ, ◌-◌, ◌≤◌, ◌≡◌, ◌≢◌, refl, sym, ◌∙◌, ap, List, [], ◌∷◌, ◌++◌, Bool, true, false, not, ◌||◌,
  length, All, arith, Bool-cases, inl, inr, same_bytes, same_bytes→eq, same_bytes_self,
}
use eessh.HostKeys.{
  HostData, newline, space, is_blank, split_token, strtok, is_comment, is_token, line_matches_key,
  key_line, found, not_found, is_missing, max_line_size,
}
use eessh.HostKeys.Lines.{IsLine, IsShortLine}

-- A word: at least one byte, no blank and no zero byte among them.
abbrev pub IsWord : List ℕ → Type 0
IsWord [] = ⊥
IsWord (x ∷ xs) = (is_blank x ≡ false) × (x ≢ 0) × All (λ y. (is_blank y ≡ false) × (y ≢ 0)) xs

-- Data that can stand in a line of the file: three words, the first of which starts no comment.
pub record IsEntry (d : HostData) : Type 0 where
  pub host : IsWord d.hostname
  pub plain : is_comment d.hostname ≡ false
  pub type : IsWord d.key_type
  pub key : IsWord d.host_key
  pub short : length (key_line d) ≤ max_line_size - 1

split_token-append :
    (xs rest : List ℕ) (b : ℕ)
    → All (λ y. (is_blank y ≡ false) × (y ≢ 0)) xs
    → is_blank b ≡ true
    → split_token (xs ++ b ∷ rest) ≡ (xs, rest)
split_token-append [] rest b h e = rw e refl
split_token-append (x ∷ xs) rest b h e = rw (h.0.0, split_token-append xs rest b h.1 e) refl

strtok-append :
    (xs rest : List ℕ) (b : ℕ)
    → IsWord xs
    → is_blank b ≡ true
    → strtok (xs ++ b ∷ rest) ≡ (xs, rest)
strtok-append [] rest b h e = absurd h
strtok-append (x ∷ xs) rest b h e = rw (h.0, h.0, split_token-append xs rest b h.2 e) refl

pub is_token_self : (xs : List ℕ) → IsWord xs → is_token xs xs ≡ true
is_token_self [] h = absurd h
is_token_self (x ∷ xs) h = same_bytes_self (x ∷ xs)

-- The three calls of `strtok_r` on the line of a host give its three words.
pub tokens :
    (d : HostData)
    → IsEntry d
    → (strtok (key_line d) ≡ (d.hostname, d.key_type ++ space ∷ (d.host_key ++ newline ∷ [])))
      × (strtok (d.key_type ++ space ∷ (d.host_key ++ newline ∷ []))
          ≡ (d.key_type, d.host_key ++ newline ∷ []))
      × (strtok (d.host_key ++ newline ∷ []) ≡ (d.host_key, []))
tokens d e = (
  strtok-append d.hostname _ space e.host refl,
  strtok-append d.key_type _ space e.type refl,
  strtok-append d.host_key [] newline e.key refl,
)

pub match_own : (d : HostData) → IsEntry d → line_matches_key (key_line d) d ≡ found
unfolding line_matches_key
match_own d e =
    rw
      (
        (tokens d e).0,
        (tokens d e).1,
        (tokens d e).2,
        e.plain,
        same_bytes_self d.hostname,
        is_token_self d.key_type e.type,
        is_token_self d.host_key e.key,
      )
      refl

IsLine-cons : (x : ℕ) (line : List ℕ) → x ≢ newline → x ≢ 0 → IsLine line → IsLine (x ∷ line)
IsLine-cons x [] n z l = absurd l
IsLine-cons x (y ∷ ys) n z l = (n, z, l)

not_blank-ne-newline : (x : ℕ) → is_blank x ≡ false → x ≢ newline
not_blank-ne-newline x b e = cc (ap is_blank e, b)

IsLine-append :
    (xs line : List ℕ)
    → All (λ y. (is_blank y ≡ false) × (y ≢ 0)) xs
    → IsLine line
    → IsLine (xs ++ line)
IsLine-append [] line h l = l
IsLine-append (x ∷ xs) line h l =
    IsLine-cons x (xs ++ line) (not_blank-ne-newline x h.0.0) h.0.1 (IsLine-append xs line h.1 l)

letters : (xs : List ℕ) → IsWord xs → All (λ y. (is_blank y ≡ false) × (y ≢ 0)) xs
letters [] h = absurd h
letters (x ∷ xs) h = ((h.0, h.1), h.2)

pub key_line-IsShortLine : (d : HostData) → IsEntry d → IsShortLine (key_line d)
key_line-IsShortLine d e = (
  IsLine-append d.hostname _ (letters d.hostname e.host) (
      IsLine-cons space _ (omega arith) (omega arith) (
        IsLine-append d.key_type _ (letters d.key_type e.type) (
          IsLine-cons space _ (omega arith) (omega arith)
            (IsLine-append d.host_key _ (letters d.host_key e.key) refl)))),
  e.short,
)

-- A line that is not passed over has the host's name in front,
pub host_of_match :
    (line : List ℕ) (d : HostData)
    → is_missing (line_matches_key line d) ≡ false
    → same_bytes (strtok line).0 d.hostname ≡ true
unfolding line_matches_key
host_of_match line d m =
    elim (Bool-cases (is_comment (strtok line).0 || not (same_bytes (strtok line).0 d.hostname))) [
      | inl other ↦ cc (rw other at m)
      | inr same ↦ not_or _ _ same
    ]
  where
    not_or : (a b : Bool) → a || not b ≡ false → b ≡ true
    not_or a true h = refl
    not_or true false h = cc
    not_or false false h = cc

-- so that it is passed over when another host is looked for.
pub missing_of_other :
    (line : List ℕ) (d d' : HostData)
    → same_bytes (strtok line).0 d.hostname ≡ true
    → d.hostname ≢ d'.hostname
    → line_matches_key line d' ≡ not_found
unfolding line_matches_key
missing_of_other line d d' same other = rw (or_not _ _ differs) refl
  where
    differs : same_bytes (strtok line).0 d'.hostname ≡ false
    differs = elim (Bool-cases (same_bytes (strtok line).0 d'.hostname)) [
      | inl both ↦ absurd (other (sym (same_bytes→eq _ _ same) ∙ same_bytes→eq _ _ both))
      | inr e ↦ e
    ]

    or_not : (a b : Bool) → b ≡ false → a || not b ≡ true
    or_not true b h = refl
    or_not false b h = ap not h

pub own-missing :
    (d d' : HostData)
    → IsEntry d
    → d.hostname ≢ d'.hostname
    → line_matches_key (key_line d) d' ≡ not_found
own-missing d d' e other =
    missing_of_other (key_line d) d d' (rw ((tokens d e).0) (same_bytes_self d.hostname)) other

-- The three words of a line that is found are those of the host and its key.
pub words_of_found :
    (line : List ℕ) (d : HostData)
    → line_matches_key line d ≡ found
    → ((strtok line).0 ≡ d.hostname)
      × ((strtok (strtok line).1).0 ≡ d.key_type)
      × ((strtok (strtok (strtok line).1).1).0 ≡ d.host_key)
unfolding line_matches_key
words_of_found line d f =
    elim (Bool-cases (is_comment (strtok line).0 || not (same_bytes (strtok line).0 d.hostname))) [
      | inl other ↦ cc (rw other at f)
      | inr same ↦ elim (Bool-cases (is_token (strtok (strtok line).1).0 d.key_type)) [
        | inr typed ↦ cc (rw (same, typed) at f)
        | inl type ↦ elim (Bool-cases (is_token (strtok (strtok (strtok line).1).1).0 d.host_key)) [
          | inr key ↦ cc (rw (same, type, key) at f)
          | inl key ↦ (
            same_bytes→eq _ _ (host_of_match line d (rw f refl)),
            token-eq _ _ type,
            token-eq _ _ key,
          )
        ]
      ]
    ]
  where
    token-eq : (xs ys : List ℕ) → is_token xs ys ≡ true → xs ≡ ys
    token-eq [] ys h = cc
    token-eq (x ∷ xs) ys h = same_bytes→eq (x ∷ xs) ys h
