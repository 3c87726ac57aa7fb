-- ===== src/HostKeys/Check.antt =====
-- What ssh_host_key_store_check_server answers on the file that ssh_host_key_store_add has written.
use eessh.Prelude.{
  ℕ, suc, ◌≡◌, ◌≢◌, refl, ◌∙◌, ap, List, [], ◌∷◌, ◌++◌, Bool, true, false, if◌then◌else◌, length,
  All, arith, Bool-cases, inl, inr,
}
use eessh.HostKeys.{
  HostData, StoreStatus, found, not_found, bad_identity, other_error, is_missing, line_matches_key,
  key_line, c_string, is_whole, Verdict, search_key_callback, search_verdict, after_callback,
  read_lines, read_key_file, status_of,
}
use eessh.HostKeys.Lines.{IsShortLine, flat, chunks-flat, c_string-IsLine, is_whole-IsLine}
use eessh.HostKeys.Tokens.{IsEntry, match_own, own-missing, host_of_match, missing_of_other}
use eessh.HostKeys.Add.{texts, rewritten, replaces, no_token-missing}

-- The answer of the first line that is not passed over.
abbrev pub first_match : HostData → List (List ℕ) → StoreStatus
first_match d [] = not_found
first_match d (t ∷ ts) =
    let rest = first_match d ts in
    if is_missing (line_matches_key t d) then rest else line_matches_key t d

search_step :
    (m : StoreStatus) (callback : List ℕ → StoreStatus → Verdict × StoreStatus) (broken : Bool)
    (go_on : StoreStatus → Verdict × StoreStatus) (rest : StoreStatus)
    → status_of (go_on not_found) ≡ rest
    → status_of (
        after_callback callback broken
          (search_verdict m not_found).0
          (search_verdict m not_found).1
          go_on)
      ≡ (if is_missing m then rest else m)
search_step found callback broken go_on rest h = refl
search_step not_found callback broken go_on rest h = h
search_step bad_identity callback broken go_on rest h = refl
search_step other_error callback broken go_on rest h = refl

-- The search gives this answer on whole lines.
pub search-first_match :
    (d : HostData) (cs : List (List ℕ))
    → All (λ t. is_whole t ≡ true) (texts cs)
    → status_of (read_lines (search_key_callback d) false cs not_found) ≡ first_match d (texts cs)
unfolding read_lines search_key_callback
search-first_match d [] w = refl
search-first_match d (c ∷ cs) w = rw (w.0) (
    search_step (line_matches_key (c_string c) d) (search_key_callback d) false
      (read_lines (search_key_callback d) false cs) (first_match d (texts cs))
      (search-first_match d cs w.1))

-- The lines of the file after a host was added.
abbrev pub new_lines : HostData → List (List ℕ) → List (List ℕ)
new_lines d ts = rewritten d ts ++ (if replaces d ts then [] else key_line d ∷ [])

first_match-own :
    (d : HostData) (ts rest : List (List ℕ))
    → IsEntry d
    → (replaces d ts ≡ false → first_match d rest ≡ found)
    → first_match d (rewritten d ts ++ rest) ≡ found
first_match-own d [] rest e h = h refl
first_match-own d ([] ∷ ts) rest e h =
    first_match-own d ts rest e (λ r. h (rw (no_token-missing d) r))
first_match-own d ((x ∷ xs) ∷ ts) rest e h =
    elim (Bool-cases (is_missing (line_matches_key (x ∷ xs) d))) [
      | inl m ↦ rw (m, m) (first_match-own d ts rest e (λ r. h (rw m r)))
      | inr m ↦ rw (m, match_own d e) refl
    ]

pub first_match-new_lines :
    (d : HostData) (ts : List (List ℕ)) → IsEntry d → first_match d (new_lines d ts) ≡ found
first_match-new_lines d ts e = first_match-own d ts _ e (λ r. rw (r, match_own d e) refl)

first_match-other :
    (d d' : HostData) (ts rest : List (List ℕ))
    → IsEntry d
    → d.hostname ≢ d'.hostname
    → first_match d' rest ≡ not_found
    → first_match d' (rewritten d ts ++ rest) ≡ first_match d' ts
first_match-other d d' [] rest e n h = h
first_match-other d d' ([] ∷ ts) rest e n h =
    rw (no_token-missing d') (first_match-other d d' ts rest e n h)
first_match-other d d' ((x ∷ xs) ∷ ts) rest e n h =
    elim (Bool-cases (is_missing (line_matches_key (x ∷ xs) d))) [
      | inl m ↦ rw (m, first_match-other d d' ts rest e n h) refl
      | inr m ↦
          rw
            (m, own-missing d d' e n, missing_of_other (x ∷ xs) d d' (host_of_match (x ∷ xs) d m) n)
            (first_match-other d d' ts rest e n h)
    ]

pub first_match-frame :
    (d d' : HostData) (ts : List (List ℕ))
    → IsEntry d
    → d.hostname ≢ d'.hostname
    → first_match d' (new_lines d ts) ≡ first_match d' ts
first_match-frame d d' ts e n = first_match-other d d' ts _ e n (rest (replaces d ts))
  where
    rest : (b : Bool) → first_match d' (if b then [] else key_line d ∷ []) ≡ not_found
    rest true = refl
    rest false = rw (own-missing d d' e n) refl

-- A file of whole short lines is searched line by line.
texts-lines : (ls : List (List ℕ)) → All IsShortLine ls → texts ls ≡ ls
texts-lines [] h = refl
texts-lines (l ∷ ls) h = rw (c_string-IsLine l h.0.0, texts-lines ls h.1) refl

whole-lines : (ls : List (List ℕ)) → All IsShortLine ls → All (λ t. is_whole t ≡ true) (texts ls)
whole-lines [] h = tt
whole-lines (l ∷ ls) h =
    (rw (c_string-IsLine l h.0.0) (is_whole-IsLine l h.0.0), whole-lines ls h.1)

pub search-flat :
    (d : HostData) (ls : List (List ℕ))
    → All IsShortLine ls
    → status_of (read_key_file (search_key_callback d) false (flat ls) not_found) ≡ first_match d ls
unfolding read_key_file
search-flat d ls h =
    rw (chunks-flat (suc (length (flat ls))) ls h (omega arith))
      (search-first_match d ls (whole-lines ls h) ∙ ap (first_match d) (texts-lines ls h))
