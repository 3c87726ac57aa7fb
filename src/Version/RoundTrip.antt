-- ===== src/Version/RoundTrip.antt =====
-- A version string that the client builds is parsed into its parts.
use eessh.Prelude.{
  ℕ, zero, suc, ◌+◌, ◌-◌, ◌<◌, ◌≡◌, ◌≢◌, refl, sym, ◌∙◌, ap, List, [], ◌∷◌, ◌++◌, append_assoc,
  length, take, drop, get_or, All, arith, ok, lt→ltb, length-append, take-append, drop-append,
  drop-drop, ne→==-false,
}
use eessh.Version.{
  newline, carriage_return, dash, space, ssh_dash, memchr, trim, split_version, parse_line,
  version_buf_len, version_line, build,
}
use eessh.Version.Lines.{memchr-append}

-- No byte in it ends a line.
abbrev pub IsOneLine : List ℕ → Type 0
IsOneLine xs = All (λ x. (x ≢ carriage_return) × (x ≢ newline)) xs

-- "2.0"
abbrev pub two_zero : List ℕ
two_zero = 50 ∷ 46 ∷ 48 ∷ []

-- The last byte of a space and some comments ends no line.
last_IsOneLine :
    (xs : List ℕ) (x : ℕ)
    → x ≢ carriage_return
    → x ≢ newline
    → IsOneLine xs
    → (get_or (x ∷ xs) (length xs) 0 ≢ carriage_return) × (get_or (x ∷ xs) (length xs) 0 ≢ newline)
last_IsOneLine [] x c n h = (c, n)
last_IsOneLine (y ∷ ys) x c n h = last_IsOneLine ys y h.0.0 h.0.1 h.1

get_or-append_ge : (xs ys : List ℕ) (k : ℕ) → get_or (xs ++ ys) (length xs + k) 0 ≡ get_or ys k 0
get_or-append_ge [] ys k = ap (λ i. get_or ys i 0) {x = 0 + k} {y = k} (omega arith)
get_or-append_ge (x ∷ xs) ys k =
    ap (λ i. get_or (x ∷ xs ++ ys) i 0) {x = suc (length xs) + k} {y = suc (length xs + k)}
      (omega arith)
    ∙ get_or-append_ge xs ys k

trim_stops :
    (w : List ℕ) (n : ℕ) → get_or w n 0 ≢ carriage_return → get_or w n 0 ≢ newline → trim w n ≡ n
trim_stops w zero c n = refl
trim_stops w (suc m) c n = rw (ne→==-false _ _ c, ne→==-false _ _ n) refl

trim_skips :
    (w : List ℕ) (n : ℕ)
    → get_or w (suc n) 0 ≡ carriage_return
    → get_or w (suc (suc n)) 0 ≡ newline
    → trim w (suc (suc n)) ≡ trim w n
trim_skips w n c l = rw (l, c) refl

-- The end of the line is cut off.
line_end : List ℕ
line_end = carriage_return ∷ newline ∷ []

get_or-append_lt : (xs ys : List ℕ) (k : ℕ) → k < length xs → get_or (xs ++ ys) k 0 ≡ get_or xs k 0
get_or-append_lt [] ys k h = absurd (omega arith)
get_or-append_lt (x ∷ xs) ys zero h = refl
get_or-append_lt (x ∷ xs) ys (suc k) h = get_or-append_lt xs ys k (omega arith)

trimmed :
    (line : List ℕ) (n : ℕ)
    → length line ≡ suc n
    → get_or line n 0 ≢ carriage_return
    → get_or line n 0 ≢ newline
    → take (suc (trim (line ++ line_end) (length (line ++ line_end) - 1))) (line ++ line_end) ≡ line
unfolding line_end
trimmed line n e c l =
    ap (λ k. take (suc k) w)
      (ap (trim w) {x = length w - 1} {y = suc (suc n)}
          (omega (arith, e, length-append line line_end))
        ∙ skipped
        ∙ stops)
    ∙ take-append (suc n) line line_end (omega (arith, e))
  where
    w : List ℕ
    w = line ++ line_end

    here : (k : ℕ) → get_or w (length line + k) 0 ≡ get_or line_end k 0
    here k = get_or-append_ge line line_end k

    skipped : trim w (suc (suc n)) ≡ trim w n
    skipped =
        trim_skips w n
          (ap (λ i. get_or w i 0) {x = suc n} {y = length line + 0} (omega (arith, e)) ∙ here 0)
          (ap (λ i. get_or w i 0) {x = suc (suc n)} {y = length line + 1} (omega (arith, e))
            ∙ here 1)

    same : get_or w n 0 ≡ get_or line n 0
    same = get_or-append_lt line line_end n (omega (arith, e))

    stops : trim w n ≡ n
    stops = trim_stops w n (λ q. c (sym same ∙ q)) (λ q. l (sym same ∙ q))

-- The line without its end.
abbrev pub bare_line : List ℕ → List ℕ → List ℕ
bare_line software comments = ssh_dash ++ (two_zero ++ dash ∷ (software ++ space ∷ comments))

version_line-eq : (s c : List ℕ) → version_line s c ≡ bare_line s c ++ line_end
unfolding line_end
version_line-eq s c =
    ap (λ xs. (ssh_dash ++ (two_zero ++ dash ∷ [])) ++ xs)
      (sym (append_assoc s (space ∷ c) line_end))

-- A line of the client's form is split into its three parts.
parse_bare :
    (s c : List ℕ)
    → All (λ x. x ≢ space) s
    → split_version (memchr dash (drop 4 (bare_line s c))) (bare_line s c) (drop 4 (bare_line s c))
      ≡ ok (record { buf = bare_line s c; version = two_zero; software = s; comments = c })
parse_bare s c h = rw (memchr-append space s c h) (λ i. ok (record {
  buf = bare_line s c;
  version = two_zero;
  software = take-append (length s) s (space ∷ c) refl i;
  comments = comments_of i;
}))
  where
    comments_of : drop (suc (length s)) (s ++ space ∷ c) ≡ c
    comments_of =
        ap (λ n. drop n (s ++ space ∷ c)) {x = suc (length s)} {y = length s + 1} (omega arith)
        ∙ sym (drop-drop 1 (length s) (s ++ space ∷ c))
        ∙ ap (drop 1) (drop-append (length s) s (space ∷ c) refl)

-- A version string is built and parsed back into its parts, when the software's name has no
-- space, the comments do not end a line, and the line is shorter than the buffer.
pub build_lem :
    (s c : List ℕ)
    → All (λ x. x ≢ space) s
    → IsOneLine c
    → length s + length c + 11 < version_buf_len
    → build s c
      ≡ ok (record { buf = bare_line s c; version = two_zero; software = s; comments = c })
unfolding build parse_line
build_lem s c hs hc small = rw (lt→ltb (length (version_line s c)) version_buf_len fits) (
    ap parse_line (version_line-eq s c)
    ∙ ap (λ line. split_version (memchr dash (drop 4 line)) line (drop 4 line)) cut
    ∙ parse_bare s c hs)
  where
    n : ℕ
    n = length s + length c + 8

    fits : length (version_line s c) < version_buf_len
    fits = omega (
      arith,
      small,
      length-append s (space ∷ (c ++ carriage_return ∷ newline ∷ [])),
      length-append c (carriage_return ∷ newline ∷ []),
    )

    long : length (bare_line s c) ≡ suc n
    long = omega (arith, length-append s (space ∷ c))

    last : get_or (bare_line s c) n 0 ≡ get_or (space ∷ c) (length c) 0
    last =
        ap (λ i. get_or (bare_line s c) i 0) {x = n}
          {y = suc (suc (suc (suc (suc (suc (suc (suc (length s + length c))))))))} (omega arith)
        ∙ get_or-append_ge s (space ∷ c) (length c)

    ends :
        (get_or (space ∷ c) (length c) 0 ≢ carriage_return)
        × (get_or (space ∷ c) (length c) 0 ≢ newline)
    ends = last_IsOneLine c space (omega arith) (omega arith) hc

    cut :
        take
          (suc (trim (bare_line s c ++ line_end) (length (bare_line s c ++ line_end) - 1)))
          (bare_line s c ++ line_end)
        ≡ bare_line s c
    cut = trimmed (bare_line s c) n long (λ q. ends.0 (sym last ∙ q)) (λ q. ends.1 (sym last ∙ q))
