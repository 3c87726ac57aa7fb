-- ===== src/Kex/Negotiation.antt =====
-- What choose_algo chooses: the first name of the client's list that the server's list has.
use eessh.Prelude.{
  ap₂, take_of_length-le, take, ltb, not, ◌-◌, get_or, ℕ, zero, suc, ◌<◌, ◌≡◌, refl, ◌∙◌, ap, List,
  [], ◌∷◌, Bool, true, false, ◌&&◌, Option, some, if◌then◌else◌, length, ◌==◌, Result, ok, fail,
  same_bytes, arith, Bool-cases, inl, inr, ◌⊎◌,
}
use eessh.Buffer.{size_mod}
use eessh.Reader.{Reader, reader_of_string, rewind, read_until, scan, advance}
use eessh.Reader.Rest as Rest
use eessh.Reader.Rest.{rest, length-rest}
use eessh.Reader.Until.{before, past, read_until_lem}
use eessh.Kex.{comma, search_server, search_name, search_client, with_found, choose_from}
use eessh.Kex.Names.{names, found, agreed, names-eq-turn, past_shrinks, List-cases}

search_server_lem :
    (fuel : ℕ) (c : List ℕ) (first : Bool) {r : Reader}
    → Rest.IsValid r
    → length (rest r) < fuel
    → (search_server fuel c first r).0 ≡ found first c (names (rest r))
unfolding search_server
search_server_lem zero c first v h = absurd (omega arith)
search_server_lem (suc fuel) c first {r} v h = elim (List-cases (before comma (rest r))) [
  | inl e ↦ rw ((read_until_lem comma v).0, e, names-eq-turn (rest r), e) refl
  | inr (y, ys, e) ↦
      rw ((read_until_lem comma v).0, e, names-eq-turn (rest r), e)
        (by_test y ys (Bool-cases (same_bytes c (y ∷ ys))) (
          search_server_lem fuel c false (read_until_lem comma v).2
            (omega (arith, past_shrinks (rest r) e, ap length (read_until_lem comma v).1))))
]
  where
    r' : Reader
    r' = (read_until comma r).1

    by_test :
        (y : ℕ) (ys : List ℕ)
        → (same_bytes c (y ∷ ys) ≡ true) ⊎ (same_bytes c (y ∷ ys) ≡ false)
        → (search_server fuel c false r').0 ≡ found false c (names (rest r'))
        → (if same_bytes c (y ∷ ys) then (some first, r') else search_server fuel c false r').0 ≡ (
            if same_bytes c (y ∷ ys)
            then some first
            else found false c (names (past comma (rest r))))
    by_test y ys (inl same) later = rw same refl
    by_test y ys (inr differ) later =
        rw differ (later ∙ ap (λ xs. found false c (names xs)) (read_until_lem comma v).1)

-- Two cursors over one region.
abbrev SameSource : Reader → Reader → Type 0
SameSource r r' = (r'.bytes ≡ r.bytes) × (r'.len ≡ r.len)

scan-SameSource : (fuel s : ℕ) (r : Reader) → SameSource r (scan fuel s r)
unfolding scan
scan-SameSource zero s r = (refl, refl)
scan-SameSource (suc fuel) s r =
    elim (Bool-cases (ltb r.pos r.len && not (get_or r.bytes r.pos 0 == s))) [
      | inl more ↦ rw more (scan-SameSource fuel s (advance 1 r))
      | inr stop ↦ rw stop (refl, refl)
    ]

if-SameSource :
    (b : Bool) (r t : Reader) → SameSource r t → SameSource r (if b then advance 1 t else t)
if-SameSource true r t h = h
if-SameSource false r t h = h

read_until-SameSource : (s : ℕ) (r : Reader) → SameSource r (read_until s r).1
unfolding read_until
read_until-SameSource s r =
    if-SameSource _ r (scan (r.len - r.pos) s r) (scan-SameSource (r.len - r.pos) s r)

search_name-SameSource :
    (r0 : Reader) (q : Result (List ℕ)) (c : List ℕ) (first : Bool) (t : Reader)
    (later : Option Bool × Reader)
    → SameSource r0 t
    → SameSource r0 later.1
    → SameSource r0 (search_name q c first t later).1
search_name-SameSource r0 (fail e) c first t later h l = h
search_name-SameSource r0 (ok []) c first t later h l = h
search_name-SameSource r0 (ok (y ∷ ys)) c first t later h l =
    elim (Bool-cases (same_bytes c (y ∷ ys))) [ inl same ↦ rw same h | inr differ ↦ rw differ l ]

search_server-SameSource :
    (fuel : ℕ) (c : List ℕ) (first : Bool) (r : Reader)
    → SameSource r (search_server fuel c first r).1
unfolding search_server
search_server-SameSource zero c first r = (refl, refl)
search_server-SameSource (suc fuel) c first r =
    let one = read_until-SameSource comma r in
    let more = search_server-SameSource fuel c false (read_until comma r).1 in
    search_name-SameSource r (read_until comma r).0 c first (read_until comma r).1 _ one
      (more.0 ∙ one.0, more.1 ∙ one.1)

-- The server's list is searched from its start.
module _ {ss : List ℕ} (t : Reader) (small : length ss < size_mod)
    (same : SameSource (reader_of_string ss) t) where
  start-IsValid : Rest.IsValid (rewind t)
  unfolding rewind
  start-IsValid = record {
    in_bytes = omega (arith, same.1, ap length same.0);
    in_len = omega arith;
    sized = omega (arith, same.1);
  }

  start-rest : rest (rewind t) ≡ ss
  unfolding rewind
  start-rest = ap₂ take same.1 same.0 ∙ take_of_length-le (length ss) ss (omega arith)

  search_all :
      (c : List ℕ)
      → (search_server (suc (length t.bytes)) c true (rewind t)).0 ≡ found true c (names ss)
  search_all c =
      search_server_lem (suc (length t.bytes)) c true start-IsValid
        (omega (arith, ap length start-rest, ap length same.0))
      ∙ ap (λ xs. found true c (names xs)) start-rest

  search_on :
      (c : List ℕ)
      → SameSource (reader_of_string ss) (search_server (suc (length t.bytes)) c true (rewind t)).1
  unfolding rewind
  search_on c =
      let more = search_server-SameSource (suc (length t.bytes)) c true (rewind t) in
      (more.0 ∙ same.0, more.1 ∙ same.1)

search_client_lem :
    (fuel : ℕ) (first : Bool) {r : Reader} (t : Reader) {ss : List ℕ}
    → Rest.IsValid r
    → length (rest r) < fuel
    → length ss < size_mod
    → SameSource (reader_of_string ss) t
    → search_client fuel first r t ≡ agreed first (names (rest r)) (names ss)
unfolding search_client
search_client_lem zero first t v h small same = absurd (omega arith)
search_client_lem (suc fuel) first {r} t {ss} v h small same =
    elim (List-cases (before comma (rest r))) [
      | inl e ↦ rw ((read_until_lem comma v).0, e, names-eq-turn (rest r), e) refl
      | inr (y, ys, e) ↦
          rw ((read_until_lem comma v).0, e, names-eq-turn (rest r), e)
            (ap₂ (λ o later. with_found o (y ∷ ys) first later) (search_all t small same (y ∷ ys))
              (search_client_lem fuel false _ (read_until_lem comma v).2
                  (omega (arith, past_shrinks (rest r) e, ap length (read_until_lem comma v).1))
                  small (search_on t small same (y ∷ ys))
                ∙ ap (λ xs. agreed false (names xs) (names ss)) (read_until_lem comma v).1))
    ]

-- For two lists of names choose_algo takes the first of the client's names that the server has
-- too, and tells whether it is the first of both; with no common name it fails.
pub choose_from_lem :
    (cs ss : List ℕ)
    → length cs < size_mod
    → length ss < size_mod
    → choose_from cs ss ≡ agreed true (names cs) (names ss)
unfolding choose_from
choose_from_lem cs ss hc hs =
    search_client_lem (suc (length cs)) true (reader_of_string ss) client-IsValid
      (omega (arith, ap length whole)) hs (refl, refl)
    ∙ ap (λ xs. agreed true (names xs) (names ss)) whole
  where
    client-IsValid : Rest.IsValid (reader_of_string cs)
    client-IsValid = record { in_bytes = omega arith; in_len = omega arith; sized = hc }

    whole : rest (reader_of_string cs) ≡ cs
    whole = take_of_length-le (length cs) cs (omega arith)
