-- ===== src/Channel/Watch/Table.antt =====
-- The table of watched files stays small and has one entry for a file.
use eessh.Prelude.{
  ℕ, suc, ◌≤◌, ◌<◌, ◌≡◌, ◌≢◌, refl, sym, ap, subst, ◌∙◌, length-append, proceed, modify, List, [],
  ◌∷◌, ◌++◌, Option, none, some, length, All, ltb, ◌==◌, Bool-cases, Option-cases, inl, inr, ok,
  fail, ltb→lt, ==-false→ne, arith, ◌>>=◌, Status,
}
use eessh.Channel.{Chan, PollFd}
use eessh.Channel.Watch.{
  on_fds, max_poll_fds, update_entry, update_poll_fd_events, update_needed, remove_empty,
  unless_needed, watch_fd, chan_flags_to_pollfd_events, without,
}

abbrev pub fds : List PollFd → List ℕ
fds [] = []
fds (p ∷ ps) = p.fd ∷ fds ps

abbrev pub AreDistinct : List ℕ → Type 0
AreDistinct [] = Unit
AreDistinct (x ∷ xs) = All (λ y. y ≢ x) xs × AreDistinct xs

-- At most eight entries, for different files.
pub record IsTable (ps : List PollFd) : Type 0 where
  pub small : length (fds ps) ≤ max_poll_fds
  pub distinct : AreDistinct (fds ps)

length-fds : (ps : List PollFd) → length (fds ps) ≡ length ps
length-fds [] = refl
length-fds (p ∷ ps) = ap suc (length-fds ps)

fds-append : (ps : List PollFd) (p : PollFd) → fds (ps ++ p ∷ []) ≡ fds ps ++ p.fd ∷ []
fds-append [] p = refl
fds-append (q ∷ ps) p = ap (λ xs. q.fd ∷ xs) (fds-append ps p)

update_entry-fds :
    (ps qs : List PollFd) (fd add remove : ℕ)
    → update_entry ps fd add remove ≡ some qs
    → fds qs ≡ fds ps
unfolding update_entry
update_entry-fds [] qs fd add remove e = cc
update_entry-fds (p ∷ ps) qs fd add remove e = elim (Bool-cases (p.fd == fd)) [
  | inl hit ↦ sym (ap first_fds (rw hit at e))
  | inr miss ↦ elim (Option-cases (update_entry ps fd add remove)) [
    | inl none_there ↦ cc (rw (miss, none_there) at e)
    | inr (rs, found) ↦
        sym (ap first_fds (rw (miss, found) at e))
        ∙ ap (λ xs. p.fd ∷ xs) (update_entry-fds ps rs fd add remove found)
  ]
]
  where
    first_fds : Option (List PollFd) → List ℕ
    first_fds none = []
    first_fds (some rs) = fds rs

update_entry-none :
    (ps : List PollFd) (fd add remove : ℕ)
    → update_entry ps fd add remove ≡ none
    → All (λ x. x ≢ fd) (fds ps)
unfolding update_entry
update_entry-none [] fd add remove e = tt
update_entry-none (p ∷ ps) fd add remove e = elim (Bool-cases (p.fd == fd)) [
  | inl hit ↦ cc (rw hit at e)
  | inr miss ↦ elim (Option-cases (update_entry ps fd add remove)) [
    | inl gone ↦ (==-false→ne _ _ miss, update_entry-none ps fd add remove gone)
    | inr (rs, found) ↦ cc (rw (miss, found) at e)
  ]
]

All-append : (P : ℕ → Type 0) (xs : List ℕ) (y : ℕ) → All P xs → P y → All P (xs ++ y ∷ [])
All-append P [] y h p = (p, tt)
All-append P (x ∷ xs) y h p = (h.0, All-append P xs y h.1 p)

distinct_append :
    (xs : List ℕ) (y : ℕ) → AreDistinct xs → All (λ x. x ≢ y) xs → AreDistinct (xs ++ y ∷ [])
distinct_append [] y d h = (tt, tt)
distinct_append (x ∷ xs) y d h =
    (All-append (λ z. z ≢ x) xs y d.0 (λ e. h.0 (sym e)), distinct_append xs y d.1 h.1)

update-IsTable :
    (fd add remove : ℕ) (ps : List PollFd)
    → IsTable ps
    → IsTable (update_poll_fd_events fd add remove ps).1
unfolding update_poll_fd_events
update-IsTable fd add remove ps t = elim (Option-cases (update_entry ps fd add remove)) [
  | inr (qs, found) ↦
      rw (found, update_poll_fd_events) (as_before qs (update_entry-fds ps qs fd add remove found))
  | inl gone ↦ elim (Bool-cases (ltb (length ps) max_poll_fds)) [
    | inr full ↦ rw (gone, update_poll_fd_events, full) t
    | inl free ↦
        rw (gone, update_poll_fd_events, free)
          (one_more (ltb→lt _ _ free) (update_entry-none ps fd add remove gone))
  ]
]
  where
    as_before : (qs : List PollFd) → fds qs ≡ fds ps → IsTable qs
    as_before qs e = record {
      small = subst (λ xs. length xs ≤ max_poll_fds) (sym e) t.small;
      distinct = subst AreDistinct (sym e) t.distinct;
    }

    one_more :
        length ps < max_poll_fds
        → All (λ x. x ≢ fd) (fds ps)
        → IsTable (ps ++ record { fd = fd; events = without add remove } ∷ [])
    one_more free new = record {
      small = omega (
        arith,
        free,
        length-fds ps,
        length-append (fds ps) (fd ∷ []),
        ap length (fds-append ps (record { fd = fd; events = without add remove })),
      );
      distinct =
          subst AreDistinct (sym (fds-append ps (record { fd = fd; events = without add remove })))
            (distinct_append (fds ps) fd t.distinct new);
    }

All-remove_empty :
    (P : ℕ → Type 0) (ps : List PollFd) → All P (fds ps) → All P (fds (remove_empty ps))
unfolding remove_empty
All-remove_empty P [] h = tt
All-remove_empty P (p ∷ ps) h = elim (Bool-cases (p.events == 0)) [
  | inl empty ↦ rw empty (All-remove_empty P ps h.1)
  | inr used ↦ rw used (h.0, All-remove_empty P ps h.1)
]

distinct_remove_empty :
    (ps : List PollFd) → AreDistinct (fds ps) → AreDistinct (fds (remove_empty ps))
unfolding remove_empty
distinct_remove_empty [] h = tt
distinct_remove_empty (p ∷ ps) h = elim (Bool-cases (p.events == 0)) [
  | inl empty ↦ rw empty (distinct_remove_empty ps h.1)
  | inr used ↦ rw used (All-remove_empty (λ x. x ≢ p.fd) ps h.0, distinct_remove_empty ps h.1)
]

length-remove_empty : (ps : List PollFd) → length (fds (remove_empty ps)) ≤ length (fds ps)
unfolding remove_empty
length-remove_empty [] = omega arith
length-remove_empty (p ∷ ps) = elim (Bool-cases (p.events == 0)) [
  | inl empty ↦ rw empty (omega (arith, length-remove_empty ps))
  | inr used ↦ rw used (omega (arith, length-remove_empty ps))
]

remove_empty-used : (ps : List PollFd) → All (λ p. p.events ≢ 0) (remove_empty ps)
unfolding remove_empty
remove_empty-used [] = tt
remove_empty-used (p ∷ ps) = elim (Bool-cases (p.events == 0)) [
  | inl empty ↦ rw empty (remove_empty-used ps)
  | inr used ↦ rw used (==-false→ne _ _ used, remove_empty-used ps)
]

-- What ssh_chan_watch_fd has made of a channel
pub record Watched (c : Chan) (r : Status) (c' : Chan) : Type 0 where
  pub table : IsTable c'.watch_fds
  pub used : r ≡ ok tt → All (λ p. p.events ≢ 0) c'.watch_fds
  pub rest : c' ≡ record c { watch_fds = c'.watch_fds }

-- ssh_chan_watch_fd keeps at most eight entries for different files; when it succeeds, every entry
-- that is left watches for something.
pub watch_fd-Watched :
    (fd enable disable : ℕ) (c : Chan)
    → IsTable c.watch_fds
    → Watched c (watch_fd fd enable disable c).0 (watch_fd fd enable disable c).1
unfolding watch_fd ◌>>=◌ update_needed
watch_fd-Watched fd enable disable c t =
    by_status
      (unless_needed (chan_flags_to_pollfd_events enable)
        (update_poll_fd_events fd (chan_flags_to_pollfd_events enable)
          (chan_flags_to_pollfd_events disable) c.watch_fds).0)
      (update-IsTable fd _ _ c.watch_fds t)
  where
    by_status :
        (r : Status) {qs : List PollFd}
        → IsTable qs
        → Watched c
            (on_fds (λ _. proceed r qs (λ _. modify remove_empty)) c).0
            (on_fds (λ _. proceed r qs (λ _. modify remove_empty)) c).1
    by_status (ok u) {qs} q = record {
      table = record {
        small = omega (arith, q.small, length-remove_empty qs);
        distinct = distinct_remove_empty qs q.distinct;
      };
      used = λ _. remove_empty-used qs;
      rest = refl;
    }
    by_status (fail e) {qs} q = record { table = q; used = λ h. cc; rest = refl }
