-- ===== src/Algorithms/Supported.antt =====
-- The list of names that the client sends.
use eessh.Prelude.{
  ℕ, ◌+◌, ◌<◌, All, ◌≡◌, List, [], ◌∷◌, ◌++◌, Bool, true, false, length, ok, ◌>>=◌, arith,
}
use eessh.Buffer.{Buffer, Allocator, size_mod, contents, clear}
use eessh.Buffer.Valid.{IsValid, Ample}
use eessh.Buffer.Writes.{Writes, Wrote, Writes-then, write_u8-Writes, append_data-Writes}
use eessh.Message.{pure-Writes}
use eessh.Algorithms.{Row, names_of, append_names, get_supported_algos}

-- RFC 4251 name lists: the names, separated by commas
abbrev pub comma_names : Bool → List (List ℕ) → List ℕ
comma_names first [] = []
comma_names true (x ∷ xs) = x ++ comma_names false xs
comma_names false (x ∷ xs) = (44 ∷ x) ++ comma_names false xs

-- Names that are not empty, and short enough to be lengths of memory.
abbrev pub Fit : List (List ℕ) → Type 0
Fit names = All (λ x. (0 < length x) × (length x < size_mod)) names

append_names-Writes :
    (a : Allocator) (first : Bool) (names : List (List ℕ))
    → Fit names
    → Writes a (comma_names first names) (append_names a first names)
unfolding append_names
append_names-Writes a true [] h = pure-Writes a
append_names-Writes a false [] h = pure-Writes a
append_names-Writes a true (x ∷ xs) h =
    Writes-then a (append_data-Writes a x h.0.0 h.0.1) (append_names-Writes a false xs h.1)
append_names-Writes a false (x ∷ xs) h =
    Writes-then a (Writes-then a (write_u8-Writes a 44) (append_data-Writes a x h.0.0 h.0.1))
      (append_names-Writes a false xs h.1)

-- In a valid buffer the list of names replaces what was there, or memory runs out; with ample
-- memory it succeeds.
get_supported_algos_lem :
    {T : Type 0} (a : Allocator) (rows : List (Row T)) (b : Buffer)
    → IsValid b
    → Fit (names_of rows)
    → IsValid (get_supported_algos a rows b).1
      × ((get_supported_algos a rows b).0 ≡ ok tt
          → contents (get_supported_algos a rows b).1 ≡ comma_names true (names_of rows))
      × (Ample a (0 + length (comma_names true (names_of rows)))
          → (get_supported_algos a rows b).0 ≡ ok tt)
unfolding get_supported_algos ◌>>=◌ clear
get_supported_algos_lem a rows b v h = (w.valid, w.appends, λ m. ws.succeeds (clear b) cleared m)
  where
    cleared : IsValid (clear b)
    cleared = record { allocated = v.allocated; within = omega arith; sized = v.sized }

    ws : Writes a (comma_names true (names_of rows)) (append_names a true (names_of rows))
    ws = append_names-Writes a true (names_of rows) h

    w :
        Wrote
          (comma_names true (names_of rows))
          (clear b)
          (append_names a true (names_of rows) (clear b))
    w = ws.step (clear b) cleared
