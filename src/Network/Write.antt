-- ===== src/Network/Write.antt =====
-- What `ssh_net_write` has sent, however much room the kernel has.
use eessh.Prelude.{
  ℕ, zero, suc, ◌≡◌, refl, ◌∙◌, ap, List, [], ◌∷◌, ◌++◌, append_assoc, take, drop, take-append-drop,
  length, ltb, Bool-cases, inl, inr,
}
use eessh.Network.{WriteEvent, room, ssize_max, write_loop, net_write}

write_loop_prefix :
    (es : List WriteEvent) (xs sent : List ℕ)
    → (rest : List ℕ) × ((write_loop es xs sent).1 ++ rest ≡ sent ++ xs)
unfolding write_loop
write_loop_prefix es [] sent = ([], refl)
write_loop_prefix [] (x ∷ xs) sent = (x ∷ xs, refl)
write_loop_prefix (WriteEvent.interrupted ∷ es) (x ∷ xs) sent = write_loop_prefix es (x ∷ xs) sent
write_loop_prefix (WriteEvent.again ∷ es) (x ∷ xs) sent = (x ∷ xs, refl)
write_loop_prefix (WriteEvent.broken ∷ es) (x ∷ xs) sent = (x ∷ xs, refl)
write_loop_prefix (room zero ∷ es) (x ∷ xs) sent = (x ∷ xs, refl)
write_loop_prefix (room (suc n) ∷ es) (x ∷ xs) sent =
    let (rest, e) = write_loop_prefix es (drop n xs) (sent ++ x ∷ take n xs) in
    (
      rest,
      e
          ∙ append_assoc sent (x ∷ take n xs) (drop n xs)
          ∙ ap (λ ys. sent ++ x ∷ ys) (take-append-drop n xs),
    )

-- The bytes that were sent are the first ones of those that should be.
pub net_write_prefix :
    (es : List WriteEvent) (bytes : List ℕ)
    → (rest : List ℕ) × ((net_write es bytes).1 ++ rest ≡ bytes)
unfolding net_write
net_write_prefix es bytes = elim (Bool-cases (ltb ssize_max (length bytes))) [
  | inl long ↦ rw long (bytes, refl)
  | inr fits ↦ rw fits (write_loop_prefix es bytes [])
]
