-- ===== src/Terminal/Output.antt =====
-- What the server sends is shown, or waits to be shown.
use eessh.Prelude.{
  ℕ, zero, suc, ◌+◌, ◌-◌, ◌^◌, ◌≤◌, ◌<◌, ◌≡◌, refl, ◌∙◌, ap, List, [], ◌∷◌, ◌++◌, append_assoc,
  take, drop, length, length-take, length-append, take-append-drop, ltb, Status, ok, arith,
  if◌then◌else◌, Bool, true, false,
}
use eessh.Buffer.{Buffer, contents, remove_data}
use eessh.Buffer.Valid.{IsValid}
use eessh.Buffer.Writes.{length-contents}
use eessh.Buffer.Remove.{remove_data_ok, remove_data_fail}
use eessh.Network.{WriteEvent, room}
use eessh.Terminal.{write_loop}

-- What a loop over an output has kept of the buffer's bytes, also when it ends with an error
pub record Shown (b : Buffer) (out : List ℕ) (res : Status × Buffer × List ℕ × List WriteEvent)
    : Type 0 where
  pub valid : IsValid res.1
  pub bytes : res.2 ++ contents res.1 ≡ out ++ contents b

same :
    (b : Buffer) (out : List ℕ) (r : Status) (es : List WriteEvent)
    → IsValid b
    → Shown b out (r, b, out, es)
same b out r es v = record { valid = v; bytes = refl }

Shown-if :
    (t : Bool) {b : Buffer} {out : List ℕ} {x y : Status × Buffer × List ℕ × List WriteEvent}
    → Shown b out x
    → Shown b out y
    → Shown b out (if t then x else y)
Shown-if true h g = h
Shown-if false h g = g

-- One call of `write` that takes `n` bytes, and the removal of what it took
after_write :
    (n : ℕ) (b : Buffer) (out : List ℕ)
    → IsValid b
    → ((remove_data 0 (length (take n (contents b))) b).0 ≡ ok tt)
      × IsValid (remove_data 0 (length (take n (contents b))) b).1
      × ((out ++ take n (contents b)) ++ contents (remove_data 0 (length (take n (contents b))) b).1
          ≡ out ++ contents b)
after_write n b out v =
    let (done, valid, cut) =
      remove_data_ok 0 (length (take n (contents b))) v
        (omega (arith, length-take n (contents b), length-contents v)) in
    (
      done,
      valid,
      append_assoc out (take n (contents b)) _
          ∙ ap (λ ys. out ++ ys)
              (ap (λ ys. take n (contents b) ++ ys) (cut ∙ rest n (contents b))
                ∙ take-append-drop n (contents b)),
    )
  where
    rest : (n : ℕ) (xs : List ℕ) → drop (0 + length (take n xs)) xs ≡ drop n xs
    rest zero xs = ap (λ m. drop m xs) {x = 0 + 0} {y = 0} (omega arith)
    rest (suc n) [] = ap (λ m. drop m []) {x = 0 + 0} {y = 0} (omega arith)
    rest (suc n) (x ∷ xs) =
        ap (λ m. drop m (x ∷ xs)) {x = 0 + suc (length (take n xs))}
          {y = suc (0 + length (take n xs))} (omega arith)
        ∙ rest n xs

smaller :
    {b b' : Buffer} (out w : List ℕ)
    → IsValid b
    → IsValid b'
    → (out ++ w) ++ contents b' ≡ out ++ contents b
    → b'.len ≤ b.len
smaller {b} {b'} out w v v' e = omega (
  arith,
  ap length e,
  length-append (out ++ w) (contents b'),
  length-append out w,
  length-append out (contents b),
  length-contents v,
  length-contents v',
)

-- No allocation reaches the last size_t.
abbrev pub IsSmall : Buffer → Type 0
IsSmall b = b.len < 2 ^ 64 - 1

pub write_loop-Shown :
    (es : List WriteEvent) (b : Buffer) (out : List ℕ)
    → IsValid b
    → IsSmall b
    → Shown b out (write_loop es b out)
unfolding write_loop
write_loop-Shown [] b out v l = same b out _ _ v
write_loop-Shown (WriteEvent.interrupted ∷ es) b out v l =
    Shown-if (ltb 0 b.len) (write_loop-Shown es b out v l) (same b out _ _ v)
write_loop-Shown (WriteEvent.again ∷ es) b out v l =
    Shown-if (ltb 0 b.len) (same b out _ _ v) (same b out _ _ v)
write_loop-Shown (WriteEvent.broken ∷ es) b out v l =
    rw (remove_data_fail 0 (2 ^ 64 - 1) v (omega arith) (omega arith) (omega arith))
      (Shown-if (ltb 0 b.len) (same b out _ _ v) (same b out _ _ v))
write_loop-Shown (room zero ∷ es) b out v l =
    Shown-if (ltb 0 b.len) (same b out _ _ v) (same b out _ _ v)
write_loop-Shown (room (suc n) ∷ es) b out v l =
    let (done, valid, kept) = after_write (suc n) b out v in
    let w = take (suc n) (contents b) in
    let later =
      write_loop-Shown es (remove_data 0 (length w) b).1 (out ++ w) valid
        (omega (arith, smaller out w v valid kept)) in
    rw done (
      Shown-if (ltb 0 b.len) (record { valid = later.valid; bytes = later.bytes ∙ kept })
        (same b out _ _ v))
