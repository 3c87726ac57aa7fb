-- ===== src/Network/Read.antt =====
-- What `ssh_net_read` takes from the socket, however the kernel cuts it up.
use eessh.Prelude.{
  ℕ, zero, suc, ◌+◌, ◌-◌, ◌≤◌, ◌<◌, ◌≡◌, refl, sym, ◌∙◌, ap, inl, inr, List, [], ◌∷◌, ◌++◌,
  append_assoc, append-nil, arith, length, take, drop, length-append, length-take, length-drop,
  take-append_le, take-append_ge, drop-append_ge, drop-append_le, take-append-drop, ok, Bool-cases,
  ltb, ltb→lt, ltb-false→le, le→ltb-false, Result, subst, ok_injective,
}
use eessh.Network.{ReadEvent, chunk, ssize_max, read_loop, net_read}

-- The bytes that the kernel has or will have.
abbrev pub pending : List ReadEvent → List ℕ
pending [] = []
pending (chunk xs ∷ es) = xs ++ pending es
pending (_ ∷ es) = pending es

-- A socket that delivers without a pause: chunks that are not empty, and interruptions.
abbrev pub IsFlowing : List ReadEvent → Type 0
IsFlowing [] = Unit
IsFlowing (chunk xs ∷ es) = (0 < length xs) × IsFlowing es
IsFlowing (ReadEvent.interrupted ∷ es) = IsFlowing es
IsFlowing (_ ∷ es) = ⊥

-- The outcome of a read that gets the first `n` pending bytes.
pub record Reads (es : List ReadEvent) (n : ℕ) (got : List ℕ)
    (out : Result (List ℕ) × List ReadEvent) : Type 0 where
  pub bytes : out.0 ≡ ok (got ++ take n (pending es))
  pub flowing : IsFlowing out.1
  pub left : pending out.1 ≡ drop n (pending es)

read_loop-Reads :
    (es : List ReadEvent) (n : ℕ) (got : List ℕ)
    → IsFlowing es
    → n ≤ length (pending es)
    → Reads es n got (read_loop es n got)
unfolding read_loop
read_loop-Reads [] n got f h = record {
  bytes = ap ok (sym (append-nil got) ∙ ap (λ k. got ++ take k []) {x = 0} {y = n} (omega arith));
  flowing = tt;
  left = ap (λ k. drop k []) {x = 0} {y = n} (omega arith);
}
read_loop-Reads (chunk [] ∷ es) n got f h = absurd (omega arith)
read_loop-Reads (chunk (x ∷ xs) ∷ es) zero got f h = record {
  bytes = ap ok (sym (append-nil got));
  flowing = f;
  left = refl;
}
read_loop-Reads (chunk (x ∷ xs) ∷ es) (suc n) got f h =
    elim (Bool-cases (ltb (suc n) (length (x ∷ xs)))) [
      | inl short ↦
          let fits : suc n < length (x ∷ xs) = ltb→lt _ _ short in
          rw short (record {
            bytes =
                ap (λ ys. ok (got ++ ys))
                  (sym (take-append_le (suc n) (x ∷ xs) (pending es) (omega (arith, fits))));
            flowing = (omega (arith, fits, length-drop n xs), f.1);
            left = sym (drop-append_le (suc n) (x ∷ xs) (pending es) (omega (arith, fits)));
          })
      | inr whole ↦
          let fits : length (x ∷ xs) ≤ suc n = ltb-false→le _ _ whole in
          rw whole (further fits (read_loop-Reads es k (got ++ x ∷ xs) f.1 (left fits)))
    ]
  where
    k : ℕ
    k = suc n - length (x ∷ xs)

    split : length (x ∷ xs) ≤ suc n → suc n ≡ length (x ∷ xs) + k
    split fits = omega (arith, fits)

    left : length (x ∷ xs) ≤ suc n → k ≤ length (pending es)
    left fits = omega (arith, h, fits, length-append (x ∷ xs) (pending es))

    further :
        length (x ∷ xs) ≤ suc n
        → Reads es k (got ++ x ∷ xs) (read_loop es k (got ++ x ∷ xs))
        → Reads (chunk (x ∷ xs) ∷ es) (suc n) got (read_loop es k (got ++ x ∷ xs))
    further fits r = record {
      bytes =
          r.bytes
          ∙ ap ok (
              append_assoc got (x ∷ xs) (take k (pending es))
              ∙ ap (λ ys. got ++ ys)
                  (sym (take-append_ge (suc n) k (x ∷ xs) (pending es) (split fits))));
      flowing = r.flowing;
      left = r.left ∙ sym (drop-append_ge (suc n) k (x ∷ xs) (pending es) (split fits));
    }
read_loop-Reads (ReadEvent.interrupted ∷ es) zero got f h = record {
  bytes = ap ok (sym (append-nil got));
  flowing = f;
  left = refl;
}
read_loop-Reads (ReadEvent.interrupted ∷ es) (suc n) got f h =
    let r = read_loop-Reads es (suc n) got f h in
    record { bytes = r.bytes; flowing = r.flowing; left = r.left }
read_loop-Reads (ReadEvent.again ∷ es) n got f h = absurd f
read_loop-Reads (ReadEvent.broken ∷ es) n got f h = absurd f

-- From a socket that delivers without a pause `ssh_net_read` gets exactly the bytes asked for, in
-- order, however they are cut into chunks, and the rest stays in the socket.
pub net_read-Reads :
    (es : List ReadEvent) (n : ℕ)
    → IsFlowing es
    → n ≤ length (pending es)
    → n ≤ ssize_max
    → Reads es n [] (net_read es n)
unfolding net_read
net_read-Reads es n f h s = rw (le→ltb-false ssize_max n s) (read_loop-Reads es n [] f h)

-- What a loop that ends with `xs` has kept of the pending bytes.
abbrev Conserves : List ReadEvent → ℕ → List ℕ → List ReadEvent → List ℕ → Type 0
Conserves es n got es' xs = (xs ++ pending es' ≡ got ++ pending es) × (length xs ≤ length got + n)

read_loop-Conserves :
    (es : List ReadEvent) (n : ℕ) (got xs : List ℕ)
    → (read_loop es n got).0 ≡ ok xs
    → Conserves es n got (read_loop es n got).1 xs
unfolding read_loop
read_loop-Conserves [] n got xs e =
    subst (Conserves [] n got []) (ok_injective e) (refl, omega arith)
read_loop-Conserves (chunk [] ∷ es) zero got xs e =
    subst (Conserves (chunk [] ∷ es) 0 got (chunk [] ∷ es)) (ok_injective e) (refl, omega arith)
read_loop-Conserves (chunk [] ∷ es) (suc n) got xs e = cc
read_loop-Conserves (chunk (y ∷ ys) ∷ es) zero got xs e =
    subst (Conserves (chunk (y ∷ ys) ∷ es) 0 got (chunk (y ∷ ys) ∷ es)) (ok_injective e)
      (refl, omega arith)
read_loop-Conserves (chunk (y ∷ ys) ∷ es) (suc n) got xs e =
    elim (Bool-cases (ltb (suc n) (length (y ∷ ys)))) [
      | inl short ↦ rw short (
          subst (Conserves (chunk (y ∷ ys) ∷ es) (suc n) got (chunk (drop n ys) ∷ es))
            (ok_injective (rw short at e)) (cut_short (ltb→lt _ _ short)))
      | inr whole ↦ rw whole (
          joined (read_loop es (suc n - length (y ∷ ys)) (got ++ y ∷ ys)).1 (ltb-false→le _ _ whole)
            (read_loop-Conserves es (suc n - length (y ∷ ys)) (got ++ y ∷ ys) xs (rw whole at e)))
    ]
  where
    cut_short :
        suc n < length (y ∷ ys)
        → Conserves
            (chunk (y ∷ ys) ∷ es)
            (suc n)
            got
            (chunk (drop n ys) ∷ es)
            (got ++ y ∷ take n ys)
    cut_short h = (
      append_assoc got (y ∷ take n ys) (drop n ys ++ pending es)
          ∙ ap (λ zs. got ++ y ∷ zs)
              (sym (append_assoc (take n ys) (drop n ys) (pending es))
                ∙ ap (λ zs. zs ++ pending es) (take-append-drop n ys)),
      omega (arith, length-append got (y ∷ take n ys), length-take n ys),
    )

    joined :
        (es' : List ReadEvent)
        → length (y ∷ ys) ≤ suc n
        → Conserves es (suc n - length (y ∷ ys)) (got ++ y ∷ ys) es' xs
        → Conserves (chunk (y ∷ ys) ∷ es) (suc n) got es' xs
    joined es' h (kept, bound) = (
      kept ∙ append_assoc got (y ∷ ys) (pending es),
      omega (arith, h, bound, length-append got (y ∷ ys)),
    )
read_loop-Conserves (ReadEvent.interrupted ∷ es) zero got xs e =
    subst (Conserves (ReadEvent.interrupted ∷ es) 0 got (ReadEvent.interrupted ∷ es))
      (ok_injective e) (refl, omega arith)
read_loop-Conserves (ReadEvent.interrupted ∷ es) (suc n) got xs e =
    read_loop-Conserves es (suc n) got xs e
read_loop-Conserves (ReadEvent.again ∷ es) zero got xs e =
    subst (Conserves (ReadEvent.again ∷ es) 0 got (ReadEvent.again ∷ es)) (ok_injective e)
      (refl, omega arith)
read_loop-Conserves (ReadEvent.again ∷ es) (suc n) got xs e =
    subst (Conserves (ReadEvent.again ∷ es) (suc n) got es) (ok_injective e) (refl, omega arith)
read_loop-Conserves (ReadEvent.broken ∷ es) zero got xs e =
    subst (Conserves (ReadEvent.broken ∷ es) 0 got (ReadEvent.broken ∷ es)) (ok_injective e)
      (refl, omega arith)
read_loop-Conserves (ReadEvent.broken ∷ es) (suc n) got xs e = cc

-- Whatever the kernel answers, a read that succeeds has lost and made up nothing: its bytes, then
-- what is still pending, are what was pending; and it got no more than was asked for.
pub net_read_conserves :
    (es : List ReadEvent) (n : ℕ) (xs : List ℕ)
    → (net_read es n).0 ≡ ok xs
    → (xs ++ pending (net_read es n).1 ≡ pending es) × (length xs ≤ n)
unfolding net_read
net_read_conserves es n xs e = elim (Bool-cases (ltb ssize_max n)) [
  | inl large ↦ cc (large, e)
  | inr fits ↦
      let (kept, bound) = read_loop-Conserves es n [] xs (rw fits at e) in
      rw fits (kept, omega (arith, bound))
]
