-- ===== src/Terminal/Reads.antt =====
-- Reading from the terminal loses and makes up no byte.
use eessh.Prelude.{
  ℕ, zero, suc, ◌+◌, ◌-◌, ◌≤◌, ◌<◌, ◌≡◌, refl, sym, ◌∙◌, ap, List, [], ◌∷◌, ◌++◌, append_assoc,
  take, drop, length, length-append, length-take, take-append-drop, ltb, ltb→lt, ltb-false→le,
  Bool-cases, inl, inr, Status, Result, ok, fail, ok_injective, failed_not_ok, ◌>>=◌, arith, subst,
}
use eessh.Network.{ReadEvent, chunk}
use eessh.Network.Read.{pending}
use eessh.Buffer.{Buffer, Allocator, contents, size_mod}
use eessh.Buffer.Valid.{IsValid, Grown, grow_cases}
use eessh.Buffer.Writes.{put-IsValid, contents-put}
use eessh.Stream.{Crypto}
use eessh.Terminal.{Console, read_loop, read_typed, read_stdin, count_of}

-- What a loop has kept of the pending bytes, also when it ends with an error
record Kept (es : List ReadEvent) (n : ℕ) (got : List ℕ) (out : Status × List ℕ × List ReadEvent)
    : Type 0 where
  bytes : out.1 ++ pending out.2 ≡ got ++ pending es
  bound : length out.1 ≤ length got + n

read_loop-Kept : (es : List ReadEvent) (n : ℕ) (got : List ℕ) → Kept es n got (read_loop es n got)
unfolding read_loop
read_loop-Kept [] n got = record { bytes = refl; bound = omega arith }
read_loop-Kept (ReadEvent.interrupted ∷ es) zero got = record { bytes = refl; bound = omega arith }
read_loop-Kept (ReadEvent.interrupted ∷ es) (suc n) got =
    let h = read_loop-Kept es (suc n) got in record { bytes = h.bytes; bound = h.bound }
read_loop-Kept (ReadEvent.again ∷ es) zero got = record { bytes = refl; bound = omega arith }
read_loop-Kept (ReadEvent.again ∷ es) (suc n) got = record { bytes = refl; bound = omega arith }
read_loop-Kept (ReadEvent.broken ∷ es) zero got = record { bytes = refl; bound = omega arith }
read_loop-Kept (ReadEvent.broken ∷ es) (suc n) got = record { bytes = refl; bound = omega arith }
read_loop-Kept (chunk [] ∷ es) zero got = record { bytes = refl; bound = omega arith }
read_loop-Kept (chunk [] ∷ es) (suc n) got = record { bytes = refl; bound = omega arith }
read_loop-Kept (chunk (y ∷ ys) ∷ es) zero got = record { bytes = refl; bound = omega arith }
read_loop-Kept (chunk (y ∷ ys) ∷ es) (suc n) got =
    elim (Bool-cases (ltb (suc n) (length (y ∷ ys)))) [
      | inl short ↦ rw short (cut_short (ltb→lt _ _ short))
      | inr whole ↦ rw whole (
          joined _ (ltb-false→le _ _ whole)
            (read_loop-Kept es (suc n - length (y ∷ ys)) (got ++ y ∷ ys)))
    ]
  where
    cut_short :
        suc n < length (y ∷ ys)
        → Kept
            (chunk (y ∷ ys) ∷ es)
            (suc n)
            got
            (ok tt, got ++ y ∷ take n ys, chunk (drop n ys) ∷ es)
    cut_short h = record {
      bytes =
          append_assoc got (y ∷ take n ys) (drop n ys ++ pending es)
          ∙ ap (λ zs. got ++ y ∷ zs)
              (sym (append_assoc (take n ys) (drop n ys) (pending es))
                ∙ ap (λ zs. zs ++ pending es) (take-append-drop n ys));
      bound = omega (arith, length-append got (y ∷ take n ys), length-take n ys);
    }

    joined :
        (out : Status × List ℕ × List ReadEvent)
        → length (y ∷ ys) ≤ suc n
        → Kept es (suc n - length (y ∷ ys)) (got ++ y ∷ ys) out
        → Kept (chunk (y ∷ ys) ∷ es) (suc n) got out
    joined out h r = record {
      bytes = r.bytes ∙ append_assoc got (y ∷ ys) (pending es);
      bound = omega (arith, h, r.bound, length-append got (y ∷ ys));
    }

-- What a successful read has put into the buffer: the next bytes that were typed.
pub record Took (k : Crypto) (s : Console k) (n : ℕ) (s' : Console k) : Type 0 where
  pub got : List ℕ
  pub counted : n ≡ length got
  pub typed : got ++ pending s'.typed ≡ pending s.typed
  pub valid : IsValid s'.stdin_buf
  pub held : contents s'.stdin_buf ≡ contents s.stdin_buf ++ got
  pub seat : s'.seat ≡ s.seat

module _ (k : Crypto) (a : Allocator) where
  read_typed-Took :
      (len : ℕ) (s : Console k) (b : Buffer) {n : ℕ} {s' : Console k}
      → Grown len s.stdin_buf b
      → read_typed k a len (record s { stdin_buf = b }) ≡ (ok n, s')
      → Took k s n s'
  read_typed-Took len s b {n} {s'} g h =
      subst (Took k s n) (ap (λ (p : Result ℕ × Console k). p.1) h) (record {
        got = got;
        counted = counted _ (ap (λ (p : Result ℕ × Console k). p.0) h);
        typed = kept.bytes;
        valid = put-IsValid got b g.valid fits;
        held =
            contents-put got b g.valid fits
            ∙ ap (λ xs. xs ++ got) (ap (λ m. take m b.mem) g.same_len ∙ g.same);
        seat = refl;
      })
    where
      got : List ℕ
      got = (read_loop s.typed len []).1

      kept : Kept s.typed len [] (read_loop s.typed len [])
      kept = read_loop-Kept s.typed len []

      fits : b.len + length got ≤ b.cap
      fits = omega (arith, kept.bound, g.room, g.same_len)

      counted : (r : Status) → count_of k a r (length got) ≡ ok n → n ≡ length got
      counted (ok _) e = sym (ok_injective e)
      counted (fail e') e = cc

  pub read_stdin-Took :
      (len : ℕ) (s : Console k) {n : ℕ} {s' : Console k}
      → IsValid s.stdin_buf
      → len < size_mod
      → read_stdin k a len s ≡ (ok n, s')
      → Took k s n s'
  unfolding read_stdin ◌>>=◌
  read_stdin-Took len s v l h = elim (grow_cases a len s.stdin_buf v l) [
    | inl (b, e, g) ↦ read_typed-Took len s b g (rw e at h)
    | inr (x, e) ↦ absurd (failed_not_ok (rw e at h))
  ]
