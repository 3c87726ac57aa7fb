-- ===== src/Buffer/Writes.antt =====
-- What the functions that fill a buffer do, seen from their callers: they append bytes to its
-- contents. Callers chain such facts and never look at the allocation.
use eessh.Prelude.{
  ℕ, ◌+◌, ◌/◌, ◌%◌, ◌^◌, ◌≤◌, ◌<◌, ◌≡◌, refl, ◌∙◌, ap, inl, inr, List, ◌∷◌, [], ◌++◌, append_assoc,
  arith, length, take, blit, length-blit, length-append, length-take, take-blit, blit-append,
  proceed, true, ◌==◌, ==→eq, ne→==-false, Bool-cases, Error, Status, ok, fail, Act, ◌>>=◌, ◌>>◌,
}
use eessh.Buffer.{
  Buffer, Allocator, size_mod, add_size, contents, grow, get_write_pointer, push, write_u8,
  write_u32, append_data, write_data,
}
use eessh.Buffer.Valid.{IsValid, Grown, grow_cases, Ample, grow_succeeds}

-- The big-endian bytes of a 32-bit number.
abbrev pub u32_bytes : ℕ → List ℕ
u32_bytes v = (v / 2 ^ 24 % 256) ∷ (v / 2 ^ 16 % 256) ∷ (v / 2 ^ 8 % 256) ∷ (v % 256) ∷ []

-- The wire form of a string: its length, then its bytes.
abbrev pub string_bytes : List ℕ → List ℕ
string_bytes xs = u32_bytes (length xs % 2 ^ 32) ++ xs

pub length-contents : {b : Buffer} → IsValid b → length (contents b) ≡ b.len
length-contents {b} v = length-take b.len b.mem ∙ omega arith

-- What a call that is to append `xs` has done to a valid buffer.
pub record Wrote (xs : List ℕ) (b : Buffer) (out : Status × Buffer) : Type 0 where
  pub valid : IsValid out.1
  pub appends : out.0 ≡ ok tt → contents out.1 ≡ contents b ++ xs

-- `m` appends `xs` or fails; either way the buffer stays valid, and with ample memory it succeeds.
pub record Writes (a : Allocator) (xs : List ℕ) (m : Act Buffer Unit) : Type 0 where
  pub step : (b : Buffer) → IsValid b → Wrote xs b (m b)
  pub succeeds : (b : Buffer) → IsValid b → Ample a (b.len + length xs) → (m b).0 ≡ ok tt

-- The stores of the source: bytes at the fill level, which moves past them.
abbrev pub put : List ℕ → Buffer → Buffer
put xs b = record b { mem = blit b.mem b.len xs; len = add_size b.len (length xs) }

pub put-IsValid :
    (xs : List ℕ) (b : Buffer) → IsValid b → b.len + length xs ≤ b.cap → IsValid (put xs b)
put-IsValid xs b v h = record {
  allocated = length-blit b.mem b.len xs ∙ v.allocated;
  within = omega arith;
  sized = v.sized;
}

pub contents-put :
    (xs : List ℕ) (b : Buffer)
    → IsValid b
    → b.len + length xs ≤ b.cap
    → contents (put xs b) ≡ contents b ++ xs
contents-put xs b v h =
    take-blit b.mem b.len (add_size b.len (length xs)) xs (omega arith) (omega arith)

put-Wrote : (xs : List ℕ) {b b' : Buffer} → Grown (length xs) b b' → Wrote xs b (ok tt, put xs b')
put-Wrote xs {b} {b'} g = record {
  valid = put-IsValid xs b' g.valid (omega arith);
  appends = λ _.
      contents-put xs b' g.valid (omega arith)
      ∙ ap (λ ys. ys ++ xs) (ap (λ n. take n b'.mem) g.same_len ∙ g.same);
}

fail-Wrote : (xs : List ℕ) {b : Buffer} (e : Error) → IsValid b → Wrote xs b (fail e, b)
fail-Wrote xs e v = record { valid = v; appends = λ p. cc }

-- A call that grows the buffer by the size of `xs` and then stores `xs`.
module _ (a : Allocator) (xs : List ℕ) (m : Act Buffer Unit) where
  put-Writes :
      length xs < size_mod
      → ((b b' : Buffer)
          → grow a (length xs) b ≡ (ok tt, b')
          → Grown (length xs) b b'
          → m b ≡ (ok tt, put xs b'))
      → ((b : Buffer) (e : Error) → grow a (length xs) b ≡ (fail e, b) → m b ≡ (fail e, b))
      → Writes a xs m
  put-Writes h good bad = record {
    step = λ b v. elim (grow_cases a (length xs) b v h) [
      | inl (b', e, g) ↦ rw (good b b' e g) (put-Wrote xs g)
      | inr (e, p) ↦ rw (bad b e p) (fail-Wrote xs e v)
    ];
    succeeds = λ b v room.
        let (b', e, g) = grow_succeeds a (length xs) b v room in
        ap (λ (r : Status × Buffer). r.0) (good b b' e g);
  }

-- A buffer without an allocation holds nothing.
nothing_held :
    (c : Buffer) (n : ℕ)
    → IsValid c
    → c.len + n ≤ c.cap
    → c.cap == 0 ≡ true
    → IsValid (record c { len = add_size c.len n })
nothing_held c n v h e = record {
  allocated = v.allocated;
  within = omega (arith, h, ==→eq c.cap 0 e);
  sized = v.sized;
}

push-one : (x : ℕ) (b : Buffer) → push x b ≡ put (x ∷ []) b
unfolding push
push-one x b = refl

push-put :
    (x : ℕ) (xs : List ℕ) (b : Buffer)
    → b.len + length xs + 1 < size_mod
    → push x (put xs b) ≡ put (xs ++ x ∷ []) b
unfolding push
push-put x xs b h = λ i. record b {
  mem = blit-append b.mem b.len (add_size b.len (length xs)) xs (x ∷ []) (omega arith) i;
  len = len-put i;
}
  where
    len-put : add_size (add_size b.len (length xs)) 1 ≡ add_size b.len (length (xs ++ x ∷ []))
    len-put = omega (arith, length-append xs (x ∷ []))

-- Four stores in a row are one store of four bytes.
push_four :
    (w x y z : ℕ) (b : Buffer)
    → b.len + 4 < size_mod
    → push z (push y (push x (push w b))) ≡ put (w ∷ x ∷ y ∷ z ∷ []) b
push_four w x y z b h =
    ap (λ c. push z (push y (push x c))) (push-one w b)
    ∙ ap (λ c. push z (push y c)) (push-put x (w ∷ []) b (omega arith))
    ∙ ap (push z) (push-put y (w ∷ x ∷ []) b (omega arith))
    ∙ push-put z (w ∷ x ∷ y ∷ []) b (omega arith)

module _ (a : Allocator) where
  pub write_u8-Writes : (v : ℕ) → Writes a (v ∷ []) (write_u8 a v)
  unfolding write_u8 ◌>>=◌ push
  write_u8-Writes v =
      put-Writes a (v ∷ []) (write_u8 a v) (omega arith) (λ b b' e g. rw e) (λ b e p. rw p)

  pub append_data-Wrote :
      (xs : List ℕ)
      → length xs < size_mod
      → (b : Buffer) → IsValid b
      → Wrote xs b (append_data a xs b)
  unfolding append_data get_write_pointer ◌>>=◌
  append_data-Wrote xs h b v = elim (grow_cases a (length xs) b v h) [
    | inr (e, p) ↦ rw p (fail-Wrote xs e v)
    | inl (c, e, g) ↦ elim (Bool-cases (c.cap == 0)) [
      | inr some ↦ rw (e, some) (put-Wrote xs g)
      | inl none ↦
          rw (e, none)
            (record {
              valid = nothing_held c (length xs) g.valid (omega (arith, g.room, g.same_len)) none;
              appends = λ p. cc;
            })
    ]
  ]

  -- It succeeds, if it leaves something in the buffer.
  pub append_data_ok :
      (xs : List ℕ) (b : Buffer)
      → IsValid b
      → 0 < b.len + length xs
      → Ample a (b.len + length xs)
      → (append_data a xs b).0 ≡ ok tt
  unfolding append_data get_write_pointer ◌>>=◌
  append_data_ok xs b v n room =
      let (c, e, g) = grow_succeeds a (length xs) b v room in
      rw (e, ne→==-false c.cap 0 (λ q. omega (arith, q, n, g.room))) refl

  pub append_data-Writes :
      (xs : List ℕ) → 0 < length xs → length xs < size_mod → Writes a xs (append_data a xs)
  append_data-Writes xs n h = record {
    step = append_data-Wrote xs h;
    succeeds = λ b v room. append_data_ok xs b v (omega arith) room;
  }

  pub write_u32-Writes : (v : ℕ) → Writes a (u32_bytes v) (write_u32 a v)
  unfolding write_u32 ◌>>=◌
  write_u32-Writes v =
      put-Writes a (u32_bytes v) (write_u32 a v) (omega arith)
        (λ b b' e g. rw e (ap (λ c. (ok tt, c)) (push_four _ _ _ _ b' (omega arith))))
        (λ b e p. rw p)

pub Wrote-len :
    {xs : List ℕ} {b : Buffer} {out : Status × Buffer}
    → IsValid b
    → Wrote xs b out
    → out.0 ≡ ok tt
    → out.1.len ≡ b.len + length xs
Wrote-len {xs} {b} {out} v w e = omega (
  arith,
  length-contents v,
  length-contents w.valid,
  ap length (w.appends e),
  length-append (contents b) xs,
)

proceed-Wrote :
    (xs ys : List ℕ) (n : Act Buffer Unit) (b : Buffer) (r : Status) (s : Buffer)
    → Wrote xs b (r, s)
    → ((b' : Buffer) → IsValid b' → Wrote ys b' (n b'))
    → Wrote (xs ++ ys) b (proceed r s (λ _. n))
proceed-Wrote xs ys n b (ok u) s first second =
    let w = second s first.valid in
    record {
      valid = w.valid;
      appends = λ e.
          w.appends e ∙ ap (λ zs. zs ++ ys) (first.appends refl) ∙ append_assoc (contents b) xs ys;
    }
proceed-Wrote xs ys n b (fail e) s first second = record { valid = first.valid; appends = λ p. cc }

proceed_ok :
    (n : Act Buffer Unit) (r : Status) (s : Buffer)
    → r ≡ ok tt
    → (n s).0 ≡ ok tt
    → (proceed r s (λ _. n)).0 ≡ ok tt
proceed_ok n (ok u) s p q = q
proceed_ok n (fail e) s p q = cc

-- One call after another appends the one's bytes and then the other's.
module _ (a : Allocator) {xs ys : List ℕ} {m n : Act Buffer Unit} where
  pub Writes-then : Writes a xs m → Writes a ys n → Writes a (xs ++ ys) (m >> n)
  unfolding ◌>>=◌
  Writes-then first second = record {
    step = λ b v. proceed-Wrote xs ys n b (m b).0 (m b).1 (first.step b v) second.step;
    succeeds = λ b v room.
        let once = first.succeeds b v (smaller b room) in
        let w = first.step b v in
        proceed_ok n (m b).0 (m b).1 once
          (second.succeeds (m b).1 w.valid (rest b room (m b).1.len (Wrote-len v w once)));
  }
    where
      smaller : (b : Buffer) → Ample a (b.len + length (xs ++ ys)) → Ample a (b.len + length xs)
      smaller b room = record {
        small = omega (arith, room.small, length-append xs ys);
        granted = λ k h. room.granted k (omega (arith, length-append xs ys));
      }

      rest :
          (b : Buffer)
          → Ample a (b.len + length (xs ++ ys))
          → (len : ℕ) → len ≡ b.len + length xs
          → Ample a (len + length ys)
      rest b room len e = record {
        small = omega (arith, room.small, length-append xs ys);
        granted = λ k h. room.granted k (omega (arith, length-append xs ys));
      }

module _ (a : Allocator) where
  -- A string on the wire is its length and its bytes.
  pub write_data-Writes :
      (xs : List ℕ) → length xs < size_mod → Writes a (string_bytes xs) (write_data a xs)
  unfolding write_data append_data ◌>>=◌
  write_data-Writes xs h = record {
    step = λ b v.
        proceed-Wrote (u32_bytes n) xs (append_data a xs) b (write_u32 a n b).0 (write_u32 a n b).1
          (front.step b v) (append_data-Wrote a xs h);
    succeeds = λ b v room.
        let once = front.succeeds b v (smaller b room) in
        let w = front.step b v in
        let len = Wrote-len v w once in
        proceed_ok (append_data a xs) (write_u32 a n b).0 (write_u32 a n b).1 once (
          append_data_ok a xs (write_u32 a n b).1 w.valid (omega (arith, len))
            (rest b room (write_u32 a n b).1.len len));
  }
    where
      n : ℕ
      n = length xs % 2 ^ 32

      front : Writes a (u32_bytes n) (write_u32 a n)
      front = write_u32-Writes a n

      smaller : (b : Buffer) → Ample a (b.len + length (string_bytes xs)) → Ample a (b.len + 4)
      smaller b room = record {
        small = omega (arith, room.small);
        granted = λ k h. room.granted k (omega arith);
      }

      rest :
          (b : Buffer)
          → Ample a (b.len + length (string_bytes xs))
          → (len : ℕ) → len ≡ b.len + 4
          → Ample a (len + length xs)
      rest b room len e = record {
        small = omega (arith, room.small);
        granted = λ k h. room.granted k (omega arith);
      }
