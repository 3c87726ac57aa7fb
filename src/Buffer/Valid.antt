-- ===== src/Buffer/Valid.antt =====
-- The representation invariant of `SSH_BUFFER`, and what `ssh_buf_grow` does on each branch.
use eessh.Prelude.{
  ℕ, ◌+◌, ◌-◌, ◌*◌, ◌/◌, ◌≤◌, ◌<◌, ◌≡◌, ◌∙◌, refl, ◌⊎◌, inl, inr, ◌++◌, true, false, arith, length,
  take, replicate, length-append, length-replicate, take_of_length-le, take-append_le, Bool-cases,
  ltb, leb, Error, ok, fail, too_large, out_of_memory, ◌>>=◌, le→leb, lt→leb-false, tests,
}
use eessh.Buffer.{Buffer, Allocator, size_mod, checked_add, realloc, reallocate, grow, new}

-- The allocation has `cap` bytes, and the fill level stays inside it.
pub record IsValid (b : Buffer) : Type 0 where
  pub allocated : length b.mem ≡ b.cap
  pub within : b.len ≤ b.cap
  pub sized : b.cap < size_mod

pub new-IsValid : IsValid new
new-IsValid = omega arith

pub checked_add_ok : (a b : ℕ) → a + b < size_mod → checked_add a b ≡ ok (a + b)
unfolding checked_add
checked_add_ok a b h = ground arith

pub checked_add_fail :
    (a b : ℕ) → a < size_mod → b < size_mod → size_mod ≤ a + b → checked_add a b ≡ fail too_large
unfolding checked_add
checked_add_fail a b ha hb h = ground arith

-- Which sums pass the overflow check.
pub checked_add_cases :
    (a b : ℕ)
    → a < size_mod
    → b < size_mod
    → (a + b < size_mod) × (checked_add a b ≡ ok (a + b))
      ⊎ (size_mod ≤ a + b) × (checked_add a b ≡ fail too_large)
checked_add_cases a b ha hb = elim (Bool-cases (ltb (a + b) size_mod)) [
  | inl p ↦ inl (omega tests, checked_add_ok a b (omega tests))
  | inr p ↦ inr (omega tests, checked_add_fail a b ha hb (omega tests))
]

-- The buffer after a successful growth: the same bytes, and room for `n` more.
pub record Grown (n : ℕ) (b b' : Buffer) : Type 0 where
  pub valid : IsValid b'
  pub same_len : b'.len ≡ b.len
  pub same : take b.len b'.mem ≡ take b.len b.mem
  pub room : b.len + n ≤ b'.cap

abbrev pub rounded_cap : ℕ → ℕ
rounded_cap wanted = (wanted + 257) / 256 * 256

abbrev pub moved : Allocator → ℕ → Buffer → Buffer
moved a new_cap b = record b {
  mem = take new_cap b.mem ++ replicate (new_cap - length b.mem) a.junk;
  cap = new_cap;
}

reallocate_ok :
    (a : Allocator) (wanted : ℕ) (b : Buffer)
    → wanted + 257 < size_mod
    → a.grants (rounded_cap wanted) ≡ true
    → reallocate a wanted b ≡ (ok tt, moved a (rounded_cap wanted) b)
unfolding ◌>>=◌ reallocate realloc
reallocate_ok a wanted b h g = rw (checked_add_ok wanted 257 h, g)

reallocate_refused :
    (a : Allocator) (wanted : ℕ) (b : Buffer)
    → wanted + 257 < size_mod
    → a.grants (rounded_cap wanted) ≡ false
    → reallocate a wanted b ≡ (fail out_of_memory, b)
unfolding ◌>>=◌ reallocate realloc
reallocate_refused a wanted b h g = rw (checked_add_ok wanted 257 h, g)

reallocate_overflow :
    (a : Allocator) (wanted : ℕ) (b : Buffer)
    → wanted < size_mod
    → size_mod ≤ wanted + 257
    → reallocate a wanted b ≡ (fail too_large, b)
unfolding ◌>>=◌ reallocate
reallocate_overflow a wanted b hw h = rw (checked_add_fail wanted 257 hw (omega arith) h)

moved-Grown :
    (a : Allocator) (n : ℕ) (b : Buffer)
    → IsValid b
    → b.len + n + 257 < size_mod
    → b.cap < b.len + n
    → Grown n b (moved a (rounded_cap (b.len + n)) b)
moved-Grown a n b v h c = record {
  valid = record { allocated = alloc; within = omega arith; sized = omega arith };
  same_len = refl;
  same = rw whole (take-append_le b.len b.mem _ (omega arith));
  room = omega arith;
}
  where
    whole : take (rounded_cap (b.len + n)) b.mem ≡ b.mem
    whole = take_of_length-le (rounded_cap (b.len + n)) b.mem (omega arith)

    alloc : length (moved a (rounded_cap (b.len + n)) b).mem ≡ rounded_cap (b.len + n)
    alloc = rw (whole, length-append, length-replicate) (omega arith)

-- The branches of `ssh_buf_grow`.
module _ (a : Allocator) (n : ℕ) (b : Buffer) where
  pub grow_kept : b.len + n < size_mod → b.len + n ≤ b.cap → grow a n b ≡ (ok tt, b)
  unfolding grow
  grow_kept h c = rw (checked_add_ok b.len n h, le→leb _ _ c)

  grow_overflow :
      b.len < size_mod → n < size_mod → size_mod ≤ b.len + n → grow a n b ≡ (fail too_large, b)
  unfolding grow
  grow_overflow hb hn h = rw (checked_add_fail b.len n hb hn h)

  grow_reallocates :
      b.len + n < size_mod → b.cap < b.len + n → grow a n b ≡ reallocate a (b.len + n) b
  unfolding grow
  grow_reallocates h c = rw (checked_add_ok b.len n h, lt→leb-false _ _ c)

  pub grow_moves :
      b.len + n + 257 < size_mod
      → b.cap < b.len + n
      → a.grants (rounded_cap (b.len + n)) ≡ true
      → grow a n b ≡ (ok tt, moved a (rounded_cap (b.len + n)) b)
  grow_moves h c g = grow_reallocates (omega arith) c ∙ reallocate_ok a (b.len + n) b h g

  -- `ssh_buf_grow` either makes room and keeps the bytes, or fails and changes nothing.
  pub grow_cases :
      IsValid b
      → n < size_mod
      → ((b' : Buffer) × (grow a n b ≡ (ok tt, b')) × Grown n b b')
        ⊎ ((e : Error) × (grow a n b ≡ (fail e, b)))
  grow_cases v hn = elim (Bool-cases (ltb (b.len + n) size_mod)) [
    | inr big ↦ inr (too_large, grow_overflow (omega arith) hn (omega tests))
    | inl small ↦ elim (Bool-cases (leb (b.len + n) b.cap)) [
      | inl kept ↦ inl (
        b,
        grow_kept (omega tests) (omega tests),
        record { valid = v; same_len = refl; same = refl; room = omega tests },
      )
      | inr more ↦ elim (Bool-cases (ltb (b.len + n + 257) size_mod)) [
        | inr big ↦ inr (
          too_large,
          grow_reallocates (omega tests) (omega tests)
              ∙ reallocate_overflow a (b.len + n) b (omega tests) (omega tests),
        )
        | inl fits ↦ elim (Bool-cases (a.grants (rounded_cap (b.len + n)))) [
          | inl granted ↦ inl (
            moved a (rounded_cap (b.len + n)) b,
            grow_moves (omega tests) (omega tests) granted,
            moved-Grown a n b v (omega tests) (omega tests),
          )
          | inr refused ↦ inr (
            out_of_memory,
            grow_reallocates (omega tests) (omega tests)
                ∙ reallocate_refused a (b.len + n) b (omega tests) refused,
          )
        ]
      ]
    ]
  ]

-- An allocator that grants what a buffer of `n` bytes can ask for, with no overflow on the way.
pub record Ample (a : Allocator) (n : ℕ) : Type 0 where
  pub small : n + 257 < size_mod
  pub granted : (k : ℕ) → k ≤ n + 257 → a.grants k ≡ true

-- Then growth succeeds.
pub grow_succeeds :
    (a : Allocator) (n : ℕ) (b : Buffer)
    → IsValid b
    → Ample a (b.len + n)
    → (b' : Buffer) × (grow a n b ≡ (ok tt, b')) × Grown n b b'
grow_succeeds a n b v m = elim (Bool-cases (leb (b.len + n) b.cap)) [
  | inl kept ↦ (
    b,
    grow_kept a n b (omega (arith, m.small)) (omega tests),
    record { valid = v; same_len = refl; same = refl; room = omega tests },
  )
  | inr more ↦ (
    moved a (rounded_cap (b.len + n)) b,
    grow_moves a n b m.small (omega tests) (m.granted _ (omega arith)),
    moved-Grown a n b v m.small (omega tests),
  )
]
