-- ===== src/Stream/Padding.antt =====
-- The padding that finishes a packet.
use eessh.Prelude.{
  ℕ, ◌+◌, ◌-◌, ◌%◌, ◌≤◌, ◌<◌, ◌≡◌, arith, ltb, if◌then◌else◌, sym, inl, inr, Bool-cases, ltb→lt,
  ltb-false→le, ◌∙◌, ap,
}
use native.Mathlib.Nat.{mod-lt, mod-add-mod, mod_self, add-mod_right, mod-eq_of_lt}
use eessh.Stream.{calc_pad_len}

-- The number of bytes up to the next multiple of `bs`.
abbrev gap : ℕ → ℕ → ℕ
gap len bs = bs - len % bs

gap_aligns : (len bs : ℕ) → 0 < bs → (len + gap len bs) % bs ≡ 0
gap_aligns len bs h =
    sym (mod-add-mod len bs (gap len bs))
    ∙ ap (λ n. n % bs) {x = len % bs + gap len bs} {y = bs} (omega (arith, mod-lt len h))
    ∙ mod_self bs

two_gaps : (len bs : ℕ) → 0 < bs → (len + (gap len bs + bs)) % bs ≡ 0
two_gaps len bs h =
    ap (λ n. n % bs) {x = len + (gap len bs + bs)} {y = len + gap len bs + bs} (omega arith)
    ∙ add-mod_right (len + gap len bs) bs
    ∙ gap_aligns len bs h

-- The block that a packet is padded to.
abbrev pub block_of : ℕ → ℕ
block_of block = if ltb block 8 then 8 else block

-- At least four bytes of padding bring the length to a multiple of the block, which is eight at
-- least, and fewer would not do; for blocks up to 252 bytes nothing wraps.
pub calc_pad_len_lem :
    (len block : ℕ)
    → block ≤ 252
    → (4 ≤ calc_pad_len len block)
      × (calc_pad_len len block < 4 + block_of block)
      × ((len + calc_pad_len len block) % block_of block ≡ 0)
unfolding calc_pad_len
calc_pad_len_lem len block h = elim (Bool-cases (ltb (gap len bs) 4)) [
  | inl short ↦
      rw (small, short, wide (ltb→lt _ _ short))
        (omega (arith, bounds), omega (arith, ltb→lt _ _ short), two_gaps len bs pos)
  | inr long ↦ rw (small, long) (ltb-false→le _ _ long, omega arith, gap_aligns len bs pos)
]
  where
    bs : ℕ
    bs = block_of block

    bounds : (8 ≤ bs) × (bs ≤ 252)
    bounds = ground arith

    pos : 0 < bs
    pos = omega (arith, bounds)

    small : gap len bs % 256 ≡ gap len bs
    small = mod-eq_of_lt (omega (arith, bounds))

    wide : gap len bs < 4 → (gap len bs + bs) % 256 ≡ gap len bs + bs
    wide g = mod-eq_of_lt (omega (arith, bounds, g))
