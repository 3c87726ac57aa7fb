-- ===== src/Stream/Checked.antt =====
-- What finish_packet makes passes the checks of verify_read_packet.
use eessh.Prelude.{
  ℕ, ◌+◌, ◌-◌, ◌%◌, ◌^◌, ◌≤◌, ◌<◌, ◌≡◌, refl, sym, ◌∙◌, ap, ap₂, subst, List, length, length-append,
  ◌⊎◌, inl, inr, ltb, ◌==◌, if◌then◌else◌, Bool-cases, false, ltb→lt, ltb-false→le, le→ltb-false,
  ne→==-false, arith,
}
use native.Mathlib.Nat.{mod-eq_of_lt}
use eessh.Buffer.{Allocator}
use eessh.Reader.{get_u32}
use eessh.Reader.Rest.{u32_of-u32_bytes}
use eessh.Stream.{Crypto, Stream, max_packet_len}
use eessh.Stream.Padding.{block_of, calc_pad_len_lem}
use eessh.Stream.Accept.{settings}
use eessh.Stream.Frame.{packet, filler_of, pad_of, IsGenerous, length-padding}
use eessh.Stream.Emit.{Tag}
use eessh.Stream.Unpack.{Good}

-- A multiple that is not 0 is not below what it is a multiple of.
pub le_of_multiple : (n len : ℕ) → 1 ≤ len → len % n ≡ 0 → n ≤ len
le_of_multiple n len h m = elim (Bool-cases (ltb len n)) [
  | inl short ↦ absurd (omega (arith, mod-eq_of_lt (ltb→lt len n short), m))
  | inr long ↦ ltb-false→le len n long
]

-- The multiple of a block that has nine bytes at least has sixteen.
sixteen : (n len : ℕ) → (n ≡ 8) ⊎ (16 ≤ n) × (n ≤ 252) → 9 ≤ len → len % n ≡ 0 → 16 ≤ len
sixteen n len (inl eight) h m =
    let m8 : len % 8 ≡ 0 = ap (λ b. len % b) (sym eight) ∙ m in omega arith
sixteen n len (inr (low, high)) h m = omega (arith, le_of_multiple n len (omega arith) m)

-- The block that packets are padded to
abbrev pub unit_of : ℕ → ℕ
unit_of n = if n == 0 then 8 else n % 256

-- The blocks of streams without and with a cipher
abbrev pub IsBlock : ℕ → Type 0
IsBlock n = (n ≡ 0) ⊎ ((n ≡ 8) ⊎ (16 ≤ n) × (n ≤ 252))

record IsAligner (n : ℕ) : Type 0 where
  padded : unit_of n ≡ block_of (n % 256)
  small : n % 256 ≤ 252
  sized : (unit_of n ≡ 8) ⊎ (16 ≤ unit_of n) × (unit_of n ≤ 252)

padded_alike : (n : ℕ) → IsBlock n → IsAligner n
padded_alike n (inl e) =
    subst IsAligner (sym e) (record { padded = refl; small = omega arith; sized = inl refl })
padded_alike n (inr (inl e)) =
    subst IsAligner (sym e) (record { padded = refl; small = omega arith; sized = inl refl })
padded_alike n (inr (inr (low, high))) = record {
  padded = rw (other, whole, le→ltb-false n 8 (omega arith)) refl;
  small = omega arith;
  sized = rw (other, whole) (inr (low, high));
}
  where
    other : (n == 0) ≡ false
    other = ne→==-false n 0 (λ e. omega (arith, e))

    whole : n % 256 ≡ n
    whole = mod-eq_of_lt (omega arith)

pub unit_of_self : (n : ℕ) → (n ≡ 8) ⊎ (16 ≤ n) × (n ≤ 252) → unit_of n ≡ n
unit_of_self n (inl e) = ap unit_of e ∙ sym e
unit_of_self n (inr (low, high)) =
    rw (ne→==-false n 0 (λ e. omega (arith, e)), mod-eq_of_lt {n = n} {m = 256} (omega arith)) refl

module _ (k : Crypto) (a : Allocator) where
  pub length-packet :
      (payload filler : List ℕ)
      → length (packet payload filler) ≡ 5 + length payload + length filler
  length-packet payload filler = omega (arith, length-append payload filler)

  announced_by :
      (payload filler : List ℕ)
      → length payload + length filler + 1 < 2 ^ 32
      → get_u32 (packet payload filler) 0 + 4 ≡ length (packet payload filler)
  unfolding get_u32
  announced_by payload filler h =
      omega (
        arith,
        u32_of-u32_bytes (length payload + length filler + 1) h,
        length-packet payload filler,
      )

  -- What finish_packet makes passes the checks of the other end.
  pub frame-Good :
      (payload tag : List ℕ) (s : Stream k)
      → IsGenerous k a
      → IsBlock s.cipher_block_len
      → s.pack.len ≡ 5 + length payload
      → length payload ≤ max_packet_len - 256
      → Tag k a s.mac s.seq_num (packet payload (filler_of k a s)) tag
      → s.mac_len ≡ length tag
      → Good k a (settings k a s) (packet payload (filler_of k a s)) tag
  frame-Good payload tag s g block l small made tag_len = record {
    announced = announced_by payload filler (omega (arith, filled, bound, pad_len));
    long =
        sixteen (unit_of s.cipher_block_len) _ unit.sized (omega (arith, total, filled, pad_len))
          aligned;
    sized = omega (arith, total, filled, bound, pad_len);
    pad = omega (arith, filled, pad_len);
    pad_within = omega (arith, total);
    aligned = aligned;
    tagged = made;
    tag_len = tag_len;
  }
    where
      filler : List ℕ
      filler = filler_of k a s

      filled : length filler ≡ pad_of k a s
      filled = length-padding k a g s (pad_of k a s)

      unit : IsAligner s.cipher_block_len
      unit = padded_alike s.cipher_block_len block

      pad_len :
          (4 ≤ pad_of k a s)
          × (pad_of k a s < 4 + block_of (s.cipher_block_len % 256))
          × ((s.pack.len % 2 ^ 32 + pad_of k a s) % block_of (s.cipher_block_len % 256) ≡ 0)
      pad_len = calc_pad_len_lem (s.pack.len % 2 ^ 32) (s.cipher_block_len % 256) unit.small

      bound : block_of (s.cipher_block_len % 256) ≤ 252
      bound = ground (arith, unit.small)

      total : length (packet payload filler) ≡ 5 + length payload + length filler
      total = length-packet payload filler

      aligned : length (packet payload filler) % unit_of s.cipher_block_len ≡ 0
      aligned =
          ap₂ (λ x y. x % y) {x = length (packet payload filler)}
            {y = s.pack.len % 2 ^ 32 + pad_of k a s} (omega (arith, total, filled, l, small))
            unit.padded
          ∙ pad_len.2
