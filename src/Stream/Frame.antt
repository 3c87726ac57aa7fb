-- ===== src/Stream/Frame.antt =====
-- What finish_packet puts behind the bytes that wait: the packet of RFC 4253, section 6, encrypted
-- if there is a cipher, and its MAC if there is one.
use eessh.Prelude.{
  ℕ, ◌+◌, ◌%◌, ◌^◌, ◌<◌, ◌≡◌, refl, sym, ◌∙◌, ap, ap₂, subst, List, [], ◌∷◌, ◌++◌, blit, length,
  length-replicate, replicate, Option, none, some, Result, Status, ok, Act, ◌>>=◌, >>=-eq-ok, arith,
}
use eessh.Buffer.{Buffer, Allocator, contents, get_write_pointer, sub_size}
use eessh.Buffer.Valid.{IsValid}
use eessh.Buffer.Writes.{u32_bytes, length-contents}
use eessh.Stream.Stores.{Opened, get_write_pointer-Opened, poke-Opened, poke-inside, blit-nil}
use eessh.Stream.{Crypto, Stream, calc_pad_len, poke, on_pack, padding, pad_packet}

-- The packet of a payload and a padding: its length, the length of the padding, and both
abbrev pub packet : List ℕ → List ℕ → List ℕ
packet payload filler =
    u32_bytes (length payload + length filler + 1) ++ length filler ∷ (payload ++ filler)

-- The stores of the padding and of the two lengths
packet_stored :
    (payload filler : List ℕ) (n pad : ℕ)
    → n ≡ length payload + length filler + 1
    → pad ≡ length filler
    → blit (blit ((0 ∷ 0 ∷ 0 ∷ 0 ∷ 0 ∷ payload) ++ filler) 0 (u32_bytes n)) 4 (pad ∷ [])
      ≡ packet payload filler
packet_stored payload filler n pad e g =
    ap (λ ys. u32_bytes n ++ pad ∷ ys) (blit-nil (payload ++ filler))
    ∙ ap₂ (λ x y. u32_bytes x ++ y ∷ (payload ++ filler)) e g

calc_pad_len-byte : (len block : ℕ) → calc_pad_len len block < 256
unfolding calc_pad_len
calc_pad_len-byte len block = ground arith

module _ (k : Crypto) (a : Allocator) where
  -- The padding that finish_packet chooses
  abbrev pub pad_of : Stream k → ℕ
  pad_of s = calc_pad_len (s.pack.len % 2 ^ 32) (s.cipher_block_len % 256)

  abbrev pub filler_of : Stream k → List ℕ
  filler_of s = padding k a s (pad_of s)

  -- The random generator gives as many bytes as were asked for.
  abbrev pub IsGenerous : Type 0
  IsGenerous = (n : ℕ) → length (k.random n) ≡ n

  pub length-padding : IsGenerous → (s : Stream k) (n : ℕ) → length (padding k a s n) ≡ n
  length-padding g s n = by_cipher s.cipher
    where
      by_cipher :
          (c : Option (k.CipherCtx))
          → length (elim c as (λ _. List ℕ) [ none ↦ replicate n 0xff | some _ ↦ k.random n ]) ≡ n
      by_cipher none = length-replicate n 0xff
      by_cipher (some _) = g n

  on_pack-ok :
      {A : Type 0} (m : Act Buffer A) {s t : Stream k} {x : A}
      → on_pack k a m s ≡ (ok x, t)
      → (m s.pack ≡ (ok x, t.pack)) × (t ≡ record s { pack = t.pack })
  on_pack-ok {A} m {s} {t} {x} h =
      let after = ap (λ (p : Result A × Stream k). p.1) h in
      (
        (λ i. ((h i).0, (h i).1.pack)),
        sym after ∙ ap (λ (u : Stream k). record s { pack = u.pack }) after,
      )

  abbrev filled_in : ℕ → ℕ → Stream k → Stream k
  filled_in pad p s = record s {
    pack =
        poke 4 (pad ∷ [])
          (poke 0 (u32_bytes (sub_size s.pack.len 4 % 2 ^ 32)) (poke p (padding k a s pad) s.pack));
  }

  pub record Padded (payload : List ℕ) (s s' : Stream k) : Type 0 where
    pub valid : IsValid s'.pack
    pub held : contents s'.pack ≡ packet payload (filler_of s)
    pub rest : s' ≡ record s { pack = s'.pack }

  module _ (g : IsGenerous) (payload : List ℕ) (s : Stream k) (v : IsValid s.pack)
      (fresh : contents s.pack ≡ 0 ∷ 0 ∷ 0 ∷ 0 ∷ 0 ∷ payload)
      (short : length payload < 2 ^ 31) where
    filled_in-Padded :
        (p : ℕ) (b : Buffer)
        → Opened (pad_of s) s.pack p b
        → Padded payload s (filled_in (pad_of s) p (record s { pack = b }))
    filled_in-Padded p b o =
        let filler = filler_of s in
        let n = sub_size b.len 4 % 2 ^ 32 in
        let one = poke-Opened (pad_of s) s.pack p b filler o (length-padding g s (pad_of s)) in
        let two = poke-inside 0 (u32_bytes n) (poke p filler b) one.0 in
        let three = poke-inside 4 (pad_of s ∷ []) (poke 0 (u32_bytes n) (poke p filler b)) two.0 in
        record {
          valid = three.0;
          held =
              three.1
              ∙ ap (λ ys. blit ys 4 (pad_of s ∷ []))
                  (two.1
                    ∙ ap (λ ys. blit ys 0 (u32_bytes n)) (one.1 ∙ ap (λ ys. ys ++ filler) fresh))
              ∙ packet_stored payload filler n (pad_of s) count
                  (sym (length-padding g s (pad_of s)));
          rest = refl;
        }
      where
        count : sub_size b.len 4 % 2 ^ 32 ≡ length payload + length (filler_of s) + 1
        count = omega (
          arith,
          o.len,
          ap length fresh,
          length-contents v,
          length-padding g s (pad_of s),
          calc_pad_len-byte (s.pack.len % 2 ^ 32) (s.cipher_block_len % 256),
          o.valid.within,
          o.valid.sized,
          short,
        )

    pub pad_packet-Padded : (s' : Stream k) → pad_packet k a s ≡ (ok tt, s') → Padded payload s s'
    unfolding pad_packet ◌>>=◌
    pad_packet-Padded s' h =
        let (p, t, e, q) =
          >>=-eq-ok (on_pack k a (get_write_pointer a (pad_of s)))
            (λ p u. (ok tt, filled_in (pad_of s) p u)) {s = s} h in
        let (room, rest) = on_pack-ok (get_write_pointer a (pad_of s)) e in
        let o =
          get_write_pointer-Opened a (pad_of s) s.pack v
            (omega (arith, calc_pad_len-byte (s.pack.len % 2 ^ 32) (s.cipher_block_len % 256)))
            room in
        subst (Padded payload s)
          (ap (λ u. filled_in (pad_of s) p u) (sym rest) ∙ ap (λ (x : Status × Stream k). x.1) q)
          (filled_in-Padded p t.pack o)
