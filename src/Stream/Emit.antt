-- ===== src/Stream/Emit.antt =====
-- What finish_packet puts behind the bytes that wait: the packet, encrypted if there is a cipher,
-- and its MAC if there is one.
use eessh.Prelude.{
  ℕ, ◌^◌, ◌<◌, ◌≡◌, refl, sym, ◌∙◌, ap, subst, List, [], ◌∷◌, ◌++◌, append_assoc, append-nil,
  length, Option, none, some, Result, Status, ok, Act, modify, ◌>>=◌, >>=-eq-ok, ok_injective,
  arith,
}
use eessh.Buffer.{Buffer, Allocator, contents, get_write_pointer, size_mod}
use eessh.Buffer.Valid.{IsValid}
use eessh.Buffer.Writes.{length-contents}
use eessh.Stream.Stores.{get_write_pointer-Opened, poke-Opened}
use eessh.Stream.Frame.{packet, filler_of, IsGenerous, pad_packet-Padded}
use eessh.Stream.{
  Crypto, Stream, poke, on_enc, crypt_with, crypt_bytes, pad_packet, emit_packet, emit_mac,
  emit_tag, finish_packet,
}

module _ (k : Crypto) (a : Allocator) where
  -- The cipher of a stream on some bytes, and the cipher after it
  abbrev pub cipher_on : Option (k.CipherCtx) → List ℕ → Result (List ℕ) × Option (k.CipherCtx)
  cipher_on none xs = (ok xs, none)
  cipher_on (some ctx) xs = let (r, ctx') = k.crypt ctx xs in (r, some ctx')

  -- A cipher keeps the length.
  abbrev pub IsSteady : Type 0
  IsSteady =
      (ctx : k.CipherCtx) (xs ys : List ℕ) → (k.crypt ctx xs).0 ≡ ok ys → length ys ≡ length xs

  cipher_on-length :
      IsSteady
      → (c : Option (k.CipherCtx)) (xs ys : List ℕ) {c' : Option (k.CipherCtx)}
      → cipher_on c xs ≡ (ok ys, c')
      → length ys ≡ length xs
  cipher_on-length st none xs ys h = ap length (sym (ok_injective (λ i. (h i).0)))
  cipher_on-length st (some ctx) xs ys h = st ctx xs ys (λ i. (h i).0)

  crypt_with-ok :
      (c : Option (k.CipherCtx)) (xs out : List ℕ) (s t : Stream k)
      → c ≡ s.cipher
      → crypt_with k a c xs s ≡ (ok out, t)
      → (cipher_on c xs ≡ (ok out, t.cipher)) × (t ≡ record s { cipher = t.cipher })
  crypt_with-ok none xs out s t e h =
      let after = ap (λ (p : Result (List ℕ) × Stream k). p.1) h in
      (
        (λ i. ((h i).0, (e ∙ ap (λ (u : Stream k). u.cipher) after) i)),
        sym after ∙ ap (λ (u : Stream k). record s { cipher = u.cipher }) after,
      )
  crypt_with-ok (some ctx) xs out s t e h =
      let after = ap (λ (p : Result (List ℕ) × Stream k). p.1) h in
      (
        (λ i. ((h i).0, (h i).1.cipher)),
        sym after ∙ ap (λ (u : Stream k). record s { cipher = u.cipher }) after,
      )

  on_enc-ok :
      {A : Type 0} (m : Act Buffer A) {s t : Stream k} {x : A}
      → on_enc k a m s ≡ (ok x, t)
      → (m s.buf_enc ≡ (ok x, t.buf_enc)) × (t ≡ record s { buf_enc = t.buf_enc })
  on_enc-ok {A} m {s} {t} {x} h =
      let after = ap (λ (p : Result A × Stream k). p.1) h in
      (
        (λ i. ((h i).0, (h i).1.buf_enc)),
        sym after ∙ ap (λ (u : Stream k). record s { buf_enc = u.buf_enc }) after,
      )

  -- What emit_packet has put behind the bytes that wait
  record Emitted (s s' : Stream k) : Type 0 where
    out : List ℕ
    ciphered : cipher_on s.cipher (contents s.pack) ≡ (ok out, s'.cipher)
    valid : IsValid s'.buf_enc
    held : contents s'.buf_enc ≡ contents s.buf_enc ++ out
    rest : s' ≡ record s { buf_enc = s'.buf_enc; cipher = s'.cipher }

  emit_packet-Emitted :
      IsSteady
      → (s s' : Stream k) → IsValid s.pack
      → IsValid s.buf_enc
      → emit_packet k a s ≡ (ok tt, s')
      → Emitted s s'
  unfolding emit_packet ◌>>=◌
  emit_packet-Emitted st s s' vp v h =
      let xs = contents s.pack in
      let (p, t, e, q) =
        >>=-eq-ok (on_enc k a (get_write_pointer a s.pack.len))
          (λ p. crypt_bytes k a xs >>= λ out. on_enc k a (modify (poke p out))) {s = s} h in
      let (out, u, e2, q2) =
        >>=-eq-ok (crypt_bytes k a xs) (λ out. on_enc k a (modify (poke p out))) {s = t} q in
      let (room, rest) = on_enc-ok (get_write_pointer a s.pack.len) e in
      let (ciphered, rest2) = crypt_with-ok t.cipher xs out t u refl e2 in
      let same_cipher = ap (λ (w : Stream k). w.cipher) rest in
      let o =
        get_write_pointer-Opened a s.pack.len s.buf_enc v (omega (arith, vp.within, vp.sized))
          room in
      let stored =
        poke-Opened s.pack.len s.buf_enc p t.buf_enc out o
          (cipher_on-length st t.cipher xs out ciphered ∙ length-contents vp) in
      subst (Emitted s)
        (ap (λ (w : Stream k). record w { buf_enc = poke p out w.buf_enc }) (sym rest2)
          ∙ ap (λ (x : Status × Stream k). x.1) q2)
        (record {
          out = out;
          ciphered = ap (λ c. cipher_on c xs) (sym same_cipher) ∙ ciphered;
          valid = stored.0;
          held = stored.1;
          rest = λ i. record (rest i) { buf_enc = poke p out t.buf_enc; cipher = u.cipher };
        })

  -- The MAC that stands behind a packet
  abbrev pub Tag : Option (k.MacCtx) → ℕ → List ℕ → List ℕ → Type 0
  Tag none seq bytes tag = tag ≡ []
  Tag (some key) seq bytes tag = k.mac_compute key seq bytes ≡ ok tag

  -- A MAC has the length that the stream keeps for it.
  abbrev pub HasLength : Stream k → Type 0
  HasLength s =
      (key : k.MacCtx) (seq : ℕ) (bytes tag : List ℕ)
      → k.mac_compute key seq bytes ≡ ok tag
      → length tag ≡ s.mac_len

  -- What emit_tag has put behind
  record Tagged (m : Option (k.MacCtx)) (s s' : Stream k) : Type 0 where
    tag : List ℕ
    made : Tag m s.seq_num (contents s.pack) tag
    valid : IsValid s'.buf_enc
    held : contents s'.buf_enc ≡ contents s.buf_enc ++ tag
    rest : s' ≡ record s { buf_enc = s'.buf_enc }

  emit_mac-Tagged :
      (key : k.MacCtx) (s s' : Stream k)
      → IsValid s.buf_enc
      → HasLength s
      → s.mac_len < size_mod
      → emit_mac k a key s ≡ (ok tt, s')
      → Tagged (some key) s s'
  unfolding emit_mac ◌>>=◌
  emit_mac-Tagged key s s' v fits small h =
      let digest : Act (Stream k) (List ℕ) =
        λ u. (k.mac_compute key u.seq_num (contents u.pack), u) in
      let (p, t, e, q) =
        >>=-eq-ok (on_enc k a (get_write_pointer a s.mac_len))
          (λ p. digest >>= λ tag. on_enc k a (modify (poke p tag))) {s = s} h in
      let (tag, u, e2, q2) = >>=-eq-ok digest (λ tag. on_enc k a (modify (poke p tag))) {s = t} q in
      let (room, rest) = on_enc-ok (get_write_pointer a s.mac_len) e in
      let made : k.mac_compute key s.seq_num (contents s.pack) ≡ ok tag =
        ap (λ (w : Stream k). k.mac_compute key w.seq_num (contents w.pack)) (sym rest) ∙ λ i.
        (e2 i).0 in
      let o = get_write_pointer-Opened a s.mac_len s.buf_enc v small room in
      let stored =
        poke-Opened s.mac_len s.buf_enc p t.buf_enc tag o
          (fits key s.seq_num (contents s.pack) tag made) in
      subst (Tagged (some key) s)
        (ap (λ (w : Stream k). record w { buf_enc = poke p tag w.buf_enc }) (λ i. (e2 i).1)
          ∙ ap (λ (x : Status × Stream k). x.1) q2)
        (record {
          tag = tag;
          made = made;
          valid = stored.0;
          held = stored.1;
          rest = λ i. record (rest i) { buf_enc = poke p tag t.buf_enc };
        })

  emit_tag-Tagged :
      (m : Option (k.MacCtx)) (s s' : Stream k)
      → IsValid s.buf_enc
      → HasLength s
      → s.mac_len < size_mod
      → emit_tag k a m s ≡ (ok tt, s')
      → Tagged m s s'
  emit_tag-Tagged none s s' v fits small h =
      subst (Tagged none s) (ap (λ (x : Status × Stream k). x.1) h) (record {
        tag = [];
        made = refl;
        valid = v;
        held = sym (append-nil (contents s.buf_enc));
        rest = refl;
      })
  emit_tag-Tagged (some key) s s' v fits small h = emit_mac-Tagged key s s' v fits small h

  -- What finish_packet has made of a payload.
  pub record Framed (payload : List ℕ) (s s' : Stream k) : Type 0 where
    pub out : List ℕ
    pub tag : List ℕ
    pub packed : contents s'.pack ≡ packet payload (filler_of k a s)
    pub ciphered : cipher_on s.cipher (packet payload (filler_of k a s)) ≡ (ok out, s'.cipher)
    pub tagged : Tag s.mac s.seq_num (packet payload (filler_of k a s)) tag
    pub pack_valid : IsValid s'.pack
    pub valid : IsValid s'.buf_enc
    pub held : contents s'.buf_enc ≡ contents s.buf_enc ++ (out ++ tag)
    pub rest : s' ≡ record s { pack = s'.pack; buf_enc = s'.buf_enc; cipher = s'.cipher }

  module _ (payload : List ℕ) (s s' : Stream k) (fits : HasLength s)
      (small : s.mac_len < size_mod) where
    -- The state in front of the MAC
    abbrev sealed : Buffer → Buffer → Option (k.CipherCtx) → Stream k
    sealed b c d = record s { pack = b; buf_enc = c; cipher = d }

    Framed-tag :
        (b c : Buffer) (d : Option (k.CipherCtx)) (out : List ℕ)
        → IsValid b
        → contents b ≡ packet payload (filler_of k a s)
        → cipher_on s.cipher (contents b) ≡ (ok out, d)
        → IsValid c
        → contents c ≡ contents s.buf_enc ++ out
        → emit_tag k a s.mac (sealed b c d) ≡ (ok tt, s')
        → Framed payload s s'
    Framed-tag b c d out vb full ciphered v held h =
        let tagged = emit_tag-Tagged s.mac (sealed b c d) s' v fits small h in
        let kept = ap (λ (w : Stream k). w.cipher) (sym tagged.rest) in
        record {
          out = out;
          tag = tagged.tag;
          packed = ap (λ (w : Stream k). contents w.pack) tagged.rest ∙ full;
          ciphered = ap (cipher_on s.cipher) (sym full) ∙ ciphered ∙ λ i. (ok out, kept i);
          tagged = subst (λ xs. Tag s.mac s.seq_num xs tagged.tag) full tagged.made;
          pack_valid = subst IsValid (ap (λ (w : Stream k). w.pack) (sym tagged.rest)) vb;
          valid = tagged.valid;
          held =
              tagged.held
              ∙ ap (λ ys. ys ++ tagged.tag) held
              ∙ append_assoc (contents s.buf_enc) out tagged.tag;
          rest =
              tagged.rest
              ∙ ap (λ (w : Stream k). sealed w.pack w.buf_enc w.cipher) (sym tagged.rest);
        }

    Framed-packet :
        IsSteady
        → (b : Buffer) (s2 : Stream k) → IsValid b
        → IsValid s.buf_enc
        → contents b ≡ packet payload (filler_of k a s)
        → emit_packet k a (record s { pack = b }) ≡ (ok tt, s2)
        → emit_tag k a s2.mac s2 ≡ (ok tt, s')
        → Framed payload s s'
    Framed-packet st b s2 vb v full e h =
        let emitted = emit_packet-Emitted st (record s { pack = b }) s2 vb v e in
        Framed-tag b s2.buf_enc s2.cipher emitted.out vb full emitted.ciphered emitted.valid
          emitted.held (subst (λ (u : Stream k). emit_tag k a u.mac u ≡ (ok tt, s')) emitted.rest h)

  -- When finish_packet succeeds on a payload behind the five bytes of a new packet, it has put one
  -- frame behind the bytes that wait to be sent, and changed nothing else but the packet and the
  -- state of the cipher: the payload with both lengths and the padding, after RFC 4253, section 6, as
  -- the cipher gives it, and then the MAC of the sequence number and the plain packet. The random
  -- generator gives as many bytes as it is asked for, the cipher keeps the length, MACs have their
  -- length, the buffers are valid, and the payload is shorter than 2 GiB.
  pub finish_packet-Framed :
      IsGenerous k a
      → IsSteady
      → (payload : List ℕ) (s s' : Stream k) → HasLength s
      → s.mac_len < size_mod
      → IsValid s.pack
      → IsValid s.buf_enc
      → contents s.pack ≡ 0 ∷ 0 ∷ 0 ∷ 0 ∷ 0 ∷ payload
      → length payload < 2 ^ 31
      → finish_packet k a s ≡ (ok tt, s')
      → Framed payload s s'
  unfolding finish_packet ◌>>=◌
  finish_packet-Framed g st payload s s' fits small vp v fresh short h =
      let (_, s1, e1, h1) =
        >>=-eq-ok (pad_packet k a) (λ _. emit_packet k a >>= λ _ u. emit_tag k a u.mac u) {s = s}
          h in
      let (_, s2, e2, h2) = >>=-eq-ok (emit_packet k a) (λ _ u. emit_tag k a u.mac u) {s = s1} h1 in
      let padded = pad_packet-Padded k a g payload s vp fresh short s1 e1 in
      Framed-packet payload s s' fits small st s1.pack s2 padded.valid v padded.held
        (subst (λ u. emit_packet k a u ≡ (ok tt, s2)) padded.rest e2) h2
