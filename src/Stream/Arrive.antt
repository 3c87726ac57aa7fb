-- ===== src/Stream/Arrive.antt =====
-- A packet that arrives on a read stream, with and without a cipher, is what
-- ssh_stream_recv_packet returns.
use eessh.Prelude.{
  ℕ, ◌+◌, ◌-◌, ◌≤◌, ◌<◌, ◌≡◌, refl, sym, ◌∙◌, ap, subst, List, [], ◌++◌, append_assoc, append-nil,
  length, length-append, length-take, length-drop, take, drop, get_or, take-append-drop, Option,
  none, some, ok, ◌||◌, bad_packet_size, raise, pure, Act, ◌>>=◌, ◌>>◌, ltb, if◌then◌else◌,
  le→ltb-false, lt→ltb, arith,
}
use eessh.Buffer.{Allocator, contents}
use eessh.Buffer.Valid.{IsValid, Ample}
use eessh.Buffer.Writes.{length-contents}
use eessh.Network.{ssize_max}
use eessh.Reader.{get_u32}
use eessh.Stream.{Crypto, Stream, max_packet_len}
use eessh.Stream.Accept.{Settings, settings}
use eessh.Stream.Intake.{Holds, Leads, Leads-then, Leads-cipher, Ample-le, set_cipher_to}
use eessh.Stream.Fill.{IsIdle, Holds-set, fill_plain-Leads, fill_cipher-Leads}
use eessh.Stream.Unpack.{
  Unpacked, Good, Received, take_packet-Unpacked, accept-Received, get_or-take,
}
use eessh.Stream.Receive.{fill_buffer, take_packet, accept, recv_header, recv_body, recv_packet}

module _ (k : Crypto) (a : Allocator) (q : Settings k a) (pk tag w : List ℕ)
    (good : Good k a q pk tag) (room : Ample a (length pk + length tag)) where
  -- Once the packet and its MAC have come
  recv_body-Leads :
      (c : Option (k.CipherCtx)) (s : Stream k)
      → settings k a s ≡ q
      → Leads k a (fill_buffer k a (length pk) (length tag)) s (Holds k a q c (pk ++ tag) [] w)
      → Leads k a (recv_body k a (length pk)) s (Received k a q c pk w)
  unfolding recv_body ◌>>=◌
  recv_body-Leads c s e fill =
      let l = ap (λ (r : Settings k a). r.mac_len) e ∙ good.tag_len in
      let all =
        Leads-then k a (fill_buffer k a (length pk) s.mac_len)
          (take_packet k a (length pk) >> accept k a) s (Holds k a q c (pk ++ tag) [] w)
          (Received k a q c pk w)
          (subst (λ n. Leads k a (fill_buffer k a (length pk) n) s (Holds k a q c (pk ++ tag) [] w))
            (sym l) fill)
          (λ t ht.
            Leads-then k a (take_packet k a (length pk)) (accept k a) t (Unpacked k a q c pk tag w)
              _
              (take_packet-Unpacked k a q c pk tag w t ht good.tag_len (omega (arith, good.long))
                room)
              (λ u hu. accept-Received k a q c pk tag w u hu good)) in
      record { end = all.end; runs = all.runs; holds = all.holds }

  -- The rest of ssh_stream_recv_packet behind the header, for an announced length
  abbrev body_for : ℕ → Act (Stream k) Unit
  body_for n =
      if ltb n 12 || ltb max_packet_len n then raise bad_packet_size else recv_body k a (n + 4)

  body_for-Leads :
      (n : ℕ) (s : Stream k) (P : Stream k → Type 0)
      → n + 4 ≡ length pk
      → Leads k a (recv_body k a (length pk)) s P
      → Leads k a (body_for n) s P
  body_for-Leads n s P e h =
      rw
        (
          le→ltb-false n 12 (omega (arith, good.long)),
          le→ltb-false max_packet_len n (omega (arith, good.sized)),
        )
        (subst (λ m. Leads k a (recv_body k a m) s P) (sym e) h)

  -- The length stands in the bytes that the header has brought.
  announced :
      (n : ℕ) (s : Stream k)
      → IsValid s.buf
      → contents s.buf ≡ take n pk
      → 4 ≤ n
      → get_u32 s.buf.mem 0 + 4 ≡ length pk
  unfolding get_u32
  announced n s v e h = omega (
    arith,
    good.announced,
    at 0 (omega arith),
    at 1 (omega arith),
    at 2 (omega arith),
    at 3 (omega arith),
  )
    where
      at : (i : ℕ) → i < 4 → get_or s.buf.mem i 0 ≡ get_or pk i 0
      at i l =
          sym (
            get_or-take s.buf.len i s.buf.mem
              (omega (arith, length-contents v, ap length e, length-take n pk, good.long)))
          ∙ ap (λ xs. get_or xs i 0) e
          ∙ get_or-take n i pk (omega arith)

  -- ssh_stream_recv_packet behind a header of `n` bytes of the packet
  recv_packet-Leads :
      (n : ℕ) (c c' : Option (k.CipherCtx)) (e rest : List ℕ) (s : Stream k)
      → 4 ≤ n
      → Leads k a (recv_header k a) s (Holds k a q c (take n pk) e rest)
      → ((t : Stream k)
          → Holds k a q c (take n pk) e rest t
          → Leads k a
              (fill_buffer k a (length pk) (length tag))
              t
              (Holds k a q c' (pk ++ tag) [] w))
      → Leads k a (recv_packet k a) s (Received k a q c' pk w)
  unfolding recv_packet ◌>>=◌
  recv_packet-Leads n c c' e rest s l header fill =
      let all =
        Leads-then k a (recv_header k a) (λ u. body_for (get_u32 u.buf.mem 0) u) s
          (Holds k a q c (take n pk) e rest) (Received k a q c' pk w) header
          (λ t ht.
            let body =
              body_for-Leads (get_u32 t.buf.mem 0) t (Received k a q c' pk w)
                (announced n t ht.buf_valid ht.in_buf l)
                (recv_body-Leads c' t ht.setting (fill t ht)) in
            record { end = body.end; runs = body.runs; holds = body.holds }) in
      record { end = all.end; runs = all.runs; holds = all.holds }

  header_by :
      (m : ℕ) (s : Stream k) (P : Stream k → Type 0)
      → IsValid s.buf
      → contents s.buf ≡ []
      → 0 < m
      → Leads k a (fill_buffer k a m 0) s P
      → Leads k a (if ltb s.buf.len m then fill_buffer k a m 0 else pure tt) s P
  header_by m s P v e l h =
      rw (lt→ltb s.buf.len m (omega (arith, length-contents v, ap length e))) h

  Holds-where :
      {q : Settings k a} {c : Option (k.CipherCtx)} {p p' e w' w'' : List ℕ} {s : Stream k}
      → Holds k a q c p e w' s
      → p ≡ p'
      → w' ≡ w''
      → Holds k a q c p' e w'' s
  Holds-where {q} {c} {p} {p'} {e} {w'} {w''} {s} h f g =
      subst (λ x. Holds k a q c p' e x s) g (subst (λ x. Holds k a q c x e w' s) f h)

  fits : length pk + length tag ≤ ssize_max → (n : ℕ) → n ≤ 16 → length (take n pk) ≡ n
  fits l n h = omega (arith, length-take n pk, good.long)

  Leads-map :
      {m : Act (Stream k) Unit} {s : Stream k} {P Q : Stream k → Type 0}
      → Leads k a m s P
      → ((t : Stream k) → P t → Q t)
      → Leads k a m s Q
  Leads-map h f = record { end = h.end; runs = h.runs; holds = f h.end h.holds }

  -- A prefix in front of what follows
  cut : (n : ℕ) (xs rest : List ℕ) → xs ++ rest ≡ take n xs ++ (drop n xs ++ rest)
  cut n xs rest =
      ap (λ ys. ys ++ rest) (sym (take-append-drop n xs))
      ∙ append_assoc (take n xs) (drop n xs) rest

  pub arrives_plain :
      (s : Stream k)
      → length pk + length tag ≤ ssize_max
      → Holds k a q none [] [] (pk ++ (tag ++ w)) s
      → Leads k a (recv_packet k a) s (Received k a q none pk w)
  unfolding recv_header ◌>>=◌
  arrives_plain s small h =
      recv_packet-Leads 4 none none [] (drop 4 pk ++ (tag ++ w)) s (omega arith)
        (Leads-cipher k a (recv_header k a) s none _ h.cipher header)
        (λ t ht. Leads-cipher k a _ t none _ ht.cipher (body t ht))
    where
      four : length (take 4 pk) ≡ 4
      four = fits small 4 (omega arith)

      header :
          Leads k a
            (recv_header k a)
            (set_cipher_to k a none s)
            (Holds k a q none (take 4 pk) [] (drop 4 pk ++ (tag ++ w)))
      header =
          let run = header_by 4 (set_cipher_to k a none s) _ h.buf_valid h.in_buf (omega arith) (
            fill_plain-Leads k a q [] [] (take 4 pk) (drop 4 pk ++ (tag ++ w)) s 4 0
              (omega (arith, four)) (omega arith)
              (Holds-where (Holds-set k a h) refl (cut 4 pk (tag ++ w)))
              (Ample-le a _ _ (omega (arith, four, good.long)) room)) in
          record { end = run.end; runs = run.runs; holds = run.holds }

      body :
          (t : Stream k)
          → Holds k a q none (take 4 pk) [] (drop 4 pk ++ (tag ++ w)) t
          → Leads k a
              (fill_buffer k a (length pk) (length tag))
              (set_cipher_to k a none t)
              (Holds k a q none (pk ++ tag) [] w)
      body t ht =
          Leads-map
            (fill_plain-Leads k a q (take 4 pk) [] (drop 4 pk ++ tag) w t (length pk) (length tag)
              (omega (arith, four, length-append (drop 4 pk) tag, length-drop 4 pk, good.long))
              small (Holds-where (Holds-set k a ht) refl (sym (append_assoc (drop 4 pk) tag w)))
              (Ample-le a _ _
                (omega (arith, four, length-append (drop 4 pk) tag, length-drop 4 pk, good.long))
                room))
            (λ u hu. Holds-where hu (sym (cut 4 pk tag)) refl)

  -- With a cipher the first block and what follows it are decrypted one after the other.
  module _ (n : ℕ) (ctx d d' : k.CipherCtx) (xs ys : List ℕ) (idle : IsIdle k a)
      (block : q.block_len ≡ n) (four : 4 ≤ n) (inside : n ≤ length pk)
      (first : k.crypt ctx xs ≡ (ok (take n pk), d)) (second : k.crypt d ys ≡ (ok (drop n pk), d'))
      (xs_len : length xs ≡ n) (ys_len : length ys ≡ length pk - n)
      (small : length pk + length tag ≤ ssize_max) where
    front_len : length (take n pk) ≡ n
    front_len = omega (arith, length-take n pk, inside)

    header :
        (s : Stream k)
        → Holds k a q (some ctx) [] [] ((xs ++ ys) ++ (tag ++ w)) s
        → Leads k a
            (recv_header k a)
            (set_cipher_to k a (some ctx) s)
            (Holds k a q (some d) (take n pk) [] (ys ++ (tag ++ w)))
    unfolding recv_header ◌>>=◌
    header s h =
        let len : s.cipher_block_len ≡ n =
          ap (λ (r : Settings k a). r.block_len) h.setting ∙ block in
        let filled =
          Leads-map
            (fill_cipher-Leads k a q [] xs [] (ys ++ (tag ++ w)) (take n pk) s ctx d n 0 idle first
              (omega (arith, front_len, xs_len)) (omega (arith, xs_len)) refl
              (omega (arith, inside, small))
              (Holds-where (Holds-set k a h) refl (
                append_assoc xs ys (tag ++ w)
                ∙ ap (λ zs. zs ++ (ys ++ (tag ++ w))) (sym (append-nil xs))))
              (Ample-le a _ _ (omega (arith, inside)) room))
            (λ u hu. Holds-where hu (append-nil (take n pk)) refl) in
        let run =
          header_by s.cipher_block_len (set_cipher_to k a (some ctx) s) _ h.buf_valid h.in_buf
            (omega (arith, len, four))
            (subst
              (λ m.
                Leads k a (fill_buffer k a m 0) (set_cipher_to k a (some ctx) s)
                  (Holds k a q (some d) (take n pk) [] (ys ++ (tag ++ w))))
              (sym len) filled) in
        record { end = run.end; runs = run.runs; holds = run.holds }

    body :
        (t : Stream k)
        → Holds k a q (some d) (take n pk) [] (ys ++ (tag ++ w)) t
        → Leads k a
            (fill_buffer k a (length pk) (length tag))
            (set_cipher_to k a (some d) t)
            (Holds k a q (some d') (pk ++ tag) [] w)
    body t ht =
        Leads-map
          (fill_cipher-Leads k a q (take n pk) ys tag w (drop n pk) t d d' (length pk) (length tag)
            idle second (omega (arith, length-drop n pk, ys_len))
            (omega (arith, front_len, ys_len, inside)) refl small
            (Holds-where (Holds-set k a ht) refl (sym (append_assoc ys tag w))) room)
          (λ u hu. Holds-where hu (ap (λ zs. zs ++ tag) (take-append-drop n pk)) refl)

    pub arrives_cipher :
        (s : Stream k)
        → Holds k a q (some ctx) [] [] ((xs ++ ys) ++ (tag ++ w)) s
        → Leads k a (recv_packet k a) s (Received k a q (some d') pk w)
    arrives_cipher s h =
        recv_packet-Leads n (some d) (some d') [] (ys ++ (tag ++ w)) s four
          (Leads-cipher k a (recv_header k a) s (some ctx) _ h.cipher (header s h))
          (λ t ht. Leads-cipher k a _ t (some d) _ ht.cipher (body t ht))
