-- ===== src/Stream/Fill.antt =====
-- What stream_recv_fill_buffer has made of the bytes that it waited for.
use eessh.Prelude.{
  ℕ, ◌+◌, ◌-◌, ◌≤◌, ◌≡◌, refl, sym, ◌∙◌, ap, ap₂, subst, List, [], ◌∷◌, ◌++◌, append-nil, length,
  length-append, min, Option, none, some, Result, ok, false, Act, pure, ◌>>=◌, ◌>>◌, ltb,
  le→ltb-false, ltb-false→le, ltb→lt, Bool-cases, inl, inr, if◌then◌else◌, arith,
}
use eessh.Buffer.{Allocator, remove_data, add_size}
use eessh.Buffer.Valid.{Ample}
use eessh.Buffer.Writes.{length-contents}
use eessh.Network.{ssize_max}
use eessh.Stream.{Crypto, Stream, on_enc}
use eessh.Stream.Accept.{Settings}
use eessh.Stream.Intake.{
  Holds, Leads, Leads-then, Leads-cipher, set_cipher_to, read_if, read_plain, read_enc, Ample-le,
}
use eessh.Stream.Consume.{decrypt-Leads, copy_plain-Leads, remove_enc-Leads}
use eessh.Stream.Receive.{
  decrypt, copy_plain, consume, consume_from, fill_buffer, read_len, missing,
}

length-nil : (xs : List ℕ) → length xs ≡ 0 → xs ≡ []
length-nil [] e = refl
length-nil (x ∷ xs) e = absurd (omega arith)

module _ (k : Crypto) (a : Allocator) where
  -- A cipher does nothing to no bytes.
  abbrev pub IsIdle : Type 0
  IsIdle = (ctx : k.CipherCtx) → k.crypt ctx [] ≡ (ok [], ctx)

  Holds-same :
      {q : Settings k a} {c c' : Option (k.CipherCtx)} {p p' e w : List ℕ} {s : Stream k}
      → Holds k a q c p e w s
      → c ≡ c'
      → p ≡ p'
      → Holds k a q c' p' e w s
  Holds-same {q} {c} {c'} {p} {p'} {e} {w} {s} h g f =
      subst (λ d. Holds k a q d p' e w s) g (subst (λ x. Holds k a q c x e w s) f h)

  pub Holds-set :
      {q : Settings k a} {c : Option (k.CipherCtx)} {p e w : List ℕ} {s : Stream k}
      → Holds k a q c p e w s
      → Holds k a q c p e w (set_cipher_to k a c s)
  Holds-set h = record {
    setting = h.setting;
    cipher = refl;
    pack_valid = h.pack_valid;
    buf_valid = h.buf_valid;
    enc_valid = h.enc_valid;
    in_buf = h.in_buf;
    in_enc = h.in_enc;
    flowing = h.flowing;
    in_socket = h.in_socket;
  }

  module _ (q : Settings k a) (p ys zs w us : List ℕ) (ctx ctx' : k.CipherCtx) (idle : IsIdle)
      (undone : k.crypt ctx ys ≡ (ok us, ctx')) (whole : length us ≡ length ys) where
    decrypt_if-Leads :
        (n pl : ℕ) (s : Stream k)
        → n ≡ length ys + length zs
        → pl ≡ length zs
        → Holds k a q (some ctx) p (ys ++ zs) w (set_cipher_to k a (some ctx) s)
        → Ample a (length p + length ys)
        → Leads k a
            (if ltb pl n then decrypt k a (n - pl) else pure tt)
            (set_cipher_to k a (some ctx) s)
            (Holds k a q (some ctx') (p ++ us) (ys ++ zs) w)
    decrypt_if-Leads n pl s e g h m = elim (Bool-cases (ltb pl n)) [
      | inl more ↦ rw more (
          subst
            (λ d.
              Leads k a (decrypt k a d) (set_cipher_to k a (some ctx) s)
                (Holds k a q (some ctx') (p ++ us) (ys ++ zs) w))
            {x = length ys} {y = n - pl} (omega arith)
            (decrypt-Leads k a q p ys zs w s ctx ctx' us h undone whole
              (omega (arith, e, g, ltb→lt pl n more)) m))
      | inr nothing ↦ rw nothing (record {
        end = set_cipher_to k a (some ctx) s;
        runs = refl;
        holds =
            Holds-same h (ap some (none_left nothing).1)
              (sym (ap (λ xs. p ++ xs) (none_left nothing).0 ∙ append-nil p));
      })
    ]
      where
        none_left : ltb pl n ≡ false → (us ≡ []) × (ctx ≡ ctx')
        none_left nothing =
            let empty = length-nil ys (omega (arith, ltb-false→le pl n nothing)) in
            (
              length-nil us (omega (arith, whole, ap length empty)),
              λ i. ((sym (idle ctx) ∙ ap (k.crypt ctx) (sym empty) ∙ undone) i).1,
            )

    copy_if-Leads :
        (c : Option (k.CipherCtx)) (r : List ℕ) (n pl : ℕ) (s : Stream k)
        → n ≡ length ys + length zs
        → pl ≡ length zs
        → Holds k a q c r (ys ++ zs) w s
        → length ys ≤ length r
        → Ample a (length r + length zs)
        → Leads k a
            (if ltb 0 n then copy_plain k a n (min n pl) else pure tt)
            s
            (Holds k a q c (r ++ zs) (ys ++ zs) w)
    copy_if-Leads c r n pl s e g h l m = elim (Bool-cases (ltb 0 n)) [
      | inl more ↦ rw more (
          subst (λ d. Leads k a (copy_plain k a n d) s (Holds k a q c (r ++ zs) (ys ++ zs) w))
            {x = length zs} {y = min n pl} (omega arith)
            (copy_plain-Leads k a q r ys zs w s c n h e (omega (arith, e, l, ltb→lt 0 n more)) m))
      | inr nothing ↦ rw nothing (record {
        end = s;
        runs = refl;
        holds = Holds-same h refl (
            sym (
              ap (λ xs. r ++ xs) (length-nil zs (omega (arith, ltb-false→le 0 n nothing)))
              ∙ append-nil r));
      })
    ]

    pub consume-Leads :
        (n pl : ℕ) (s : Stream k)
        → n ≡ length ys + length zs
        → pl ≡ length zs
        → Holds k a q (some ctx) p (ys ++ zs) w (set_cipher_to k a (some ctx) s)
        → Ample a (length p + length ys + length zs)
        → Leads k a
            (consume k a n pl)
            (set_cipher_to k a (some ctx) s)
            (Holds k a q (some ctx') ((p ++ us) ++ zs) [] w)
    unfolding consume
    consume-Leads n pl s e g h m =
        Leads-then k a (if ltb pl n then decrypt k a (n - pl) else pure tt)
          ((if ltb 0 n then copy_plain k a n (min n pl) else pure tt)
            >> on_enc k a (remove_data 0 n))
          (set_cipher_to k a (some ctx) s) (Holds k a q (some ctx') (p ++ us) (ys ++ zs) w) _
          (decrypt_if-Leads n pl s e g h (Ample-le a _ _ (omega arith) m))
          (λ t ht.
            Leads-then k a (if ltb 0 n then copy_plain k a n (min n pl) else pure tt)
              (on_enc k a (remove_data 0 n)) t
              (Holds k a q (some ctx') ((p ++ us) ++ zs) (ys ++ zs) w) _
              (copy_if-Leads (some ctx') (p ++ us) n pl t e g ht
                (omega (arith, whole, length-append p us))
                (Ample-le a _ _ (omega (arith, whole, length-append p us)) m))
              (λ u hu.
                remove_enc-Leads k a q (some ctx') ((p ++ us) ++ zs) (ys ++ zs) w u n hu
                  (omega (arith, e, length-append ys zs))))

  -- The second half of stream_recv_fill_buffer
  abbrev after : ℕ → ℕ → Act (Stream k) Unit
  after cl pl u = consume_from k a u.cipher u.buf.len (add_size cl pl) pl u

  fill_buffer-Leads :
      (cl pl n : ℕ) (s : Stream k) (P Q : Stream k → Type 0)
      → n ≡ read_len k a (add_size cl pl) s
      → Leads k a (read_if k a n) s P
      → ((t : Stream k) → P t → Leads k a (after cl pl) t Q)
      → Leads k a (fill_buffer k a cl pl) s Q
  unfolding fill_buffer ◌>>=◌
  fill_buffer-Leads cl pl n s P Q e first second =
      let all =
        Leads-then k a (read_if k a (read_len k a (add_size cl pl) s)) (after cl pl) s P Q
          (subst (λ m. Leads k a (read_if k a m) s P) e first) second in
      record { end = all.end; runs = all.runs; holds = all.holds }

  -- Without a cipher the bytes go where they are read.
  pub fill_plain-Leads :
      (q : Settings k a) (p e xs w : List ℕ) (s : Stream k) (cl pl : ℕ)
      → length p + length xs ≡ cl + pl
      → cl + pl ≤ ssize_max
      → Holds k a q none p e (xs ++ w) (set_cipher_to k a none s)
      → Ample a (length p + length xs)
      → Leads k a
          (fill_buffer k a cl pl)
          (set_cipher_to k a none s)
          (Holds k a q none (p ++ xs) e w)
  fill_plain-Leads q p e xs w s cl pl l small h m =
      fill_buffer-Leads cl pl (length xs) (set_cipher_to k a none s)
        (Holds k a q none (p ++ xs) e w) _ count (read_plain k a q p e xs w s (omega arith) h m)
        (λ t ht.
          Leads-cipher k a (after cl pl) t none _ ht.cipher
            (record { end = set_cipher_to k a none t; runs = refl; holds = Holds-set ht }))
    where
      held : s.buf.len ≡ length p
      held = sym (length-contents h.buf_valid) ∙ ap length h.in_buf

      count : length xs ≡ missing (add_size cl pl) s.buf.len
      count =
          rw (le→ltb-false (add_size cl pl) s.buf.len (omega (arith, held))) (omega (arith, held))

  -- With a cipher the first bytes are decrypted, and the last `pl` are copied.
  pub fill_cipher-Leads :
      (q : Settings k a) (p ys zs w us : List ℕ) (s : Stream k) (ctx ctx' : k.CipherCtx) (cl pl : ℕ)
      → IsIdle
      → k.crypt ctx ys ≡ (ok us, ctx')
      → length us ≡ length ys
      → length p + length ys ≡ cl
      → length zs ≡ pl
      → cl + pl ≤ ssize_max
      → Holds k a q (some ctx) p [] ((ys ++ zs) ++ w) (set_cipher_to k a (some ctx) s)
      → Ample a (cl + pl)
      → Leads k a
          (fill_buffer k a cl pl)
          (set_cipher_to k a (some ctx) s)
          (Holds k a q (some ctx') ((p ++ us) ++ zs) [] w)
  fill_cipher-Leads q p ys zs w us s ctx ctx' cl pl idle undone whole lp lz small h m =
      fill_buffer-Leads cl pl (length (ys ++ zs)) (set_cipher_to k a (some ctx) s)
        (Holds k a q (some ctx) p (ys ++ zs) w) _ count
        (read_enc k a q p [] (ys ++ zs) w s (omega (arith, length-append ys zs)) ctx h
          (Ample-le a _ _ (omega (arith, length-append ys zs)) m))
        (λ t ht. Leads-cipher k a (after cl pl) t (some ctx) _ ht.cipher (finish t ht))
    where
      held : s.buf.len ≡ length p
      held = sym (length-contents h.buf_valid) ∙ ap length h.in_buf

      none_held : s.buf_enc.len ≡ 0
      none_held = sym (length-contents h.enc_valid) ∙ ap length h.in_enc

      count : length (ys ++ zs) ≡ read_len k a (add_size cl pl) (set_cipher_to k a (some ctx) s)
      count = ground (arith, held, none_held, length-append ys zs)

      finish :
          (t : Stream k)
          → Holds k a q (some ctx) p (ys ++ zs) w t
          → Leads k a
              (after cl pl)
              (set_cipher_to k a (some ctx) t)
              (Holds k a q (some ctx') ((p ++ us) ++ zs) [] w)
      finish t ht = elim (Bool-cases (ltb t.buf.len (add_size cl pl))) [
        | inl more ↦
            let run =
              consume-Leads q p ys zs w us ctx ctx' idle undone whole (add_size cl pl - t.buf.len)
                pl t (omega (arith, lp, lz, held_in t ht)) (sym lz) (Holds-set ht)
                (Ample-le a _ _ (omega arith) m) in
            record { end = run.end; runs = rw more run.runs; holds = run.holds }
        | inr nothing ↦ record {
          end = set_cipher_to k a (some ctx) t;
          runs = rw nothing refl;
          holds =
              emptied t ht (length-nil ys (omega (arith, ltb-false→le _ _ nothing, held_in t ht)))
                (length-nil zs (omega (arith, ltb-false→le _ _ nothing, held_in t ht)));
        }
      ]
        where
          held_in : (t : Stream k) → Holds k a q (some ctx) p (ys ++ zs) w t → t.buf.len ≡ length p
          held_in t ht = sym (length-contents ht.buf_valid) ∙ ap length ht.in_buf

          emptied :
              (t : Stream k)
              → Holds k a q (some ctx) p (ys ++ zs) w t
              → ys ≡ []
              → zs ≡ []
              → Holds k a q (some ctx') ((p ++ us) ++ zs) [] w (set_cipher_to k a (some ctx) t)
          emptied t ht no_ys no_zs =
              let no_us = length-nil us (omega (arith, whole, ap length no_ys)) in
              let same = sym (idle ctx) ∙ ap (k.crypt ctx) (sym no_ys) ∙ undone in
              subst
                (λ x.
                  Holds k a q (some ctx') ((p ++ us) ++ zs) x w (set_cipher_to k a (some ctx) t))
                (ap₂ ◌++◌ no_ys no_zs)
                (Holds-same (Holds-set ht)
                  (ap (λ (r : Result (List ℕ) × k.CipherCtx). some r.1) same)
                  (sym
                    (ap₂ (λ x y. (p ++ x) ++ y) no_us no_zs ∙ append-nil (p ++ []) ∙ append-nil p)))
