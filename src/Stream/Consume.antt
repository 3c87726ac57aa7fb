-- ===== src/Stream/Consume.antt =====
-- How a read stream with a cipher decrypts what has come, and copies the MAC.
use eessh.Prelude.{
  ℕ, ◌+◌, ◌-◌, ◌≡◌, refl, sym, ◌∙◌, ap, subst, List, [], ◌++◌, take, drop, length, length-append,
  take-append, take-take, drop-append, drop_of_length-le, Option, some, ok, ◌>>=◌, arith, ◌<◌,
  ne→==-false,
}
use eessh.Buffer.{Buffer, Allocator, contents, get_write_pointer, remove_data, add_size}
use eessh.Buffer.Valid.{IsValid, grow_succeeds, Ample}
use eessh.Buffer.Writes.{length-contents}
use eessh.Buffer.Remove.{remove_data_ok, drop-take}
use eessh.Stream.{Crypto, Stream, poke, on_enc}
use eessh.Stream.Stores.{Opened, get_write_pointer-Opened, poke-Opened}
use eessh.Stream.Accept.{Settings}
use eessh.Stream.Intake.{Holds, Leads, set_cipher_to}
use eessh.Stream.Receive.{decrypt, copy_plain}

module _ (k : Crypto) (a : Allocator) where
  -- Room behind the contents, given memory
  pub record Room (n : ℕ) (b : Buffer) : Type 0 where
    pub start : ℕ
    pub end : Buffer
    pub gives : get_write_pointer a n b ≡ (ok start, end)
    pub opened : Opened n b start end

  pub enough-Room :
      (n : ℕ) (b : Buffer) → IsValid b → 0 < b.len + n → Ample a (b.len + n) → Room n b
  unfolding get_write_pointer ◌>>=◌
  enough-Room n b v full m =
      let (c, g, grown) = grow_succeeds a n b v m in
      let e : get_write_pointer a n b ≡ (ok (c.len), record c { len = add_size c.len n }) =
        rw (g, ne→==-false c.cap 0 (λ z. omega (arith, z, full, grown.room))) refl in
      record {
        start = c.len;
        end = record c { len = add_size c.len n };
        gives = e;
        opened = get_write_pointer-Opened a n b v (omega (arith, m.small)) e;
      }

  module _ (q : Settings k a) (p ys zs w : List ℕ) (s : Stream k) where
    -- `n` bytes stand where the buffer's contents do.
    pub front : {b : Buffer} → IsValid b → contents b ≡ ys ++ zs → take (length ys) b.mem ≡ ys
    front {b} v e =
        sym (
          take-take (length ys) b.len b.mem
            (omega (arith, length-contents v, ap length e, length-append ys zs)))
        ∙ ap (take (length ys)) e
        ∙ take-append (length ys) ys zs refl

    pub back :
        {b : Buffer} (m : ℕ)
        → IsValid b
        → contents b ≡ ys ++ zs
        → m ≡ length ys
        → take (length zs) (drop m b.mem) ≡ zs
    back {b} m v e g =
        sym (
          drop-take m (length zs) b.mem
            (omega (arith, g, length-contents v, ap length e, length-append ys zs)))
        ∙ ap (drop m) e
        ∙ drop-append m ys zs g

    room_in :
        (n : ℕ) {b : Buffer}
        → IsValid b
        → contents b ≡ p
        → Ample a (length p + n)
        → Ample a (b.len + n)
    room_in n v e m = subst (λ l. Ample a (l + n)) (sym (ap length e) ∙ length-contents v) m

    pub decrypt-Leads :
        (ctx ctx' : k.CipherCtx) (us : List ℕ)
        → Holds k a q (some ctx) p (ys ++ zs) w (set_cipher_to k a (some ctx) s)
        → k.crypt ctx ys ≡ (ok us, ctx')
        → length us ≡ length ys
        → 0 < length ys
        → Ample a (length p + length ys)
        → Leads k a
            (decrypt k a (length ys))
            (set_cipher_to k a (some ctx) s)
            (Holds k a q (some ctx') (p ++ us) (ys ++ zs) w)
    unfolding decrypt ◌>>=◌
    decrypt-Leads ctx ctx' us h c l full m =
        let r =
          enough-Room (length ys) s.buf h.buf_valid (omega (arith, full))
            (room_in (length ys) h.buf_valid h.in_buf m) in
        let stored = poke-Opened (length ys) s.buf r.start r.end us r.opened l in
        record {
          end = record s { buf = poke r.start us r.end; cipher = some ctx' };
          runs = rw (r.gives, front h.enc_valid h.in_enc, c) refl;
          holds = record {
            setting = h.setting;
            cipher = refl;
            pack_valid = h.pack_valid;
            buf_valid = stored.0;
            enc_valid = h.enc_valid;
            in_buf = stored.1 ∙ ap (λ xs. xs ++ us) h.in_buf;
            in_enc = h.in_enc;
            flowing = h.flowing;
            in_socket = h.in_socket;
          };
        }

    pub copy_plain-Leads :
        (c : Option (k.CipherCtx)) (end : ℕ)
        → Holds k a q c p (ys ++ zs) w s
        → end ≡ length ys + length zs
        → 0 < length p + length zs
        → Ample a (length p + length zs)
        → Leads k a (copy_plain k a end (length zs)) s (Holds k a q c (p ++ zs) (ys ++ zs) w)
    unfolding copy_plain ◌>>=◌
    copy_plain-Leads c end h e full m =
        let r =
          enough-Room (length zs) s.buf h.buf_valid
            (omega (arith, full, ap length h.in_buf, length-contents h.buf_valid))
            (room_in (length zs) h.buf_valid h.in_buf m) in
        let stored = poke-Opened (length zs) s.buf r.start r.end zs r.opened refl in
        record {
          end = record s { buf = poke r.start zs r.end };
          runs = rw (r.gives, back (end - length zs) h.enc_valid h.in_enc (omega arith)) refl;
          holds = record {
            setting = h.setting;
            cipher = h.cipher;
            pack_valid = h.pack_valid;
            buf_valid = stored.0;
            enc_valid = h.enc_valid;
            in_buf = stored.1 ∙ ap (λ xs. xs ++ zs) h.in_buf;
            in_enc = h.in_enc;
            flowing = h.flowing;
            in_socket = h.in_socket;
          };
        }

  pub remove_enc-Leads :
      (q : Settings k a) (c : Option (k.CipherCtx)) (p e w : List ℕ) (s : Stream k) (n : ℕ)
      → Holds k a q c p e w s
      → n ≡ length e
      → Leads k a (on_enc k a (remove_data 0 n)) s (Holds k a q c p [] w)
  remove_enc-Leads q c p e w s n h l =
      let (done, valid, cut) =
        remove_data_ok 0 n h.enc_valid
          (omega (arith, l, length-contents h.enc_valid, ap length h.in_enc)) in
      record {
        end = record s { buf_enc = (remove_data 0 n s.buf_enc).1 };
        runs = λ i. (done i, record s { buf_enc = (remove_data 0 n s.buf_enc).1 });
        holds = record {
          setting = h.setting;
          cipher = h.cipher;
          pack_valid = h.pack_valid;
          buf_valid = h.buf_valid;
          enc_valid = valid;
          in_buf = h.in_buf;
          in_enc =
              cut
              ∙ drop_of_length-le (0 + n) (contents s.buf_enc)
                  (omega (arith, l, ap length h.in_enc));
          flowing = h.flowing;
          in_socket = h.in_socket;
        };
      }
