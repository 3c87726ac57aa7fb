-- ===== src/Stream/Intake.antt =====
-- How a read stream gets its bytes: stream_recv_fill_buffer over a socket that delivers, with and
-- without a cipher.
use eessh.Prelude.{
  ℕ, ◌+◌, ◌≤◌, ◌≡◌, refl, sym, ◌∙◌, ap, subst, List, [], ◌∷◌, ◌++◌, append-nil, take, drop, length,
  length-append, take-append, drop-append, Option, none, some, ok, Act, pure, ◌>>=◌, ltb,
  le→ltb-false, lt→ltb, if◌then◌else◌, arith,
}
use eessh.Buffer.{Buffer, Allocator, contents, grow}
use eessh.Buffer.Valid.{IsValid, grow_succeeds, Ample}
use eessh.Buffer.Writes.{put-IsValid, contents-put, length-contents}
use eessh.Network.{ReadEvent, net_read, ssize_max}
use eessh.Network.Read.{pending, IsFlowing, net_read-Reads}
use eessh.Stream.{Crypto, Stream}
use eessh.Stream.Accept.{Settings, settings}
use eessh.Stream.Receive.{take_in, read_in, read_more}

pub Ample-le : (a : Allocator) (m n : ℕ) → m ≤ n → Ample a n → Ample a m
Ample-le a m n h room = record {
  small = omega (arith, room.small);
  granted = λ k l. room.granted k (omega arith);
}

module _ (k : Crypto) (a : Allocator) where
  -- A read stream under some settings and with some cipher: what stands in its two buffers, and
  -- what the socket has or will have
  pub record Holds (q : Settings k a) (c : Option (k.CipherCtx)) (plain enc wait : List ℕ)
      (s : Stream k) : Type 0 where
    pub setting : settings k a s ≡ q
    pub cipher : s.cipher ≡ c
    pub pack_valid : IsValid s.pack
    pub buf_valid : IsValid s.buf
    pub enc_valid : IsValid s.buf_enc
    pub in_buf : contents s.buf ≡ plain
    pub in_enc : contents s.buf_enc ≡ enc
    pub flowing : IsFlowing s.arrivals
    pub in_socket : pending s.arrivals ≡ wait

  -- A successful call that leads from one such state to another
  pub record Leads (m : Act (Stream k) Unit) (s : Stream k) (P : Stream k → Type 0) : Type 0 where
    pub end : Stream k
    pub runs : m s ≡ (ok tt, end)
    pub holds : P end

  pub Leads-then :
      (m n : Act (Stream k) Unit) (s : Stream k) (P Q : Stream k → Type 0)
      → Leads m s P
      → ((t : Stream k) → P t → Leads n t Q)
      → Leads (m >>= λ _. n) s Q
  unfolding ◌>>=◌
  Leads-then m n s P Q first second =
      let later = second first.end first.holds in
      record { end = later.end; runs = rw (first.runs) later.runs; holds = later.holds }

  -- The cipher of the state may be written out.
  pub Leads-cipher :
      (m : Act (Stream k) Unit) (s : Stream k) (c : Option (k.CipherCtx)) (P : Stream k → Type 0)
      → s.cipher ≡ c
      → Leads m (record s { cipher = c }) P
      → Leads m s P
  Leads-cipher m s c P e h = subst (λ t. Leads m t P) (λ i. record s { cipher = sym e i }) h

  read_more_plain :
      (n : ℕ) (s : Stream k) (b : Buffer) (got : List ℕ) (es : List ReadEvent)
      → grow a n s.buf ≡ (ok tt, b)
      → net_read s.arrivals n ≡ (ok got, es)
      → n ≤ length got
      → read_more k a n (record s { cipher = none })
        ≡ (ok tt, record s { cipher = none; buf = take_in k a got b; arrivals = es })
  unfolding read_more ◌>>=◌ read_in
  read_more_plain n s b got es g r l = rw (g, r, le→ltb-false (length got) n l) refl

  read_more_enc :
      (n : ℕ) (s : Stream k) (ctx : k.CipherCtx) (b : Buffer) (got : List ℕ) (es : List ReadEvent)
      → grow a n s.buf_enc ≡ (ok tt, b)
      → net_read s.arrivals n ≡ (ok got, es)
      → n ≤ length got
      → read_more k a n (record s { cipher = some ctx })
        ≡ (ok tt, record s { cipher = some ctx; buf_enc = take_in k a got b; arrivals = es })
  unfolding read_more ◌>>=◌ read_in
  read_more_enc n s ctx b got es g r l = rw (g, r, le→ltb-false (length got) n l) refl

  -- A read behind the contents of a buffer
  record Took (xs w : List ℕ) (n : ℕ) (b : Buffer) (es : List ReadEvent) : Type 0 where
    room : Buffer
    grows : grow a n b ≡ (ok tt, room)
    rest : List ReadEvent
    reads : net_read es n ≡ (ok xs, rest)
    valid : IsValid (take_in k a xs room)
    held : contents (take_in k a xs room) ≡ contents b ++ xs
    flowing : IsFlowing rest
    left : pending rest ≡ w

  took :
      (xs w : List ℕ) (b : Buffer) (es : List ReadEvent)
      → IsValid b
      → Ample a (b.len + length xs)
      → length xs ≤ ssize_max
      → IsFlowing es
      → pending es ≡ xs ++ w
      → Took xs w (length xs) b es
  unfolding take_in
  took xs w b es v room l f e =
      let (b', g, grown) = grow_succeeds a (length xs) b v room in
      let r = net_read-Reads es (length xs) f (omega (arith, ap length e, length-append xs w)) l in
      record {
        room = b';
        grows = g;
        rest = (net_read es (length xs)).1;
        reads = λ i. (
          (r.bytes ∙ ap ok (ap (take (length xs)) e ∙ take-append (length xs) xs w refl)) i,
          (net_read es (length xs)).1,
        );
        valid = put-IsValid xs b' grown.valid (omega (arith, grown.room, grown.same_len));
        held =
            contents-put xs b' grown.valid (omega (arith, grown.room, grown.same_len))
            ∙ ap (λ ys. ys ++ xs) (ap (λ m. take m b'.mem) grown.same_len ∙ grown.same);
        flowing = r.flowing;
        left = r.left ∙ ap (drop (length xs)) e ∙ drop-append (length xs) xs w refl;
      }

  abbrev pub set_cipher_to : Option (k.CipherCtx) → Stream k → Stream k
  set_cipher_to c s = record s { cipher = c }

  abbrev pub read_if : ℕ → Act (Stream k) Unit
  read_if n = if ltb 0 n then read_more k a n else pure tt

  read_if-Leads :
      (xs : List ℕ) (s : Stream k) (P : Stream k → Type 0)
      → (xs ≡ [] → P s)
      → Leads (read_more k a (length xs)) s P
      → Leads (read_if (length xs)) s P
  read_if-Leads [] s P h g = record { end = s; runs = refl; holds = h refl }
  read_if-Leads (x ∷ xs) s P h g = rw (lt→ltb 0 (length (x ∷ xs)) (omega arith)) g

  module _ (q : Settings k a) (p e xs w : List ℕ) (s : Stream k)
      (small : length xs ≤ ssize_max) where
    pub read_plain :
        Holds q none p e (xs ++ w) (set_cipher_to none s)
        → Ample a (length p + length xs)
        → Leads (read_if (length xs)) (set_cipher_to none s) (Holds q none (p ++ xs) e w)
    read_plain h room = read_if-Leads xs _ _ nothing (record {
      end = record s { cipher = none; buf = take_in k a xs t.room; arrivals = t.rest };
      runs = read_more_plain (length xs) s t.room xs t.rest t.grows t.reads (omega arith);
      holds = record {
        setting = h.setting;
        cipher = refl;
        pack_valid = h.pack_valid;
        buf_valid = t.valid;
        enc_valid = h.enc_valid;
        in_buf = t.held ∙ ap (λ ys. ys ++ xs) h.in_buf;
        in_enc = h.in_enc;
        flowing = t.flowing;
        in_socket = t.left;
      };
    })
      where
        t : Took xs w (length xs) s.buf s.arrivals
        t =
            took xs w s.buf s.arrivals h.buf_valid
              (subst (λ n. Ample a (n + length xs))
                (sym (ap length h.in_buf) ∙ length-contents h.buf_valid) room)
              small h.flowing h.in_socket

        nothing : xs ≡ [] → Holds q none (p ++ xs) e w (set_cipher_to none s)
        nothing none_left = record {
          setting = h.setting;
          cipher = refl;
          pack_valid = h.pack_valid;
          buf_valid = h.buf_valid;
          enc_valid = h.enc_valid;
          in_buf = h.in_buf ∙ sym (ap (λ ys. p ++ ys) none_left ∙ append-nil p);
          in_enc = h.in_enc;
          flowing = h.flowing;
          in_socket = h.in_socket ∙ ap (λ ys. ys ++ w) none_left;
        }

    pub read_enc :
        (ctx : k.CipherCtx)
        → Holds q (some ctx) p e (xs ++ w) (set_cipher_to (some ctx) s)
        → Ample a (length e + length xs)
        → Leads
            (read_if (length xs))
            (set_cipher_to (some ctx) s)
            (Holds q (some ctx) p (e ++ xs) w)
    read_enc ctx h room = read_if-Leads xs _ _ nothing (record {
      end = record s { cipher = some ctx; buf_enc = take_in k a xs t.room; arrivals = t.rest };
      runs = read_more_enc (length xs) s ctx t.room xs t.rest t.grows t.reads (omega arith);
      holds = record {
        setting = h.setting;
        cipher = refl;
        pack_valid = h.pack_valid;
        buf_valid = h.buf_valid;
        enc_valid = t.valid;
        in_buf = h.in_buf;
        in_enc = t.held ∙ ap (λ ys. ys ++ xs) h.in_enc;
        flowing = t.flowing;
        in_socket = t.left;
      };
    })
      where
        t : Took xs w (length xs) s.buf_enc s.arrivals
        t =
            took xs w s.buf_enc s.arrivals h.enc_valid
              (subst (λ n. Ample a (n + length xs))
                (sym (ap length h.in_enc) ∙ length-contents h.enc_valid) room)
              small h.flowing h.in_socket

        nothing : xs ≡ [] → Holds q (some ctx) p (e ++ xs) w (set_cipher_to (some ctx) s)
        nothing none_left = record {
          setting = h.setting;
          cipher = refl;
          pack_valid = h.pack_valid;
          buf_valid = h.buf_valid;
          enc_valid = h.enc_valid;
          in_buf = h.in_buf;
          in_enc = h.in_enc ∙ sym (ap (λ ys. e ++ ys) none_left ∙ append-nil e);
          flowing = h.flowing;
          in_socket = h.in_socket ∙ ap (λ ys. ys ++ w) none_left;
        }
