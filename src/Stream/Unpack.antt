-- ===== src/Stream/Unpack.antt =====
-- How a read stream cuts a packet out of what it holds, and checks it.
use eessh.Prelude.{
  ℕ, zero, suc, ◌+◌, ◌-◌, ◌%◌, ◌^◌, ◌≤◌, ◌<◌, ◌≡◌, refl, sym, ◌∙◌, ap, ap₂, subst, List, [], ◌∷◌,
  ◌++◌, length, length-append, take, drop, get_or, blit, drop-append, drop_of_length-le,
  take_of_length-le, take-blit_le, length-blit, Option, none, some, ok, fail, true, ◌==◌, ◌>>=◌,
  if◌then◌else◌, same_bytes, same_bytes_self, le→ltb-false, bad_mac, bad_padding, arith,
}
use eessh.Buffer.{
  Buffer, Allocator, contents, clear, grow, append_data, remove_data, add_size, sub_size,
}
use eessh.Buffer.Valid.{IsValid, Grown, Ample, grow_succeeds}
use eessh.Buffer.Writes.{
  length-contents, Writes, Wrote, Wrote-len, append_data-Writes, contents-put,
}
use eessh.Buffer.Remove.{remove_data_ok, drop-take}
use eessh.Reader.{get_u32}
use eessh.Stream.{Crypto, Stream, poke, max_packet_len}
use eessh.Stream.Accept.{Settings, settings}
use eessh.Stream.Emit.{Tag}
use eessh.Stream.Consume.{front, back}
use eessh.Stream.Intake.{Holds, Leads, Ample-le}
use eessh.Stream.Receive.{
  take_packet, accept, padding_ok, mac_matches, verify_mac, check_digest, verify_read_packet,
}

pub get_or-take : (n i : ℕ) (xs : List ℕ) → i < n → get_or (take n xs) i 0 ≡ get_or xs i 0
get_or-take zero i xs h = absurd (omega arith)
get_or-take (suc n) i [] h = refl
get_or-take (suc n) zero (x ∷ xs) h = refl
get_or-take (suc n) (suc i) (x ∷ xs) h = get_or-take n i xs (omega arith)

module _ (k : Crypto) (a : Allocator) where
  -- A packet that was cut out, with the MAC that came behind it
  pub record Unpacked (q : Settings k a) (c : Option (k.CipherCtx)) (pk tag w : List ℕ)
      (s : Stream k) : Type 0 where
    pub rest : Holds k a q c [] [] w s
    pub packet : contents s.pack ≡ pk
    pub behind : take (length tag) (drop s.pack.len s.pack.mem) ≡ tag

  -- The packet's buffer: cleared, filled, and grown for the MAC
  record Copied (pk tag : List ℕ) (b : Buffer) : Type 0 where
    one : Buffer
    two : Buffer
    appends : append_data a pk (clear b) ≡ (ok tt, one)
    grows : grow a (length tag) one ≡ (ok tt, two)
    valid : IsValid (poke two.len tag two)
    held : contents (poke two.len tag two) ≡ pk
    behind : take (length tag) (drop two.len (blit two.mem two.len tag)) ≡ tag

  copied :
      (pk tag : List ℕ) (b : Buffer)
      → IsValid b
      → 0 < length pk
      → Ample a (length pk + length tag)
      → Copied pk tag b
  unfolding clear
  copied pk tag b v full m = record {
    one = one;
    two = two;
    appends = λ i. (done i, one);
    grows = g;
    valid = record {
      allocated = length-blit two.mem two.len tag ∙ grown.valid.allocated;
      within = grown.valid.within;
      sized = grown.valid.sized;
    };
    held = take-blit_le two.len two.mem two.len tag (omega arith) ∙ same;
    behind =
        sym (drop-take two.len (length tag) (blit two.mem two.len tag) refl)
        ∙ ap (drop two.len) (
            ap (λ n. take n (blit two.mem two.len tag)) {x = two.len + length tag}
              {y = add_size two.len (length tag)}
              (omega (arith, grown.room, grown.same_len, grown.valid.sized))
            ∙ contents-put tag two grown.valid (omega (arith, grown.room, grown.same_len)))
        ∙ drop-append two.len (contents two) tag (sym (length-contents grown.valid));
  }
    where
      cleared : IsValid (clear b)
      cleared = record { allocated = v.allocated; within = omega arith; sized = v.sized }

      writes : Writes a pk (append_data a pk)
      writes = append_data-Writes a pk full (omega (arith, m.small))

      one : Buffer
      one = (append_data a pk (clear b)).1

      wrote : Wrote pk (clear b) (append_data a pk (clear b))
      wrote = writes.step (clear b) cleared

      done : (append_data a pk (clear b)).0 ≡ ok tt
      done = writes.succeeds (clear b) cleared (Ample-le a _ _ (omega arith) m)

      one_len : one.len ≡ length pk
      one_len = Wrote-len cleared wrote done ∙ omega arith

      growth : (b' : Buffer) × (grow a (length tag) one ≡ (ok tt, b')) × Grown (length tag) one b'
      growth =
          grow_succeeds a (length tag) one wrote.valid (Ample-le a _ _ (omega (arith, one_len)) m)

      two : Buffer
      two = growth.0

      g : grow a (length tag) one ≡ (ok tt, two)
      g = growth.1

      grown : Grown (length tag) one two
      grown = growth.2

      same : contents two ≡ pk
      same = ap (λ n. take n two.mem) grown.same_len ∙ grown.same ∙ wrote.appends done

  -- The same, with the length of the MAC written out
  unpack :
      (q : Settings k a) (c : Option (k.CipherCtx)) (pk tag w : List ℕ) (s : Stream k)
      → Holds k a q c (pk ++ tag) [] w (record s { mac_len = length tag })
      → 0 < length pk
      → Ample a (length pk + length tag)
      → Leads k a
          (take_packet k a (length pk))
          (record s { mac_len = length tag })
          (Unpacked q c pk tag w)
  unfolding take_packet ◌>>=◌
  unpack q c pk tag w s h full m =
      let x = copied pk tag s.pack h.pack_valid full m in
      let total = length pk + length tag in
      let (done, valid, cut) =
        remove_data_ok 0 total h.buf_valid
          (omega (arith, length-contents h.buf_valid, ap length h.in_buf, length-append pk tag)) in
      record {
        end = record s {
          mac_len = length tag;
          pack = poke x.two.len tag x.two;
          buf = (remove_data 0 total s.buf).1;
        };
        runs =
            rw
              (
                front k a q (pk ++ tag) pk tag w s h.buf_valid h.in_buf,
                x.appends,
                x.grows,
                back k a q (pk ++ tag) pk tag w s (length pk) h.buf_valid h.in_buf refl,
              )
              (λ i. (
                done i,
                record s {
                  mac_len = length tag;
                  pack = poke x.two.len tag x.two;
                  buf = (remove_data 0 total s.buf).1;
                },
              ));
        holds = record {
          rest = record {
            setting = h.setting;
            cipher = h.cipher;
            pack_valid = x.valid;
            buf_valid = valid;
            enc_valid = h.enc_valid;
            in_buf =
                cut
                ∙ drop_of_length-le (0 + total) (contents s.buf)
                    (omega (arith, ap length h.in_buf, length-append pk tag));
            in_enc = h.in_enc;
            flowing = h.flowing;
            in_socket = h.in_socket;
          };
          packet = x.held;
          behind = x.behind;
        };
      }

  pub take_packet-Unpacked :
      (q : Settings k a) (c : Option (k.CipherCtx)) (pk tag w : List ℕ) (s : Stream k)
      → Holds k a q c (pk ++ tag) [] w s
      → q.mac_len ≡ length tag
      → 0 < length pk
      → Ample a (length pk + length tag)
      → Leads k a (take_packet k a (length pk)) s (Unpacked q c pk tag w)
  take_packet-Unpacked q c pk tag w s h l full m =
      let e = ap (λ (r : Settings k a). r.mac_len) h.setting ∙ l in
      subst (λ t. Leads k a (take_packet k a (length pk)) t (Unpacked q c pk tag w))
        (λ i. record s { mac_len = sym e i })
        (unpack q c pk tag w s
          (subst (Holds k a q c (pk ++ tag) [] w) (λ i. record s { mac_len = e i }) h) full m)

  -- A packet that passes the checks of verify_read_packet under some settings
  pub record Good (q : Settings k a) (pk tag : List ℕ) : Type 0 where
    pub announced : get_u32 pk 0 + 4 ≡ length pk
    pub long : 16 ≤ length pk
    pub sized : length pk ≤ max_packet_len + 4
    pub pad : 4 ≤ get_or pk 4 0
    pub pad_within : get_or pk 4 0 ≤ length pk - 5
    pub aligned : length pk % (if q.block_len == 0 then 8 else q.block_len % 256) ≡ 0
    pub tagged : Tag k a q.mac q.seq_num pk tag
    pub tag_len : q.mac_len ≡ length tag

  padding_ok-Good :
      (q : Settings k a) (pk tag : List ℕ) (b : Buffer)
      → Good q pk tag
      → IsValid b
      → contents b ≡ pk
      → padding_ok k a b q.block_len ≡ true
  padding_ok-Good q pk tag b good v e =
      let len = sym (length-contents v) ∙ ap length e in
      let at =
        sym (get_or-take b.len 4 b.mem (omega (arith, len, good.long)))
        ∙ ap (λ xs. get_or xs 4 0) e in
      rw
        (
          at,
          len,
          le→ltb-false (get_or pk 4 0) 4 good.pad,
          le→ltb-false (sub_size (length pk) 5) (get_or pk 4 0)
              (omega (arith, good.pad_within, good.long, good.sized)),
          good.aligned,
        )
        refl

  mac_matches-tag :
      (s : Stream k) (tag : List ℕ)
      → s.mac_len ≡ length tag
      → take (length tag) (drop s.pack.len s.pack.mem) ≡ tag
      → mac_matches k a s tag ≡ true
  mac_matches-tag s tag l b =
      ap₂ same_bytes (take_of_length-le s.mac_len tag (omega (arith, l)))
        (ap (λ n. take n (drop s.pack.len s.pack.mem)) l ∙ b)
      ∙ same_bytes_self tag

  verify_mac-Tag :
      (m : Option (k.MacCtx)) (s : Stream k) (pk tag : List ℕ)
      → contents s.pack ≡ pk
      → Tag k a m s.seq_num pk tag
      → s.mac_len ≡ length tag
      → take (length tag) (drop s.pack.len s.pack.mem) ≡ tag
      → verify_mac k a s m ≡ ok tt
  verify_mac-Tag none s pk tag e t l b = refl
  verify_mac-Tag (some key) s pk tag e t l b =
      ap (check_digest k a s) (ap (k.mac_compute key s.seq_num) e ∙ t)
      ∙ ap (λ same. if same then ok tt else fail bad_mac) (mac_matches-tag s tag l b)

  verify_read_packet-Good :
      (q : Settings k a) (pk tag : List ℕ) (s : Stream k)
      → settings k a s ≡ q
      → Good q pk tag
      → IsValid s.pack
      → contents s.pack ≡ pk
      → take (length tag) (drop s.pack.len s.pack.mem) ≡ tag
      → verify_read_packet k a s ≡ ok tt
  unfolding verify_read_packet
  verify_read_packet-Good q pk tag s same good v e b =
      let own = subst (λ r. Good r pk tag) (sym same) good in
      ap (λ fine. if fine then verify_mac k a s s.mac else fail bad_padding)
        (padding_ok-Good (settings k a s) pk tag s.pack own v e)
      ∙ verify_mac-Tag s.mac s pk tag e own.tagged own.tag_len b

  -- The settings for the next packet
  abbrev pub next_settings : Settings k a → Settings k a
  next_settings q = record q { seq_num = (q.seq_num + 1) % 2 ^ 32 }

  -- A packet was received, and nothing of it is left.
  abbrev pub Received : Settings k a → Option (k.CipherCtx) → List ℕ → List ℕ → Stream k → Type 0
  Received q c pk w s = Holds k a (next_settings q) c [] [] w s × (contents s.pack ≡ pk)

  pub accept-Received :
      (q : Settings k a) (c : Option (k.CipherCtx)) (pk tag w : List ℕ) (s : Stream k)
      → Unpacked q c pk tag w s
      → Good q pk tag
      → Leads k a (accept k a) s (Received q c pk w)
  unfolding accept ◌>>=◌
  accept-Received q c pk tag w s u good = record {
    end = record s { seq_num = (s.seq_num + 1) % 2 ^ 32 };
    runs =
        rw
          (verify_read_packet-Good q pk tag s u.rest.setting good u.rest.pack_valid u.packet
            u.behind)
          refl;
    holds = (
      record {
        setting = ap next_settings u.rest.setting;
        cipher = u.rest.cipher;
        pack_valid = u.rest.pack_valid;
        buf_valid = u.rest.buf_valid;
        enc_valid = u.rest.enc_valid;
        in_buf = u.rest.in_buf;
        in_enc = u.rest.in_enc;
        flowing = u.rest.flowing;
        in_socket = u.rest.in_socket;
      },
      u.packet,
    );
  }
