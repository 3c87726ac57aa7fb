-- ===== src/Stream/RoundTrip.antt =====
-- A packet that one stream has finished is what the other stream receives.
use eessh.Prelude.{
  ℕ, ◌+◌, ◌-◌, ◌%◌, ◌^◌, ◌≤◌, ◌≡◌, refl, sym, ◌∙◌, ap, subst, List, [], ◌∷◌, ◌++◌, append_assoc,
  length, length-append, take, drop, drop-append, Option, none, some, ok, ok_injective, ◌⊎◌, inl,
  inr, arith,
}
use eessh.Buffer.{Allocator, contents}
use eessh.Buffer.Valid.{IsValid, Ample}
use eessh.Buffer.Writes.{length-contents}
use eessh.Network.{ssize_max}
use eessh.Network.Read.{pending, IsFlowing}
use eessh.Stream.{Crypto, Stream, max_packet_len, finish_packet}
use eessh.Stream.Accept.{Settings, settings}
use eessh.Stream.Frame.{packet, filler_of, IsGenerous}
use eessh.Stream.Emit.{cipher_on, IsSteady, HasLength, Tag, Framed, finish_packet-Framed}
use eessh.Stream.Intake.{Holds, Leads, Ample-le}
use eessh.Stream.Fill.{IsIdle}
use eessh.Stream.Unpack.{Good, Received}
use eessh.Stream.Checked.{unit_of_self, le_of_multiple, IsBlock, frame-Good}
use eessh.Stream.Arrive.{arrives_plain, arrives_cipher}
use eessh.Stream.Receive.{recv_packet}

-- What one cipher context has encrypted the other decrypts, also in two pieces, the first of which
-- is a block.
pub record Undoes (k : Crypto) (n : ℕ) (Matches : k.CipherCtx → k.CipherCtx → Type 0)
    (xs ys : List ℕ) (e' d : k.CipherCtx) : Type 0 where
  pub first : List ℕ
  pub second : List ℕ
  pub between : k.CipherCtx
  pub after : k.CipherCtx
  pub pieces : ys ≡ first ++ second
  pub one_block : length first ≡ n
  pub front : k.crypt d first ≡ (ok (take n xs), between)
  pub rest : k.crypt between second ≡ (ok (drop n xs), after)
  pub matched : Matches e' after

-- The laws of a cipher with blocks of `n` bytes, on the contexts of both ends
pub record IsCipher (k : Crypto) (n : ℕ) (Matches : k.CipherCtx → k.CipherCtx → Type 0)
    : Type 0 where
  pub sized : (n ≡ 8) ⊎ (16 ≤ n) × (n ≤ 252)
  pub undoes :
      (e e' d : k.CipherCtx) (xs ys : List ℕ)
      → Matches e d
      → k.crypt e xs ≡ (ok ys, e')
      → n ≤ length xs
      → length xs % n ≡ 0
      → Undoes k n Matches xs ys e' d

module _ (k : Crypto) (Matches : k.CipherCtx → k.CipherCtx → Type 0) where
  -- Both ends without a cipher, or with matching ones
  abbrev pub AreMatched : ℕ → Option (k.CipherCtx) → Option (k.CipherCtx) → Type 0
  AreMatched n none none = n ≡ 0
  AreMatched n (some e) (some d) = IsCipher k n Matches × Matches e d
  AreMatched n _ _ = ⊥

module _ (k : Crypto) (a : Allocator) (Matches : k.CipherCtx → k.CipherCtx → Type 0) where
  -- The writing stream of one end and the reading stream of the other, between two packets
  pub record InStep (s r : Stream k) : Type 0 where
    pub same : settings k a r ≡ settings k a s
    pub matched : AreMatched k Matches s.cipher_block_len s.cipher r.cipher
    pub unmarked : s.mac ≡ none → s.mac_len ≡ 0
    pub tags : HasLength k a s
    pub tag_small : s.mac_len ≤ 256
    pub pack_valid : IsValid s.pack
    pub out_valid : IsValid s.buf_enc
    pub in_pack_valid : IsValid r.pack
    pub in_valid : IsValid r.buf
    pub in_enc_valid : IsValid r.buf_enc
    pub in_empty : contents r.buf ≡ []
    pub in_enc_empty : contents r.buf_enc ≡ []

  -- What a finished packet has become at the other end, under the settings of its sender
  record Arrived (q : Settings k a) (n : ℕ) (c : Option (k.CipherCtx)) (pk w : List ℕ)
      (r : Stream k) : Type 0 where
    cipher : Option (k.CipherCtx)
    matched : AreMatched k Matches n c cipher
    received : Leads k a (recv_packet k a) r (Received k a q cipher pk w)

  module _ (q : Settings k a) (pk tag w : List ℕ) (good : Good k a q pk tag) (r : Stream k)
      (room : Ample a (length pk + length tag)) (small : length pk + length tag ≤ ssize_max)
      (steady : IsSteady k a) (idle : IsIdle k a) where
    arrives :
        (c c' d : Option (k.CipherCtx)) (out : List ℕ)
        → AreMatched k Matches q.block_len c d
        → cipher_on k a c pk ≡ (ok out, c')
        → Holds k a q d [] [] (out ++ (tag ++ w)) r
        → Arrived q q.block_len c' pk w r
    arrives none c' none out m e h = record {
      cipher = none;
      matched = subst (λ x. AreMatched k Matches q.block_len x none) (λ i. (e i).1) m;
      received = arrives_plain k a q pk tag w good room r small (
          subst (λ xs. Holds k a q none [] [] (xs ++ (tag ++ w)) r)
            (sym (ok_injective (λ i. (e i).0))) h);
    }
    arrives none c' (some d) out m e h = absurd m
    arrives (some x) c' none out m e h = absurd m
    arrives (some x) c' (some d) out (law, same) e h = record {
      cipher = some u.after;
      matched =
          subst (λ y. AreMatched k Matches q.block_len y (some u.after)) (λ i. (e i).1)
            (law, u.matched);
      received =
          arrives_cipher k a q pk tag w good room q.block_len d u.between u.after u.first u.second
            idle refl (omega (arith, low)) inside u.front u.rest u.one_block
            (omega (arith, whole, ap length u.pieces, length-append u.first u.second, u.one_block))
            small r (subst (λ xs. Holds k a q (some d) [] [] (xs ++ (tag ++ w)) r) u.pieces h);
    }
      where
        whole : length out ≡ length pk
        whole = steady x pk out (λ i. (e i).0)

        low : 8 ≤ q.block_len
        low = ground (arith, law.sized)

        aligned : length pk % q.block_len ≡ 0
        aligned = ap (λ b. length pk % b) (sym (unit_of_self q.block_len law.sized)) ∙ good.aligned

        inside : q.block_len ≤ length pk
        inside = le_of_multiple q.block_len (length pk) (omega (arith, good.long)) aligned

        u : Undoes k q.block_len Matches pk out (k.crypt x pk).1 d
        u =
            law.undoes x (k.crypt x pk).1 d pk out same (λ i. ((e i).0, (k.crypt x pk).1)) inside
              aligned

  -- The writing stream behind ssh_stream_send_packet, before the bytes go to the socket
  abbrev pub count : Stream k → Stream k
  count s = record s { seq_num = (s.seq_num + 1) % 2 ^ 32 }

  -- What the other end has after a packet: the packet, the rest of the bytes, and both ends in step
  pub record Delivered (pk w : List ℕ) (s' r' : Stream k) : Type 0 where
    pub packet : contents r'.pack ≡ pk
    pub flowing : IsFlowing r'.arrivals
    pub left : pending r'.arrivals ≡ w
    pub in_step : InStep (count s') r'

  matched-IsBlock : (n : ℕ) (c d : Option (k.CipherCtx)) → AreMatched k Matches n c d → IsBlock n
  matched-IsBlock n none none m = inl m
  matched-IsBlock n none (some d) m = absurd m
  matched-IsBlock n (some c) none m = absurd m
  matched-IsBlock n (some c) (some d) m = inr m.0.sized

  mac_len_agrees :
      (s : Stream k) (m : Option (k.MacCtx)) (pk tag : List ℕ)
      → s.mac ≡ m
      → (s.mac ≡ none → s.mac_len ≡ 0)
      → HasLength k a s
      → Tag k a m s.seq_num pk tag
      → s.mac_len ≡ length tag
  mac_len_agrees s none pk tag e u h t = u e ∙ sym (ap length t)
  mac_len_agrees s (some key) pk tag e u h t = sym (h key s.seq_num pk tag t)

  added : (xs ys zs : List ℕ) → xs ++ ys ≡ xs ++ zs → ys ≡ zs
  added xs ys zs e =
      sym (drop-append (length xs) xs ys refl)
      ∙ ap (drop (length xs)) e
      ∙ drop-append (length xs) xs zs refl

  module _ (payload : List ℕ) (s s' r : Stream k) (step : InStep s r)
      (f : Framed k a payload s s') where
    -- After the packet both ends are in step again.
    delivered :
        (c : Option (k.CipherCtx)) (pk w : List ℕ) (r' : Stream k)
        → AreMatched k Matches s.cipher_block_len s'.cipher c
        → Received k a (settings k a s) c pk w r'
        → Delivered pk w s' r'
    delivered c pk w r' m (h, e) = record {
      packet = e;
      flowing = h.flowing;
      left = h.in_socket;
      in_step = record {
        same = h.setting ∙ ap (λ u. settings k a (count u)) (sym f.rest);
        matched =
            subst (λ x. AreMatched k Matches s'.cipher_block_len s'.cipher x) (sym h.cipher)
              (subst (λ n. AreMatched k Matches n s'.cipher c)
                (ap (λ (u : Stream k). u.cipher_block_len) (sym f.rest)) m);
        unmarked =
            subst (λ (u : Stream k). u.mac ≡ none → u.mac_len ≡ 0) (sym f.rest) step.unmarked;
        tags = subst (HasLength k a) (sym f.rest) step.tags;
        tag_small = subst (λ (u : Stream k). u.mac_len ≤ 256) (sym f.rest) step.tag_small;
        pack_valid = f.pack_valid;
        out_valid = f.valid;
        in_pack_valid = h.pack_valid;
        in_valid = h.buf_valid;
        in_enc_valid = h.enc_valid;
        in_empty = h.in_buf;
        in_enc_empty = h.in_enc;
      };
    }

    received :
        (w : List ℕ)
        → IsGenerous k a
        → IsSteady k a
        → IsIdle k a
        → Ample a (max_packet_len + 260)
        → s.pack.len ≡ 5 + length payload
        → length payload ≤ max_packet_len - 256
        → IsFlowing r.arrivals
        → pending r.arrivals ≡ (f.out ++ f.tag) ++ w
        → Leads k a (recv_packet k a) r (Delivered (packet payload (filler_of k a s)) w s')
    received w g st idle room l short flowing waiting = record {
      end = arrived.received.end;
      runs = arrived.received.runs;
      holds =
          delivered arrived.cipher pk w arrived.received.end arrived.matched arrived.received.holds;
    }
      where
        pk : List ℕ
        pk = packet payload (filler_of k a s)

        tag_len : s.mac_len ≡ length f.tag
        tag_len = mac_len_agrees s s.mac pk f.tag refl step.unmarked step.tags f.tagged

        good : Good k a (settings k a s) pk f.tag
        good =
            frame-Good k a payload f.tag s g
              (matched-IsBlock s.cipher_block_len s.cipher r.cipher step.matched) l short f.tagged
              tag_len

        size : length pk + length f.tag ≤ max_packet_len + 260
        size = omega (arith, good.sized, step.tag_small, tag_len)

        arrived : Arrived (settings k a s) s.cipher_block_len s'.cipher pk w r
        arrived =
            arrives (settings k a s) pk f.tag w good r (Ample-le a _ _ size room)
              (omega (arith, size)) st idle s.cipher s'.cipher r.cipher f.out step.matched
              f.ciphered
              (record {
                setting = step.same;
                cipher = refl;
                pack_valid = step.in_pack_valid;
                buf_valid = step.in_valid;
                enc_valid = step.in_enc_valid;
                in_buf = step.in_empty;
                in_enc = step.in_enc_empty;
                flowing = flowing;
                in_socket = waiting ∙ append_assoc f.out f.tag w;
              })

  -- What finish_packet has put behind the waiting bytes is received at the other end: when these
  -- bytes come next from a socket that delivers, ssh_stream_recv_packet succeeds and returns just the
  -- packet, what came behind them stays in the socket, and both ends are in step for the next packet.
  -- Both ends are in step before: the same numbers, MAC and block length, no cipher or contexts that
  -- match, and nothing read ahead. The random generator gives as many bytes as it is asked for, the
  -- cipher keeps the length, does nothing to no bytes, and undoes what its match has encrypted, also
  -- in two pieces; its blocks have 8 bytes or 16 to 252. MACs have their length, 256 bytes at most,
  -- memory is granted, and the payload is at most 256 bytes shorter than 128 KiB.
  pub recv_packet-finish_packet :
      IsGenerous k a
      → IsSteady k a
      → IsIdle k a
      → Ample a (max_packet_len + 260)
      → (payload : List ℕ) (s s' r : Stream k) (frame w : List ℕ) → InStep s r
      → contents s.pack ≡ 0 ∷ 0 ∷ 0 ∷ 0 ∷ 0 ∷ payload
      → length payload ≤ max_packet_len - 256
      → finish_packet k a s ≡ (ok tt, s')
      → contents s'.buf_enc ≡ contents s.buf_enc ++ frame
      → IsFlowing r.arrivals
      → pending r.arrivals ≡ frame ++ w
      → Leads k a (recv_packet k a) r (Delivered (packet payload (filler_of k a s)) w s')
  recv_packet-finish_packet g st idle room payload s s' r frame w step fresh short done put_behind
        flowing waiting =
      let f =
        finish_packet-Framed k a g st payload s s' step.tags (omega (arith, step.tag_small))
          step.pack_valid step.out_valid fresh (omega arith) done in
      received payload s s' r step f w g st idle room
        (omega (arith, ap length fresh, length-contents step.pack_valid)) short flowing
        (waiting
          ∙ ap (λ xs. xs ++ w)
              (added (contents s.buf_enc) frame (f.out ++ f.tag) (sym put_behind ∙ f.held)))
