-- ===== src/Channel/Window.antt =====
-- Flow control of a channel.
use eessh.Prelude.{
  ok_injective, ltb→lt, ltb-false→le, ◌++◌, take, ℕ, ◌+◌, ◌-◌, ◌*◌, ◌^◌, ◌≤◌, ◌<◌, ◌≡◌, List, [],
  ◌∷◌, ltb, ◌==◌, min, max, length, arith, ok, fail, refl, sym, ap, subst, ◌⊎◌, Bool-cases, inl,
  inr, Result, Error, ◌>>=◌, proceed, modify, Status,
}
use eessh.Buffer.{Allocator}
use eessh.Message.{Field, byte, word, text, send_message}
use eessh.Network.{ssize_max}
use eessh.Stream.{Crypto}
use eessh.Constants.{msg_channel_data, msg_channel_extended_data}
use eessh.Channel.{
  send_ext_data, spend, on_chan, Chan, Seat, send, process_len, send_part, send_data,
  consume_window, refill_window, check_adjust_local_window, adjust_remote_window,
}

process_len_lem :
    (c : Chan) (n : ℕ)
    → process_len c n ≡ min (min n c.remote_window_size) (min c.remote_max_packet_size ssize_max)
unfolding process_len
process_len_lem c n = ground arith

module _ (k : Crypto) (a : Allocator) where
  -- What went out of `bytes`: nothing, or one message that ends with the first `n` of them
  abbrev pub Carries : List Field → List ℕ → ℕ → Seat k → Seat k → Type 0
  Carries header bytes n s s' =
      ((n ≡ 0) × (s' ≡ s))
      ⊎ (send_message k a (header ++ text (take n bytes) ∷ []) s.out ≡ (ok tt, s'.out))

  -- What a call that is to send `bytes` behind a header may have done: it sent as many of them as it
  -- says, which the window and the packet size of the peer allow, and took them off the window; or
  -- it failed and the channel is as before.
  pub record Spent (header : List Field) (bytes : List ℕ) (s : Seat k) (r : Result ℕ) (s' : Seat k)
      : Type 0 where
    pub sent :
        (n : ℕ)
        → r ≡ ok n
        → (n ≤ length bytes)
          × (n ≤ s.chan.remote_max_packet_size)
          × (s'.chan.remote_window_size + n ≡ s.chan.remote_window_size)
          × Carries header bytes n s s'
    pub rest : s'.chan ≡ record s.chan { remote_window_size = s'.chan.remote_window_size }
    pub kept : (e : Error) → r ≡ fail e → s'.chan ≡ s.chan

  Spent-zero : (header : List Field) (bytes : List ℕ) (s : Seat k) → Spent header bytes s (ok 0) s
  Spent-zero header bytes s = record {
    sent = λ n e. (
      omega (arith, ok_injective e),
      omega (arith, ok_injective e),
      omega (arith, ok_injective e),
      inl (sym (ok_injective e), refl),
    );
    rest = refl;
    kept = λ e h. cc;
  }

  -- After a message, what was sent is taken off the window.
  counted :
      (header : List Field) (bytes : List ℕ) (n : ℕ) (s t : Seat k) (r : Status)
      → send k a (header ++ text (take n bytes) ∷ []) s ≡ (r, t)
      → n ≤ length bytes
      → n ≤ s.chan.remote_max_packet_size
      → n ≤ s.chan.remote_window_size
      → Spent header bytes s (proceed r t (λ _. spend k a n)).0 (proceed r t (λ _. spend k a n)).1
  counted header bytes n s t (ok u) h hg hp hw =
      let same : s.chan ≡ t.chan = λ i. (h i).1.chan in
      record {
        sent = λ m e. (
          omega (arith, ok_injective e),
          omega (arith, ok_injective e),
          omega (arith, ok_injective e, ap (λ (c : Chan). c.remote_window_size) same),
          inr (
              subst
                (λ x. send_message k a (header ++ text (take x bytes) ∷ []) s.out ≡ (ok tt, t.out))
                (ok_injective e) (λ i. ((h i).0, (h i).1.out))),
        );
        rest =
            ap (λ (c : Chan). record c { remote_window_size = t.chan.remote_window_size - n })
              (sym same);
        kept = λ e h. cc;
      }
  counted header bytes n s t (fail e) h hg hp hw = record {
    sent = λ m h. cc;
    rest = ap (λ (c : Chan). record c { remote_window_size = t.chan.remote_window_size }) same_chan;
    kept = λ e' h'. same_chan;
  }
    where
      same_chan : t.chan ≡ s.chan
      same_chan = sym (λ i. (h i).1.chan)

  send_part-Spent :
      (header : List Field) (bytes : List ℕ) (n : ℕ) (s : Seat k)
      → n ≤ length bytes
      → n ≤ s.chan.remote_max_packet_size
      → n ≤ s.chan.remote_window_size
      → Spent header bytes s (send_part k a header bytes n s).0 (send_part k a header bytes n s).1
  unfolding send_part ◌>>=◌
  send_part-Spent header bytes n s =
      counted header bytes n s (send k a (header ++ text (take n bytes) ∷ []) s).1
        (send k a (header ++ text (take n bytes) ∷ []) s).0 refl

  allowed-Spent :
      (header : List Field) (bytes : List ℕ) (s : Seat k)
      → Spent header bytes s
          (send_part k a header bytes (process_len s.chan (length bytes)) s).0
          (send_part k a header bytes (process_len s.chan (length bytes)) s).1
  allowed-Spent header bytes s =
      send_part-Spent header bytes (process_len s.chan (length bytes)) s
        (omega (arith, process_len_lem s.chan (length bytes)))
        (omega (arith, process_len_lem s.chan (length bytes)))
        (omega (arith, process_len_lem s.chan (length bytes)))

  -- The fields in front of the data
  abbrev pub data_header : Seat k → List Field
  data_header s = byte msg_channel_data ∷ word s.chan.remote_num ∷ []

  -- When ssh_chan_send_data returns a number, it has sent nothing, and the number is 0, or one
  -- SSH_MSG_CHANNEL_DATA to the peer's channel with just so many of the first bytes of the data, no
  -- more than the peer's window and its packet size allow; the number is taken off the window. It
  -- changes nothing else of the channel, and nothing at all of it when it fails.
  pub send_data-Spent :
      (bytes : List ℕ) (s : Seat k)
      → Spent (data_header s) bytes s (send_data k a bytes s).0 (send_data k a bytes s).1
  unfolding send_data ◌>>=◌
  send_data-Spent bytes s = elim (Bool-cases (process_len s.chan (length bytes) == 0)) [
    | inl none ↦ rw none (Spent-zero (data_header s) bytes s)
    | inr some ↦ rw some (allowed-Spent (data_header s) bytes s)
  ]

  pub send_ext_data-Spent :
      (code : ℕ) (bytes : List ℕ) (s : Seat k)
      → Spent
          (byte msg_channel_extended_data ∷ word s.chan.remote_num ∷ word code ∷ [])
          bytes
          s
          (send_ext_data k a code bytes s).0
          (send_ext_data k a code bytes s).1
  unfolding send_ext_data ◌>>=◌
  send_ext_data-Spent code bytes s = elim (Bool-cases (process_len s.chan (length bytes) == 0)) [
    | inl none ↦ rw none (Spent-zero _ bytes s)
    | inr some ↦ rw some (allowed-Spent _ bytes s)
  ]

  -- What the local window has become after `len` bytes have been received.
  pub record Refilled (len : ℕ) (c : Chan) (r : Status) (c' : Chan) : Type 0 where
    pub large : r ≡ ok tt → 512 * 1024 ≤ c'.local_window_size
    pub bounded : c'.local_window_size ≤ max c.local_window_size (2 * 1024 * 1024)
    pub spent : c.local_window_size - len ≤ c'.local_window_size

  refilled :
      (len : ℕ) (c : Chan) (r : Status) (s : Seat k)
      → s.chan.local_window_size ≡ c.local_window_size - len
      → s.chan.local_window_size < 512 * 1024
      → Refilled len c
          (proceed r s (λ _. on_chan k a (
            modify (λ c'. record c' {
              local_window_size =
                  c'.local_window_size + (2 * 1024 * 1024 - s.chan.local_window_size);
            })))).0
          (proceed r s (λ _. on_chan k a (
            modify (λ c'. record c' {
              local_window_size =
                  c'.local_window_size + (2 * 1024 * 1024 - s.chan.local_window_size);
            })))).1.chan
  refilled len c (ok u) s e small = record {
    large = λ _. omega arith;
    bounded = omega arith;
    spent = omega arith;
  }
  refilled len c (fail e') s e small = record {
    large = λ h. cc;
    bounded = omega arith;
    spent = omega arith;
  }

  refill_window-Refilled :
      (len : ℕ) (c : Chan) (s : Seat k)
      → s.chan.local_window_size ≡ c.local_window_size - len
      → s.chan.local_window_size < 512 * 1024
      → Refilled len c (refill_window k a s).0 (refill_window k a s).1.chan
  unfolding refill_window ◌>>=◌
  refill_window-Refilled len c s e small = refilled len c _ (send k a _ s).1 e small

  consumed :
      (len : ℕ) (c : Chan)
      → c.local_window_size < 2 ^ 32
      → (consume_window len c).local_window_size ≡ c.local_window_size - len
  unfolding consume_window
  consumed len c h = ground arith

  -- After received data have been accounted for, the local window is at least 512 KiB or the
  -- call has failed; it never grows above 2 MiB or what it was, and no more than the data is taken.
  check_adjust_local_window-Refilled :
      (len : ℕ) (s : Seat k)
      → s.chan.local_window_size < 2 ^ 32
      → Refilled len s.chan
          (check_adjust_local_window k a len s).0
          (check_adjust_local_window k a len s).1.chan
  unfolding check_adjust_local_window ◌>>=◌
  check_adjust_local_window-Refilled len s h =
      elim (Bool-cases (ltb (consume_window len s.chan).local_window_size (512 * 1024))) [
        | inl small ↦ rw small (
            refill_window-Refilled len s.chan (record s { chan = consume_window len s.chan })
              (consumed len s.chan h) (ltb→lt _ _ small))
        | inr large ↦ rw large (record {
          large = λ _. ltb-false→le _ _ large;
          bounded = omega (arith, consumed len s.chan h);
          spent = omega (arith, consumed len s.chan h);
        })
      ]

-- A window adjustment adds up to the largest 32-bit number, and never makes the window smaller.
adjust_remote_window_lem :
    (n : ℕ) (c : Chan)
    → n < 2 ^ 32
    → c.remote_window_size < 2 ^ 32
    → (adjust_remote_window n c).remote_window_size ≡ min (c.remote_window_size + n) (2 ^ 32 - 1)
unfolding adjust_remote_window
adjust_remote_window_lem n c hn hc = ground arith
