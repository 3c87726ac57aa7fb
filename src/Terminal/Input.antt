-- ===== src/Terminal/Input.antt =====
-- What is typed is sent, or waits to be sent.
use eessh.Prelude.{
  ℕ, ◌+◌, ◌≤◌, ◌≡◌, refl, sym, ◌∙◌, ap, List, ◌++◌, drop, length, Bool-cases, inl, inr, ◌⊎◌, true,
  false, Bool, Status, Result, Error, ok, fail, >>=-eq-ok, ◌>>=◌, ◌&&◌, ◌==◌, ==→eq, gets-step,
  arith, subst, ap₂,
}
use eessh.Network.Read.{pending}
use eessh.Buffer.{Buffer, Allocator, contents, remove_data}
use eessh.Buffer.Valid.{IsValid}
use eessh.Buffer.Writes.{length-contents}
use eessh.Buffer.Remove.{remove_data_ok}
use eessh.Stream.{Crypto}
use eessh.Channel.{Seat, send_data, is_open}
use eessh.Channel.Window.{Carries, data_header, send_data-Spent}
use eessh.Channel.Watch.{has, fd_close}
use eessh.Terminal.Reads.{Took, read_stdin-Took}
use eessh.Terminal.{
  Console, read_stdin, on_seat, forward_stdin, process_stdin, drop_sent, sess_close, after_read,
  starts_with_quit, close_session,
}

both : (x y : Bool) → x && y ≡ true → (x ≡ true) × (y ≡ true)
both true y h = (refl, h)
both false y h = cc

module _ (k : Crypto) (a : Allocator) where
  -- What a notice about the terminal has done, if the channel is to go on: the bytes that were typed
  -- join those that wait, the channel was given all of these and has sent the first of them, and the
  -- others wait.
  pub record Forwarded (s s' : Console k) : Type 0 where
    pub got : List ℕ
    pub n : ℕ
    pub typed : got ++ pending s'.typed ≡ pending s.typed
    pub sent : send_data k a (contents s.stdin_buf ++ got) s.seat ≡ (ok n, s'.seat)
    pub carried :
        Carries k a (data_header k a s.seat) (contents s.stdin_buf ++ got) n s.seat s'.seat
    pub rest : contents s'.stdin_buf ≡ drop n (contents s.stdin_buf ++ got)
    pub valid : IsValid s'.stdin_buf

  -- Why the session is ended: the read has failed, the terminal is gone and has no more bytes, or
  -- what waits starts with Ctrl+Q.
  abbrev pub Ended : ℕ → Console k → Type 0
  Ended fd_flags s =
      ((e : Error) × ((read_stdin k a 1024 s).0 ≡ fail e))
      ⊎ ((read_stdin k a 1024 s).0 ≡ ok 0) × (has fd_flags fd_close ≡ true)
      ⊎ (starts_with_quit k a (read_stdin k a 1024 s).1.stdin_buf ≡ true)

  removed :
      (n : ℕ) (b : Buffer) (xs : List ℕ)
      → IsValid b
      → contents b ≡ xs
      → n ≤ length xs
      → IsValid (remove_data 0 n b).1 × (contents (remove_data 0 n b).1 ≡ drop n xs)
  removed n b xs v e h =
      let (done, valid, cut) =
        remove_data_ok 0 n v (omega (arith, ap length e, length-contents v)) in
      (valid, cut ∙ ap₂ drop {x = 0 + n} {y = n} (omega arith) e)

  forward_stdin-Forwarded :
      (s t s' : Console k) {m : ℕ}
      → Took k s m t
      → forward_stdin k a t ≡ (ok tt, s')
      → Forwarded s s'
  unfolding forward_stdin
  forward_stdin-Forwarded s t s' took h =
      let (n, u, e, g) =
        >>=-eq-ok (on_seat k a (send_data k a (contents t.stdin_buf))) (drop_sent k a) {s = t} (
          gets-step (λ (s : Console k). contents s.stdin_buf)
            (λ bytes. on_seat k a (send_data k a bytes) >>= drop_sent k a) t h) in
      let sent = ap (λ (p : Result ℕ × Console k). p.0) e in
      subst (Forwarded s)
        (ap (λ (p : Result ℕ × Console k). (drop_sent k a n p.1).1) e
          ∙ ap (λ (p : Status × Console k). p.1) g)
        (forwarded n sent)
    where
      xs : List ℕ
      xs = contents s.stdin_buf ++ took.got

      bounded : (n : ℕ) → (send_data k a (contents t.stdin_buf) t.seat).0 ≡ ok n → n ≤ length xs
      bounded n e = omega (
        arith,
        ap length took.held,
        ((send_data-Spent k a (contents t.stdin_buf) t.seat).sent n e).0,
      )

      passed :
          (n : ℕ)
          → (send_data k a (contents t.stdin_buf) t.seat).0 ≡ ok n
          → send_data k a xs s.seat ≡ (ok n, (send_data k a (contents t.stdin_buf) t.seat).1)
      passed n e = ap₂ (λ ys q. send_data k a ys q) (sym took.held) (sym took.seat) ∙ λ i.
          (e i, (send_data k a (contents t.stdin_buf) t.seat).1)

      forwarded :
          (n : ℕ)
          → (send_data k a (contents t.stdin_buf) t.seat).0 ≡ ok n
          → Forwarded s
              (drop_sent k a n
                (record t { seat = (send_data k a (contents t.stdin_buf) t.seat).1 })).1
      forwarded n e =
          let (valid, rest) = removed n t.stdin_buf xs took.valid took.held (bounded n e) in
          record {
            got = took.got;
            n = n;
            typed = took.typed;
            sent = passed n e;
            carried =
                subst (Carries k a (data_header k a s.seat) xs n s.seat)
                  (ap (λ (p : Result ℕ × Seat k). p.1) (passed n e))
                  ((send_data-Spent k a xs s.seat).sent n
                    (ap (λ (p : Result ℕ × Seat k). p.0) (passed n e))).3;
            rest = rest;
            valid = valid;
          }

  pub close_session-closed :
      (s : Console k) → is_open (close_session k a s).seat.chan.status ≡ false
  unfolding close_session sess_close
  close_session-closed s = elim (Bool-cases (is_open s.seat.chan.status)) [
    | inl open_now ↦ rw open_now refl
    | inr other ↦ rw other other
  ]

  -- A notice that ended the session
  abbrev pub Over : ℕ → Console k → Console k → Type 0
  Over fd_flags s s' = (is_open s'.seat.chan.status ≡ false) × Ended fd_flags s

  -- When sess_process_fd succeeds on standard input, either it has forwarded what was typed: of the
  -- bytes that waited and then the ones that were typed, the first ones, possibly none, are in one
  -- message to the channel's stream, and just the others wait in the buffer for the next call; or the
  -- channel is not open any more, because the read failed, the terminal was gone, or Ctrl+Q stood in
  -- front of what waits.
  pub process_stdin-Forwarded :
      (fd_flags : ℕ) (s s' : Console k)
      → IsValid s.stdin_buf
      → process_stdin k a fd_flags s ≡ (ok tt, s')
      → Forwarded s s' ⊎ Over fd_flags s s'
  unfolding process_stdin
  process_stdin-Forwarded fd_flags s s' v h =
      by_read (read_stdin k a 1024 s).0 (read_stdin k a 1024 s).1 refl h
    where
      over :
          (t : Console k)
          → Ended fd_flags s
          → ◌≡◌ {A = Status × Console k} (ok tt, close_session k a t) (ok tt, s')
          → Over fd_flags s s'
      over t why e = (
        ap (λ (p : Status × Console k). is_open p.1.seat.chan.status) (sym e)
            ∙ close_session-closed t,
        why,
      )

      by_read :
          (r : Result ℕ) (t : Console k)
          → read_stdin k a 1024 s ≡ (r, t)
          → after_read k a fd_flags r t ≡ (ok tt, s')
          → Forwarded s s' ⊎ Over fd_flags s s'
      by_read (fail x) t e g = inr (over t (inl (x, ap (λ (p : Result ℕ × Console k). p.0) e)) g)
      by_read (ok n) t e g = elim (Bool-cases (n == 0 && has fd_flags fd_close)) [
        | inl gone ↦ inr (over t (inr (inl (ended n gone e))) (rw gone at g))
        | inr more ↦ elim (Bool-cases (starts_with_quit k a t.stdin_buf)) [
          | inl quit ↦ inr (
              over t
                (inr (
                  inr (
                    ap (λ (p : Result ℕ × Console k). starts_with_quit k a p.1.stdin_buf) e
                    ∙ quit)))
                (rw (more, quit) at g))
          | inr other ↦ inl (
              forward_stdin-Forwarded s t s' (read_stdin-Took k a 1024 s v (omega arith) e)
                (rw (more, other) at g))
        ]
      ]
        where
          ended :
              (m : ℕ)
              → m == 0 && has fd_flags fd_close ≡ true
              → read_stdin k a 1024 s ≡ (ok m, t)
              → ((read_stdin k a 1024 s).0 ≡ ok 0) × (has fd_flags fd_close ≡ true)
          ended m b e =
              let (none, hung_up) = both (m == 0) _ b in
              (ap (λ (p : Result ℕ × Console k). p.0) e ∙ ap ok (==→eq m 0 none), hung_up)
