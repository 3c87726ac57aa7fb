-- ===== src/Terminal/Display.antt =====
-- The data that a session receives.
use eessh.Prelude.{
  ℕ, ◌+◌, ◌-◌, ◌^◌, ◌<◌, ◌≡◌, refl, sym, ◌∙◌, ap, List, [], ◌∷◌, ◌++◌, append_assoc, append-nil,
  length, ◌⊎◌, inl, inr, Status, ok, fail, false, arith, ◌>>=◌, proceed,
}
use eessh.Buffer.{Buffer, Allocator, contents, append_data}
use eessh.Buffer.Valid.{IsValid}
use eessh.Buffer.Writes.{Wrote, Wrote-len, append_data-Wrote}
use eessh.Stream.{Crypto}
use eessh.Channel.{is_open}
use eessh.Terminal.{Console, write_loop, write_stdout, write_stderr}
use eessh.Terminal.Callbacks.{or_close, got_data, got_ext_data}
use eessh.Terminal.Input.{close_session-closed}
use eessh.Terminal.Output.{write_loop-Shown}

-- What was shown on an output, and what waits behind it
abbrev pub stdout_of : {k : Crypto} → Console k → List ℕ
stdout_of s = s.stdout_text ++ contents s.stdout_buf

abbrev pub stderr_of : {k : Crypto} → Console k → List ℕ
stderr_of s = s.stderr_text ++ contents s.stderr_buf

extended :
    (text out : List ℕ) (b0 b1 b : Buffer) (bytes : List ℕ)
    → out ++ contents b ≡ contents b1
    → contents b1 ≡ contents b0 ++ bytes
    → (text ++ out) ++ contents b ≡ (text ++ contents b0) ++ bytes
extended text out b0 b1 b bytes e g =
    append_assoc text out (contents b)
    ∙ ap (λ ys. text ++ ys) (e ∙ g)
    ∙ sym (append_assoc text (contents b0) bytes)

module _ (k : Crypto) (a : Allocator) where
  abbrev pub IsClosed : Console k → Type 0
  IsClosed s = is_open s.seat.chan.status ≡ false

  -- The outcome of a callback that either goes on with what `P` says, or closes the channel
  settled :
      (P : Console k → Type 0) (r : Status) (s : Console k)
      → P s
      → P (or_close k a (r, s)) ⊎ IsClosed (or_close k a (r, s))
  settled P (ok _) s h = inl h
  settled P (fail e) s h = inr (close_session-closed k a s)

  written :
      (s : Console k) (bytes : List ℕ) (r : Status) (b1 : Buffer)
      → IsValid s.stdout_buf
      → s.stdout_buf.len + length bytes < 2 ^ 64 - 1
      → Wrote bytes s.stdout_buf (r, b1)
      → let out = or_close k a (proceed r (record s { stdout_buf = b1 }) (λ _. write_stdout k a)) in
        ((stdout_of out ≡ stdout_of s ++ bytes) × IsValid out.stdout_buf) ⊎ IsClosed out
  unfolding write_stdout
  written s bytes (fail e) b1 v l w = inr (close_session-closed k a _)
  written s bytes (ok u) b1 v l w =
      let shown =
        write_loop-Shown s.stdout_room b1 [] w.valid (omega (arith, Wrote-len v w refl)) in
      settled (λ t. (stdout_of t ≡ stdout_of s ++ bytes) × IsValid t.stdout_buf) _ _
        (
          extended s.stdout_text (write_loop s.stdout_room b1 []).2 s.stdout_buf b1
              (write_loop s.stdout_room b1 []).1 bytes shown.bytes (w.appends refl),
          shown.valid,
        )

  -- Data that the server sends are shown in their order, behind what was there, or wait to be shown
  -- in the buffer, which stays valid; otherwise the channel is not open any more. The data and what
  -- waits before them are shorter than the address space.
  pub got_data-shown :
      (bytes : List ℕ) (s : Console k)
      → IsValid s.stdout_buf
      → s.stdout_buf.len + length bytes < 2 ^ 64 - 1
      → ((stdout_of (got_data k a bytes s) ≡ stdout_of s ++ bytes)
          × IsValid (got_data k a bytes s).stdout_buf)
        ⊎ IsClosed (got_data k a bytes s)
  unfolding got_data ◌>>=◌
  got_data-shown [] s v l = inl (sym (append-nil (stdout_of s)), v)
  got_data-shown (x ∷ xs) s v l =
      written s (x ∷ xs) (append_data a (x ∷ xs) s.stdout_buf).0
        (append_data a (x ∷ xs) s.stdout_buf).1 v l
        (append_data-Wrote a (x ∷ xs) (omega arith) s.stdout_buf v)

  written_err :
      (s : Console k) (bytes : List ℕ) (r : Status) (b1 : Buffer)
      → IsValid s.stderr_buf
      → s.stderr_buf.len + length bytes < 2 ^ 64 - 1
      → Wrote bytes s.stderr_buf (r, b1)
      → let out = or_close k a (proceed r (record s { stderr_buf = b1 }) (λ _. write_stderr k a)) in
        ((stderr_of out ≡ stderr_of s ++ bytes) × IsValid out.stderr_buf) ⊎ IsClosed out
  unfolding write_stderr
  written_err s bytes (fail e) b1 v l w = inr (close_session-closed k a _)
  written_err s bytes (ok u) b1 v l w =
      let shown =
        write_loop-Shown s.stderr_room b1 [] w.valid (omega (arith, Wrote-len v w refl)) in
      settled (λ t. (stderr_of t ≡ stderr_of s ++ bytes) × IsValid t.stderr_buf) _ _
        (
          extended s.stderr_text (write_loop s.stderr_room b1 []).2 s.stderr_buf b1
              (write_loop s.stderr_room b1 []).1 bytes shown.bytes (w.appends refl),
          shown.valid,
        )

  pub got_ext_data-shown :
      (bytes : List ℕ) (s : Console k)
      → IsValid s.stderr_buf
      → s.stderr_buf.len + length bytes < 2 ^ 64 - 1
      → ((stderr_of (got_ext_data k a 1 bytes s) ≡ stderr_of s ++ bytes)
          × IsValid (got_ext_data k a 1 bytes s).stderr_buf)
        ⊎ IsClosed (got_ext_data k a 1 bytes s)
  unfolding got_ext_data ◌>>=◌
  got_ext_data-shown bytes s v l =
      written_err s bytes (append_data a bytes s.stderr_buf).0 (append_data a bytes s.stderr_buf).1
        v l (append_data-Wrote a bytes (omega arith) s.stderr_buf v)
