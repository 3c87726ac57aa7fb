-- ===== src/Terminal.antt =====
-- main/session.c: the session of the command line program, callbacks of a channel between the
-- user's terminal and the server. Standard input, output and error are the files 0, 1 and 2; what
-- `read` and `write` answer on them is a list of events. The global `sess_data` and `got_sigwinch`
-- stand beside the channel.
pub mod Callbacks
pub mod Reads
pub mod Input
pub mod Output
pub mod Display
use eessh.Prelude.{
  ℕ, zero, suc, ◌+◌, ◌-◌, ◌*◌, ◌^◌, List, [], ◌∷◌, ◌++◌, Bool, true, false, not, ◌&&◌, ltb, ◌==◌,
  if◌then◌else◌, Option, none, some, blit, get_or, length, take, drop, Result, Status, ok, fail,
  io_error, Act, pure, raise, gets, modify, proceed, ◌>>=◌, ◌>>◌,
}
use eessh.Buffer
use eessh.Buffer.{Buffer, Allocator, add_size, contents, grow, append_data, remove_data}
use eessh.Network.{ReadEvent, WriteEvent, chunk, room}
use eessh.Stream.{Crypto}
use eessh.Channel.{Seat, closed, is_open, send_data}
use eessh.Channel.Watch.{watch_fd, fd_read, fd_write, fd_close, has}
use eessh.Session.{Config, new_term_size}

-- The channel, struct SESS_DATA, what is to be read from the terminal, and for each output the room
-- that it has and what was written to it
pub record Console (k : Crypto) : Type 0 where
  pub seat : Seat k
  pub stdin_buf : Buffer
  pub stdout_buf : Buffer
  pub stderr_buf : Buffer
  pub typed : List ReadEvent
  pub stdout_room : List WriteEvent
  pub stderr_room : List WriteEvent
  pub stdout_text : List ℕ
  pub stderr_text : List ℕ
  pub got_sigwinch : Bool

abbrev pub stdin_fileno : ℕ
stdin_fileno = 0

abbrev pub stdout_fileno : ℕ
stdout_fileno = 1

abbrev pub stderr_fileno : ℕ
stderr_fileno = 2

-- The loop of read_stdin: `left` bytes are still wanted and `got` have come, which are kept also if
-- there is an error.
unfoldable pub read_loop : List ReadEvent → ℕ → List ℕ → Status × List ℕ × List ReadEvent
read_loop [] left got = (ok tt, got, [])
read_loop (e ∷ es) zero got = (ok tt, got, e ∷ es)
read_loop (ReadEvent.interrupted ∷ es) left got = read_loop es left got
read_loop (ReadEvent.again ∷ es) left got = (ok tt, got, es)
read_loop (ReadEvent.broken ∷ es) left got = (fail io_error, got, es)
read_loop (chunk [] ∷ es) left got = (ok tt, got, es)
read_loop (chunk (x ∷ xs) ∷ es) left got =
    let more = read_loop es (left - length (x ∷ xs)) (got ++ x ∷ xs) in
    if ltb left (length (x ∷ xs))
    then (ok tt, got ++ take left (x ∷ xs), chunk (drop left (x ∷ xs)) ∷ es)
    else more

-- The loop of write_out_buffer. After an error other than EINTR and EAGAIN the source removes -1, as
-- a `size_t`, from the buffer.
unfoldable pub write_loop :
    List WriteEvent → Buffer → List ℕ → Status × Buffer × List ℕ × List WriteEvent
write_loop [] b out = (ok tt, b, out, [])
write_loop (WriteEvent.interrupted ∷ es) b out =
    let more = write_loop es b out in
    if ltb 0 b.len then more else (ok tt, b, out, WriteEvent.interrupted ∷ es)
write_loop (WriteEvent.again ∷ es) b out =
    if ltb 0 b.len then (ok tt, b, out, es) else (ok tt, b, out, WriteEvent.again ∷ es)
write_loop (WriteEvent.broken ∷ es) b out =
    let (r, b') = remove_data 0 (2 ^ 64 - 1) b in
    if ltb 0 b.len then (r, b', out, es) else (ok tt, b, out, WriteEvent.broken ∷ es)
write_loop (room zero ∷ es) b out =
    if ltb 0 b.len then (ok tt, b, out, es) else (ok tt, b, out, room zero ∷ es)
write_loop (room (suc n) ∷ es) b out =
    let w = take (suc n) (contents b) in
    let (r, b') = remove_data 0 (length w) b in
    let more : Status × Buffer × List ℕ × List WriteEvent = elim r [
      | ok _ ↦ write_loop es b' (out ++ w)
      | fail e ↦ (fail e, b', out ++ w, es)
    ] in
    if ltb 0 b.len then more else (ok tt, b, out, room (suc n) ∷ es)

module _ (k : Crypto) (a : Allocator) where
  abbrev pub on_seat : {A : Type 0} → Act (Seat k) A → Act (Console k) A
  on_seat m s = let (r, seat) = m s.seat in (r, record s { seat = seat })

  abbrev pub on_stdin : {A : Type 0} → Act Buffer A → Act (Console k) A
  on_stdin m s = let (r, b) = m s.stdin_buf in (r, record s { stdin_buf = b })

  -- ssh_chan_watch_fd on the session's channel
  abbrev pub watch : ℕ → ℕ → ℕ → Act (Seat k) Unit
  watch fd enable disable seat =
      let (r, c) = watch_fd fd enable disable seat.chan in (r, record seat { chan = c })

  -- sess_close
  unfoldable pub sess_close : Console k → Console k
  sess_close s = record s {
    stdin_buf = Buffer.new;
    stdout_buf = Buffer.new;
    stderr_buf = Buffer.new;
  }

  -- ssh_chan_close with this callback
  unfoldable pub close_session : Console k → Console k
  close_session s =
      let s' = sess_close s in
      let chan = s'.seat.chan in
      if is_open s.seat.chan.status
      then record s' { seat = record s'.seat { chan = record chan { status = closed } } }
      else s

  -- What `buf` is after bytes were stored behind its fill level
  abbrev pub filled : Buffer → List ℕ → Buffer
  filled b got = record b { mem = blit b.mem b.len got; len = add_size b.len (length got) }

  -- The end of read_stdin: the number of bytes that came, or -1
  abbrev pub count_of : Status → ℕ → Result ℕ
  count_of (ok _) n = ok n
  count_of (fail e) n = fail e

  abbrev pub read_typed : ℕ → Act (Console k) ℕ
  read_typed len s =
      let (r, got, es) = read_loop s.typed len [] in
      (count_of r (length got), record s { stdin_buf = filled s.stdin_buf got; typed = es })

  -- read_stdin
  unfoldable pub read_stdin : ℕ → Act (Console k) ℕ
  unfolding ◌>>=◌
  read_stdin len = on_stdin (grow a len) >> read_typed len

  abbrev pub drop_sent : ℕ → Act (Console k) Unit
  drop_sent sent s = (ok tt, record s { stdin_buf = (remove_data 0 sent s.stdin_buf).1 })

  -- Send what was typed, and keep what the channel does not take.
  unfoldable pub forward_stdin : Act (Console k) Unit
  unfolding ◌>>=◌
  forward_stdin = do
    bytes ← gets (λ s. contents s.stdin_buf)
    sent ← on_seat (send_data k a bytes)
    drop_sent sent

  -- 'Q' + 1 - 'A'
  abbrev pub ctrl_q : ℕ
  ctrl_q = 17

  abbrev pub starts_with_quit : Buffer → Bool
  starts_with_quit b = ltb 0 b.len && get_or b.mem 0 0 == ctrl_q

  -- sess_process_fd on STDIN_FILENO, after the read
  abbrev pub after_read : ℕ → Result ℕ → Act (Console k) Unit
  after_read fd_flags (fail e) s = (ok tt, close_session s)
  after_read fd_flags (ok r) s =
      if r == 0 && has fd_flags fd_close
      then (ok tt, close_session s)
      else if starts_with_quit s.stdin_buf
      then (ok tt, close_session s)
      else forward_stdin s

  unfoldable pub process_stdin : ℕ → Act (Console k) Unit
  process_stdin fd_flags s = let (r, s') = read_stdin 1024 s in after_read fd_flags r s'

  -- The end of write_out_buffer: the file is watched as long as there is something to write.
  abbrev pub watch_output : ℕ → ℕ → Act (Seat k) Unit
  watch_output fd len = if ltb 0 len then watch fd fd_write 0 else watch fd 0 fd_write

  -- write_out_buffer
  abbrev pub watch_after : Status → ℕ → ℕ → Act (Seat k) Unit
  watch_after (ok _) fd len seat = watch_output fd len seat
  watch_after (fail e) fd len seat = (fail e, seat)

  unfoldable pub write_stdout : Act (Console k) Unit
  write_stdout s =
      let (r, b, out, es) = write_loop s.stdout_room s.stdout_buf [] in
      let (r', seat) = watch_after r stdout_fileno b.len s.seat in
      (
        r',
        record s {
          seat = seat;
          stdout_buf = b;
          stdout_room = es;
          stdout_text = s.stdout_text ++ out;
        },
      )

  unfoldable pub write_stderr : Act (Console k) Unit
  write_stderr s =
      let (r, b, out, es) = write_loop s.stderr_room s.stderr_buf [] in
      let (r', seat) = watch_after r stderr_fileno b.len s.seat in
      (
        r',
        record s {
          seat = seat;
          stderr_buf = b;
          stderr_room = es;
          stderr_text = s.stderr_text ++ out;
        },
      )
