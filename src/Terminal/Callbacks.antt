-- ===== src/Terminal/Callbacks.antt =====
-- main/session.c: the callbacks of the session's channel.
use eessh.Prelude.{
  ℕ, List, [], ◌∷◌, Bool, true, false, not, ◌&&◌, ◌==◌, if◌then◌else◌, Option, none, some, Result,
  Status, ok, fail, io_error, Act, modify, ◌>>=◌, ◌>>◌,
}
use eessh.Buffer.{Allocator, append_data}
use eessh.Stream.{Crypto}
use eessh.Channel.{Seat}
use eessh.Channel.Watch.{fd_read, fd_write}
use eessh.Session.{Config, new_term_size}
use eessh.Terminal.{
  Console, stdin_fileno, stdout_fileno, stderr_fileno, on_seat, watch, sess_close, close_session,
  process_stdin, write_stdout, write_stderr,
}

module _ (k : Crypto) (a : Allocator) where
  -- What the callbacks do about an error
  abbrev pub or_close : Status × Console k → Console k
  or_close (ok _, s) = s
  or_close (fail e, s) = close_session k a s

  -- sess_process_fd
  unfoldable pub process_fd : ℕ → ℕ → Act (Console k) Unit
  process_fd fd fd_flags s =
      if fd == stdin_fileno
      then process_stdin k a fd_flags s
      else if fd == stdout_fileno
      then (ok tt, or_close (write_stdout k a s))
      else if fd == stderr_fileno
      then (ok tt, or_close (write_stderr k a s))
      else (ok tt, s)

  abbrev pub append_stdout : List ℕ → Act (Console k) Unit
  append_stdout bytes s =
      let (r, b) = append_data a bytes s.stdout_buf in (r, record s { stdout_buf = b })

  abbrev pub append_stderr : List ℕ → Act (Console k) Unit
  append_stderr bytes s =
      let (r, b) = append_data a bytes s.stderr_buf in (r, record s { stderr_buf = b })

  -- sess_got_data; at the end of the file there are no data
  unfoldable pub got_data : List ℕ → Console k → Console k
  unfolding ◌>>=◌
  got_data [] s = s
  got_data (x ∷ xs) s = or_close ((append_stdout (x ∷ xs) >> write_stdout k a) s)

  -- sess_got_ext_data; SSH_EXTENDED_DATA_STDERR is 1
  unfoldable pub got_ext_data : ℕ → List ℕ → Console k → Console k
  unfolding ◌>>=◌
  got_ext_data code bytes s =
      if code == 1 then or_close ((append_stderr bytes >> write_stderr k a) s) else s

  -- What term_get_window_size says
  abbrev pub resize : Option (ℕ × ℕ) → Act (Console k) Unit
  resize none s = (ok tt, s)
  resize (some (width, height)) s = on_seat k a (new_term_size k a width height) s

  -- sess_got_signal
  unfoldable pub got_signal : Option (ℕ × ℕ) → Act (Console k) Unit
  got_signal size s =
      if s.got_sigwinch then resize size (record s { got_sigwinch = false }) else (ok tt, s)

  -- What sess_init asks of the system: all three files can be set to O_NONBLOCK, standard input is a
  -- terminal, and the terminal takes the raw mode.
  pub record Setup : Type 0 where
    pub nonblocks : Bool
    pub is_tty : Bool
    pub takes_raw : Bool

  abbrev pub watch_all : Act (Seat k) Unit
  watch_all =
      watch k a stdin_fileno fd_read 0
      >> watch k a stdout_fileno fd_write 0
      >> watch k a stderr_fileno fd_write 0

  -- The results of the three calls that append the banner are unused.
  abbrev pub append_banner : List (List ℕ) → Console k → Console k
  append_banner [] s = s
  append_banner (line ∷ lines) s = append_banner lines (append_stdout line s).1

  abbrev pub set_up : Setup → Status
  set_up q =
      if not q.nonblocks
      then fail io_error
      else if q.is_tty && not q.takes_raw
      then fail io_error
      else ok tt

  -- sess_init; `banner` is the text that it shows, in lines
  unfoldable pub sess_init : List (List ℕ) → Setup → Act (Console k) Unit
  unfolding ◌>>=◌
  sess_init banner q = do
    modify (sess_close k a)
    on_seat k a watch_all
    modify (append_banner banner)
    λ s. (set_up q, s)

-- get_session_channel_config, the part for the session
unfoldable pub session_config : List ℕ → Option (ℕ × ℕ) → Result Config
session_config term none = fail io_error
session_config term (some (width, height)) = ok (record {
  run_command = none;
  alloc_pty = true;
  term = term;
  term_width = width;
  term_height = height;
})
