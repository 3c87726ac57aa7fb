-- ===== src/Session.antt =====
-- ssh/channel_session.c: a session on a channel, a shell or a command, with or without a terminal.
pub mod Status
use eessh.Prelude.{
  ℕ, List, [], ◌∷◌, Bool, true, false, ◌==◌, if◌then◌else◌, Option, none, some, Result, ok, fail,
  Act, pure, gets, ◌>>=◌, ◌>>◌,
}
use eessh.Buffer.{Allocator}
use eessh.Reader.{Reader}
use eessh.Message.{Field, byte, word, text}
use eessh.Stream.{Crypto}
use eessh.Connection.{packet_type}
use eessh.Channel.{Chan, Seat, opened, send}
use eessh.Channel.Dispatch.{Client, close}
use eessh.Constants.{msg_channel_request, msg_channel_success}

-- struct SSH_CHAN_SESSION_CONFIG
pub record Config : Type 0 where
  pub run_command : Option (List ℕ)
  pub alloc_pty : Bool
  pub term : List ℕ
  pub term_width : ℕ
  pub term_height : ℕ

-- "pty-req"
abbrev pub pty_req : List ℕ
pty_req = 112 ∷ 116 ∷ 121 ∷ 45 ∷ 114 ∷ 101 ∷ 113 ∷ []

-- "shell"
abbrev pub shell : List ℕ
shell = 115 ∷ 104 ∷ 101 ∷ 108 ∷ 108 ∷ []

-- "exec"
abbrev pub exec : List ℕ
exec = 101 ∷ 120 ∷ 101 ∷ 99 ∷ []

-- "window-change"
abbrev pub window_change : List ℕ
window_change = 119 ∷ 105 ∷ 110 ∷ 100 ∷ 111 ∷ 119 ∷ 45 ∷ 99 ∷ 104 ∷ 97 ∷ 110 ∷ 103 ∷ 101 ∷ []

module _ (k : Crypto) (a : Allocator) where
  -- A channel request of some kind for the channel's peer
  abbrev pub request : List ℕ → ℕ → List Field → Act (Seat k) Unit
  request kind want_reply fields s =
      send k a
        (byte msg_channel_request ∷ word s.chan.remote_num ∷ text kind ∷ byte want_reply ∷ fields) s

  abbrev pub request_pty : Config → Act (Seat k) Unit
  request_pty cfg =
      request pty_req 0 (
        text cfg.term ∷ word cfg.term_width ∷ word cfg.term_height ∷ word 0 ∷ word 0 ∷ text [] ∷ [])

  abbrev pub request_program : Option (List ℕ) → Act (Seat k) Unit
  request_program none = request shell 1 []
  request_program (some run_command) = request exec 1 (text run_command ∷ [])

  -- ssh_chan_session_opened
  unfoldable pub session_opened : Config → Act (Seat k) Unit
  unfolding ◌>>=◌
  session_opened cfg = do
    if cfg.alloc_pty then request_pty cfg else pure tt
    request_program cfg.run_command

  -- The channel is closed if the client refuses it.
  abbrev pub unless_refused : Client k → Result (Unit {0}) → Seat k → Seat k
  unless_refused f (ok _) s = s
  unless_refused f (fail e) s = close k a f s

  -- ssh_chan_session_process_packet; `notify_open` is the client's callback
  unfoldable pub session_process_packet : Client k → Act (Seat k) Unit → Reader → Act (Seat k) Unit
  session_process_packet f notify_open r s =
      let (answer, s') = notify_open (record s { chan = record (s.chan) { status = opened } }) in
      if packet_type r == msg_channel_success
      then (ok tt, unless_refused f answer s')
      else (ok tt, s)

  -- ssh_chan_session_new_term_size
  unfoldable pub new_term_size : ℕ → ℕ → Act (Seat k) Unit
  new_term_size width height =
      request window_change 0 (word width ∷ word height ∷ word 0 ∷ word 0 ∷ [])
