-- ===== src/Session/Status.antt =====
-- The status of a session's channel.
use eessh.Prelude.{
  ◌≡◌, refl, ap, Bool, true, false, ◌==◌, ok, fail, Act, Bool-cases, inl, inr, Status,
}
use eessh.Buffer.{Allocator}
use eessh.Reader.{Reader}
use eessh.Stream.{Crypto}
use eessh.Connection.{packet_type}
use eessh.Channel.{ChanStatus, Seat, opened, closed, is_open}
use eessh.Channel.Dispatch.{Client, close}
use eessh.Constants.{msg_channel_success}
use eessh.Session.{unless_refused, session_process_packet}

-- The status of a channel to which a packet has come; `answer` is what the client says to its opening.
abbrev pub next_status : Bool → Status → ChanStatus → ChanStatus
next_status true (ok _) before = opened
next_status true (fail e) before = closed
next_status false answer before = before

module _ (k : Crypto) (a : Allocator) (f : Client k) (notify_open : Act (Seat k) Unit) where
  abbrev announced : Seat k → Seat k
  announced s = record s { chan = record (s.chan) { status = opened } }

  close-status : (s : Seat k) → s.chan.status ≡ opened → (close k a f s).chan.status ≡ closed
  unfolding close
  close-status s e = rw (ap is_open e) refl

  answered :
      (r : Status) (s : Seat k) (before : ChanStatus)
      → s.chan.status ≡ opened
      → (unless_refused k a f r s).chan.status ≡ next_status true r before
  answered (ok u) s before e = e
  answered (fail x) s before e = close-status s e

  -- For a client whose callback leaves the channel's status alone, SSH_MSG_CHANNEL_SUCCESS opens
  -- the channel, or closes it if the client refuses, and any other packet leaves the status.
  process_packet-status :
      (r : Reader) (s : Seat k)
      → ((t : Seat k) → (notify_open t).1.chan.status ≡ t.chan.status)
      → (session_process_packet k a f notify_open r s).1.chan.status
        ≡ next_status
            (packet_type r == msg_channel_success)
            (notify_open (announced s)).0
            s.chan.status
  unfolding session_process_packet
  process_packet-status r s keeps = elim (Bool-cases (packet_type r == msg_channel_success)) [
    | inl hit ↦ rw hit (
        answered (notify_open (announced s)).0 (notify_open (announced s)).1 s.chan.status
          (keeps (announced s)))
    | inr miss ↦ rw miss refl
  ]
