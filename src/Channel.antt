-- ===== src/Channel.antt =====
-- ssh/channel.c: channels over a connection. This file holds a channel, its status, the flow
-- control in both directions and the messages that a channel sends. An operation on one channel
-- acts on a seat: the channel, and the stream that it sends to.
pub mod Window
pub mod Watch
pub mod Dispatch
pub mod Loop
pub mod Number
use eessh.Prelude.{
  ℕ, ◌+◌, ◌-◌, ◌*◌, ◌%◌, ◌^◌, List, [], ◌∷◌, ◌++◌, Bool, true, false, ltb, ◌==◌, if◌then◌else◌, min,
  length, take, Act, pure, gets, modify, ok, ◌>>=◌, ◌>>◌,
}
use eessh.Buffer.{Allocator}
use eessh.Message.{Field, byte, word, text, send_message}
use eessh.Network.{ssize_max}
use eessh.Stream.{Crypto, Stream}
use eessh.Constants.{
  msg_channel_open, msg_channel_window_adjust, msg_channel_data, msg_channel_extended_data,
}

-- enum SSH_CHAN_STATUS
pub data ChanStatus : Type 0 where
  created : ChanStatus
  requested : ChanStatus
  opened : ChanStatus
  closed : ChanStatus

abbrev pub is_open : ChanStatus → Bool
is_open opened = true
is_open _ = false

abbrev pub is_closed : ChanStatus → Bool
is_closed closed = true
is_closed _ = false

-- struct pollfd: the file, and the events that are watched for
pub record PollFd : Type 0 where
  pub fd : ℕ
  pub events : ℕ

-- struct SSH_CHAN, without the callbacks
pub record Chan : Type 0 where
  pub status : ChanStatus
  pub watch_fds : List PollFd
  pub local_num : ℕ
  pub remote_num : ℕ
  pub local_max_packet_size : ℕ
  pub local_window_size : ℕ
  pub remote_max_packet_size : ℕ
  pub remote_window_size : ℕ

pub record Seat (k : Crypto) : Type 0 where
  pub chan : Chan
  pub out : Stream k

-- What chan_new fills in, under a number that is free
abbrev pub new_chan : ℕ → Chan
new_chan local_num = record {
  status = requested;
  watch_fds = [];
  local_num = local_num;
  remote_num = 0;
  local_max_packet_size = 65536;
  local_window_size = 256 * 1024;
  remote_max_packet_size = 0;
  remote_window_size = 0;
}

-- The name of the only channel type
abbrev pub session_name : List ℕ
session_name = 115 ∷ 101 ∷ 115 ∷ 115 ∷ 105 ∷ 111 ∷ 110 ∷ []

-- The first half of chan_check_adjust_local_window
unfoldable pub consume_window : ℕ → Chan → Chan
consume_window len c =
    let consume_len = if ltb 0xffffffff len then 0xffffffff else len in
    record c {
      local_window_size =
          if ltb c.local_window_size consume_len then 0 else c.local_window_size - consume_len;
    }

-- SSH_MSG_CHANNEL_WINDOW_ADJUST: the sum of two `uint32_t`, which may wrap around
unfoldable pub adjust_remote_window : ℕ → Chan → Chan
adjust_remote_window bytes_to_add c =
    let sum = (c.remote_window_size + bytes_to_add) % 2 ^ 32 in
    record c { remote_window_size = if ltb sum c.remote_window_size then 0xffffffff else sum }

-- How much of the data is sent now
unfoldable pub process_len : Chan → ℕ → ℕ
process_len c data_len =
    let n = if ltb c.remote_window_size data_len then c.remote_window_size else data_len in
    let n' = if ltb c.remote_max_packet_size n then c.remote_max_packet_size else n in
    if ltb ssize_max n' then ssize_max else n'

module _ (k : Crypto) (a : Allocator) where
  abbrev pub on_chan : {A : Type 0} → Act Chan A → Act (Seat k) A
  on_chan m s = let (r, c) = m s.chan in (r, record s { chan = c })

  abbrev pub on_out : {A : Type 0} → Act (Stream k) A → Act (Seat k) A
  on_out m s = let (r, o) = m s.out in (r, record s { out = o })

  abbrev pub send : List Field → Act (Seat k) Unit
  send fs = on_out (send_message k a fs)

  -- chan_send_channel_open
  unfoldable pub send_channel_open : Act (Seat k) Unit
  unfolding ◌>>=◌
  send_channel_open = do
    c ← gets (λ s. s.chan)
    send (
        byte msg_channel_open
        ∷ text session_name
        ∷ word c.local_num
        ∷ word c.local_window_size
        ∷ word c.local_max_packet_size
        ∷ [])

  -- The second half, when the window has become small
  unfoldable pub refill_window : Act (Seat k) Unit
  unfolding ◌>>=◌
  refill_window = do
    c ← gets (λ s. s.chan)
    let bytes_to_add = 2 * 1024 * 1024 - c.local_window_size
    send (byte msg_channel_window_adjust ∷ word c.remote_num ∷ word bytes_to_add ∷ [])
    on_chan (modify (λ c'. record c' { local_window_size = c'.local_window_size + bytes_to_add }))

  unfoldable pub check_adjust_local_window : ℕ → Act (Seat k) Unit
  unfolding ◌>>=◌
  check_adjust_local_window len = do
    on_chan (modify (consume_window len))
    window ← gets (λ s. s.chan.local_window_size)
    if ltb window (512 * 1024) then refill_window else pure tt

  abbrev pub spend : ℕ → Act (Seat k) ℕ
  spend n s = (
    ok n,
    record s { chan = record (s.chan) { remote_window_size = s.chan.remote_window_size - n } },
  )

  -- Send `n` bytes behind the fields of a message, and count them.
  unfoldable pub send_part : List Field → List ℕ → ℕ → Act (Seat k) ℕ
  unfolding ◌>>=◌
  send_part header bytes n = do send (header ++ text (take n bytes) ∷ []); spend n

  -- ssh_chan_send_data
  unfoldable pub send_data : List ℕ → Act (Seat k) ℕ
  unfolding ◌>>=◌
  send_data bytes = do
    c ← gets (λ s. s.chan)
    let n = process_len c (length bytes)
    if n == 0 then pure 0 else send_part (byte msg_channel_data ∷ word c.remote_num ∷ []) bytes n

  -- ssh_chan_send_ext_data
  unfoldable pub send_ext_data : ℕ → List ℕ → Act (Seat k) ℕ
  unfolding ◌>>=◌
  send_ext_data data_type_code bytes = do
    c ← gets (λ s. s.chan)
    let n = process_len c (length bytes)
    if n == 0
        then pure 0
        else send_part
            (byte msg_channel_extended_data ∷ word c.remote_num ∷ word data_type_code ∷ []) bytes n
