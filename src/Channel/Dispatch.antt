-- ===== src/Channel/Dispatch.antt =====
-- ssh/channel.c: the channels of a connection, and what a packet from the server does to them. The
-- client's callbacks, and the functions of the channel type, are parameters: they may change
-- the channel and send on its stream.
use eessh.Prelude.{
  ℕ, zero, suc, ◌+◌, List, [], ◌∷◌, ◌&&◌, leb, ◌==◌, if◌then◌else◌, Option, none, some, length,
  drop, Act, pure, modify, ◌>>=◌, ◌>>◌, Result, Status, ok, fail, unknown_channel, would_block,
  proceed,
}
use eessh.Buffer.{Allocator}
use eessh.Reader.{Reader, read_skip, read_u8, read_u32, read_string}
use eessh.Message.{Field, byte, send_message}
use eessh.Stream.{Crypto, Stream}
use eessh.Connection.{packet_type, receive}
use eessh.Constants.{
  msg_global_request, msg_request_failure, msg_channel_open_confirmation, msg_channel_open_failure,
  msg_channel_window_adjust, msg_channel_data, msg_channel_eof, msg_channel_close,
}
use eessh.Channel.{
  Chan, closed, is_open, is_closed, Seat, on_chan, adjust_remote_window, check_adjust_local_window,
}

-- The callbacks of struct SSH_CHAN_CONFIG and of struct CHAN_TYPE_INFO that packets lead to. The
-- data of notify_received is `none` at the end of the file.
pub record Client (k : Crypto) : Type 0 where
  pub notify_open_failed : Seat k → Seat k
  pub notify_closed : Seat k → Seat k
  pub notify_received : Option (List ℕ) → Seat k → Seat k
  pub notify_signal : Act (Seat k) Unit
  pub notify_fd_ready : ℕ → ℕ → Act (Seat k) Unit
  pub type_opened : Act (Seat k) Unit
  pub type_process_packet : Reader → Act (Seat k) Unit

-- The part of struct SSH_CONN that channels use; a channel stands with its callbacks.
pub record Conn (k : Crypto) : Type 0 where
  pub channels : List (Chan × Client k)
  pub input : Stream k
  pub output : Stream k

-- The search of chan_new for a free number. It starts again at the channel with index 1.
unfoldable pub free_num : ℕ → List Chan → List Chan → ℕ → ℕ
free_num zero all todo local_num = local_num
free_num (suc fuel) all [] local_num = local_num
free_num (suc fuel) all (c ∷ cs) local_num =
    free_num fuel all (if c.local_num == local_num then drop 1 all else cs)
      (if c.local_num == local_num then local_num + 1 else local_num)

-- chan_remove_closed_channels
unfoldable pub remove_closed_channels :
    {k : Crypto} → List (Chan × Client k) → List (Chan × Client k)
remove_closed_channels [] = []
remove_closed_channels ((c, f) ∷ cs) =
    let rest = remove_closed_channels cs in if is_closed c.status then rest else (c, f) ∷ rest

module _ (k : Crypto) (a : Allocator) where
  -- ssh_chan_close
  unfoldable pub close : Client k → Seat k → Seat k
  close f s =
      let s' = f.notify_closed s in
      if is_open s.chan.status then record s' { chan = record (s'.chan) { status = closed } } else s

  abbrev pub tell : (Seat k → Seat k) → Act (Seat k) Unit
  tell f = modify f

  -- A read from the packet, then what follows
  abbrev pub reading :
      {A B : Type 0} → Act Reader A → Reader → (A → Reader → Act (Seat k) B) → Act (Seat k) B
  reading m r f s = let (x, r') = m r in proceed x s (λ v. f v r')

  unfoldable pub on_window_adjust : Reader → Act (Seat k) Unit
  on_window_adjust r s =
      let (x, r') = read_u32 r in
      elim x [
        | ok bytes_to_add ↦ (ok tt, record s { chan = adjust_remote_window bytes_to_add s.chan })
        | fail _ ↦ (ok tt, s)
      ]

  unfoldable pub on_open_confirmation : Client k → Reader → Act (Seat k) Unit
  unfolding ◌>>=◌
  on_open_confirmation f r = reading read_u32 r λ num r1.
      on_chan k a (modify (λ c. record c { remote_num = num }))
      >> reading read_u32 r1 λ window r2.
        on_chan k a (modify (λ c. record c { remote_window_size = window }))
        >> reading read_u32 r2 λ size r3.
          on_chan k a (modify (λ c. record c { remote_max_packet_size = size })) >> f.type_opened

  unfoldable pub on_data : Client k → Reader → Act (Seat k) Unit
  unfolding ◌>>=◌
  on_data f r = reading read_string r λ bytes r1.
      tell (f.notify_received (some bytes)) >> check_adjust_local_window k a (length bytes)

  -- The switch of chan_process_channel_packet
  unfoldable pub process : ℕ → Client k → Reader → Act (Seat k) Unit
  process type f r =
      if type == msg_channel_window_adjust
      then on_window_adjust r
      else if type == msg_channel_open_confirmation
      then on_open_confirmation f r
      else if type == msg_channel_open_failure
      then tell (λ s. close f (f.notify_open_failed s))
      else if type == msg_channel_data
      then on_data f r
      else if type == msg_channel_eof
      then tell (f.notify_received none)
      else if type == msg_channel_close
      then tell (close f)
      else f.type_process_packet r

  -- chan_get_by_num, and the rest of the packet's processing on that channel
  abbrev pub at_channel :
      ℕ
      → (Client k → Act (Seat k) Unit)
      → List (Chan × Client k)
      → Stream k
      → Status × List (Chan × Client k) × Stream k
  at_channel num m [] out = (fail unknown_channel, [], out)
  at_channel num m ((c, f) ∷ cs) out =
      let (r, s) = m f (record { chan = c; out = out }) in
      let (r', cs', out') = at_channel num m cs out in
      if c.local_num == num then (r, (s.chan, f) ∷ cs, s.out) else (r', (c, f) ∷ cs', out')

  abbrev on_num : ℕ → (Client k → Act (Seat k) Unit) → Act (Conn k) Unit
  on_num num m s =
      let (r, cs, out) = at_channel num m s.channels s.output in
      (r, record s { channels = cs; output = out })

  abbrev reading_conn :
      {A B : Type 0} → Act Reader A → Reader → (A → Reader → Act (Conn k) B) → Act (Conn k) B
  reading_conn m r f s = let (x, r') = m r in proceed x s (λ v. f v r')

  -- chan_process_channel_packet
  unfoldable pub process_channel_packet : Reader → Act (Conn k) Unit
  process_channel_packet r =
      reading_conn read_u8 r
        λ type r1. reading_conn read_u32 r1 λ num r2. on_num num (λ f. process type f r2)

  abbrev pub send : List Field → Act (Conn k) Unit
  send fs s = let (r, o) = send_message k a fs s.output in (r, record s { output = o })

  -- chan_handle_global_request
  unfoldable pub handle_global_request : Reader → Act (Conn k) Unit
  handle_global_request r = reading_conn (read_skip 1) r λ _ r1.
      reading_conn read_string r1 λ req_name r2.
        reading_conn read_u8 r2
          λ want_reply r3. if want_reply == 0 then pure tt else send (byte msg_request_failure ∷ [])

  -- ssh_conn_recv_packet on the connection's input
  unfoldable pub conn_recv_packet : Act (Conn k) Reader
  conn_recv_packet s = let (r, i) = receive k a s.input in (r, record s { input = i })

  -- One packet of chan_process_packets
  unfoldable pub process_packet : Reader → Act (Conn k) Unit
  process_packet r =
      let type = packet_type r in
      if leb 90 type && leb type 127
      then process_channel_packet r
      else if type == msg_global_request
      then handle_global_request r
      else pure tt

  -- A receive that would block ends the loop well, any other failure ends it.
  unfoldable pub received : Result Reader × Conn k → Act (Conn k) Unit → Status × Conn k
  unfolding ◌>>=◌
  received (ok r, s) next = (process_packet r >> next) s
  received (fail would_block, s) next = (ok tt, s)
  received (fail e, s) next = (fail e, s)

  -- chan_process_packets, up to `fuel` packets
  unfoldable pub process_packets : ℕ → Act (Conn k) Unit
  process_packets zero s = (ok tt, s)
  process_packets (suc fuel) s = received (conn_recv_packet s) (process_packets fuel)
