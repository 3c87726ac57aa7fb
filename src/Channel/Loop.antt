-- ===== src/Channel/Loop.antt =====
-- ssh/channel.c: the loop around `poll`, and the life of the channels of a connection. What `poll`
-- answers, and whether a signal has come, is a list of turns.
pub mod Finish
use eessh.Prelude.{
  ℕ, zero, suc, ◌+◌, ◌*◌, List, [], ◌∷◌, ◌++◌, Bool, true, false, not, ◌&&◌, ltb, ◌==◌,
  if◌then◌else◌, length, get_or, Option, none, some, Result, ok, fail, Status, io_error,
  would_block, out_of_memory, Act, pure, raise, gets, modify, ◌>>=◌, ◌>>◌,
}
use eessh.Buffer.{Allocator}
use eessh.Network.Connect.{Flags, set_sock_blocking}
use eessh.Stream.{Crypto, Stream, send_is_pending, send_flush}
use eessh.Channel.{Chan, PollFd, Seat, new_chan, send_channel_open}
use eessh.Channel.Watch.{
  has, pollin, pollout, max_poll_fds, pollfd_events_to_chan_flags, collect_poll_fds,
}
use eessh.Channel.Dispatch.{Client, Conn, free_num, remove_closed_channels, close, process_packets}

-- What `poll` gives: EINTR, another error, or the `revents` of its entries
pub data Poll : Type 0 where
  interrupted : Poll
  broken : Poll
  ready : List ℕ → Poll

pub record Turn : Type 0 where
  pub signal : Bool
  pub poll : Poll

abbrev pub chans_of : {k : Crypto} → List (Chan × Client k) → List Chan
chans_of [] = []
chans_of ((c, f) ∷ cs) = c ∷ chans_of cs

module _ (k : Crypto) (a : Allocator) (fuel : ℕ) where
  -- A callback of each channel in order; the first that fails ends the loop.
  abbrev pub go_on :
      Status × Seat k
      → Client k
      → List (Chan × Client k)
      → Status × List (Chan × Client k) × Stream k
      → Status × List (Chan × Client k) × Stream k
  go_on (ok _, s) f cs (r, cs', out) = (r, (s.chan, f) ∷ cs', out)
  go_on (fail e, s) f cs rest = (fail e, (s.chan, f) ∷ cs, s.out)

  unfoldable pub each_channel :
      (Client k → Act (Seat k) Unit)
      → List (Chan × Client k)
      → Stream k
      → Status × List (Chan × Client k) × Stream k
  each_channel m [] out = (ok tt, [], out)
  each_channel m ((c, f) ∷ cs) out =
      let (r, s) = m f (record { chan = c; out = out }) in
      let rest = each_channel m cs s.out in go_on (r, s) f cs rest

  abbrev pub on_channels : (Client k → Act (Seat k) Unit) → Act (Conn k) Unit
  on_channels m s =
      let (r, cs, out) = each_channel m s.channels s.output in
      (r, record s { channels = cs; output = out })

  -- chan_handle_signal_notification
  unfoldable pub handle_signal_notification : Act (Conn k) Unit
  handle_signal_notification = on_channels (λ f. f.notify_signal)

  -- The inner loop of chan_notify_channels_watch_fds, from entry `j` of the channel's table. A
  -- callback may change the table, which holds `max_poll_fds` entries at most: this is fuel enough.
  unfoldable pub notify_from : ℕ → ℕ → ℕ → ℕ → Client k → Act (Seat k) Unit
  unfolding ◌>>=◌
  notify_from zero j fd revents f = pure tt
  notify_from (suc n) j fd revents f = do
    fds ← gets (λ s. s.chan.watch_fds)
    if not (ltb j (length fds)) then pure tt else do
      (if not (revents == 0) && fd == (get_or {A = PollFd} fds j (record { fd = 0; events = 0 })).fd
          then f.notify_fd_ready fd (pollfd_events_to_chan_flags revents)
          else pure tt)
      notify_from n (j + 1) fd revents f

  -- chan_notify_channels_watch_fds
  unfoldable pub notify_channels_watch_fds : PollFd → ℕ → Act (Conn k) Unit
  notify_channels_watch_fds p revents = on_channels (notify_from max_poll_fds 0 p.fd revents)

  unfoldable pub notify_all : List PollFd → List ℕ → Act (Conn k) Unit
  unfolding ◌>>=◌
  notify_all [] revents = pure tt
  notify_all (p ∷ ps) [] = pure tt
  notify_all (p ∷ ps) (r ∷ rs) = notify_channels_watch_fds p r >> notify_all ps rs

  -- The entries for `poll`: the socket, whose number is `sock`, and the files of the channels
  abbrev pub collect_all : List Chan → List PollFd → List PollFd
  collect_all [] ret = ret
  collect_all (c ∷ cs) ret = collect_all cs (collect_poll_fds c.watch_fds ret)

  abbrev pub socket_entry : ℕ → Stream k → PollFd
  socket_entry sock out = record {
    fd = sock;
    events = if send_is_pending k a out then pollin + pollout else pollin;
  }

  unfoldable pub poll_fds : ℕ → Conn k → List PollFd
  poll_fds sock s = collect_all (chans_of s.channels) (socket_entry sock s.output ∷ [])

  -- A flush that would block is no error.
  abbrev pub unless_blocked : Status → Status
  unless_blocked (ok u) = ok u
  unless_blocked (fail would_block) = ok tt
  unless_blocked (fail e) = fail e

  abbrev pub flush : Act (Conn k) Unit
  flush s = let (r, out) = send_flush k a s.output in (unless_blocked r, record s { output = out })

  abbrev pub tail_of : {A : Type 0} → List A → List A
  tail_of [] = []
  tail_of (x ∷ xs) = xs

  -- What follows a `poll` with the entries `fds`
  unfoldable pub answer : List PollFd → Poll → Act (Conn k) Unit
  unfolding ◌>>=◌
  answer fds interrupted = pure tt
  answer fds broken = raise io_error
  answer fds (ready revents) = do
    (if has (get_or revents 0 0) pollin then process_packets k a fuel else pure tt)
    (if has (get_or revents 0 0) pollout then flush else pure tt)
    notify_all (tail_of fds) (tail_of revents)

  -- One turn of chan_loop, behind the test for its end
  unfoldable pub turn : ℕ → Turn → Act (Conn k) Unit
  unfolding ◌>>=◌
  turn sock t = do
    (if t.signal then handle_signal_notification else pure tt)
    fds ← gets (poll_fds sock)
    answer fds t.poll

  abbrev pub remove_closed : Conn k → Conn k
  remove_closed s = record s { channels = remove_closed_channels s.channels }

  -- The loop: it ends without channels, or with an error; `none` is a loop that waits in `poll`.
  abbrev pub after_turn :
      Status × Conn k → (Conn k → Option Status × Conn k) → Option Status × Conn k
  after_turn (ok _, s) go = go s
  after_turn (fail e, s) go = (some (fail e), s)

  abbrev pub unless_done :
      List (Chan × Client k) → Conn k → Option Status × Conn k → Option Status × Conn k
  unless_done [] s next = (some (ok tt), s)
  unless_done (c ∷ cs) s next = next

  -- chan_loop
  unfoldable pub loop : ℕ → List Turn → Conn k → Option Status × Conn k
  loop sock [] s = unless_done (remove_closed s).channels (remove_closed s) (none, remove_closed s)
  loop sock (t ∷ ts) s =
      let next = after_turn (turn sock t (remove_closed s)) (loop sock ts) in
      unless_done (remove_closed s).channels (remove_closed s) next

  -- chan_close_all_channels
  unfoldable pub close_all_channels : Conn k → Conn k
  close_all_channels s =
      let (r, cs, out) = each_channel (λ f. modify (close k a f)) s.channels s.output in
      remove_closed (record s { channels = cs; output = out })

  -- One channel more: chan_new and chan_send_channel_open
  unfoldable pub add_channel : ℕ → Client k → Act (Conn k) Unit
  add_channel chan_size f s =
      let n = suc (length s.channels) in
      let num = free_num (n * n) (chans_of s.channels) (chans_of s.channels) 0 in
      let (r, t) = send_channel_open k a (record { chan = new_chan num; out = s.output }) in
      if a.grants chan_size
      then (r, record s { channels = s.channels ++ (t.chan, f) ∷ []; output = t.out })
      else (fail out_of_memory, s)

  unfoldable pub add_channels : ℕ → List (Client k) → Act (Conn k) Unit
  unfolding ◌>>=◌
  add_channels chan_size [] = pure tt
  add_channels chan_size (f ∷ fs) = add_channel chan_size f >> add_channels chan_size fs

  abbrev pub close_after : Option Status × Conn k → Option Status × Conn k
  close_after (none, s) = (none, s)
  close_after (some r, s) = (some r, close_all_channels s)

  abbrev pub run_with : Status × Conn k → (Conn k → Option Status × Conn k) → Option Status × Conn k
  run_with (fail e, s) go = (some (fail e), s)
  run_with (ok _, s) go = close_after (go s)

  -- The channels are requested once the socket does not block.
  abbrev pub unless_blocking :
      Status → Conn k → (Conn k → Option Status × Conn k) → Option Status × Conn k
  unless_blocking (fail e) s go = (some (fail e), s)
  unless_blocking (ok _) s go = go s

  -- ssh_chan_run_connection; `readable` and `writable` say whether the flags of the socket can be
  -- read and set.
  unfoldable pub run_connection :
      ℕ → ℕ → Bool → Bool → Flags → List (Client k) → List Turn → Conn k → Option Status × Conn k
  run_connection chan_size sock readable writable flags clients turns s =
      unless_blocking (set_sock_blocking readable writable false flags).0 s
        (λ s'. run_with (add_channels chan_size clients s') (loop sock turns))
