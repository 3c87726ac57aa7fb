-- ===== src/Channel/Watch.antt =====
-- ssh/channel.c: the files that a channel watches, a table of eight entries. The bits of `poll` are
-- those of Linux; `short` and `int` values are never negative here.
pub mod Table
use eessh.Prelude.{
  ℕ, ◌+◌, ◌-◌, ◌^◌, List, [], ◌∷◌, ◌++◌, Bool, true, false, not, ◌==◌, ltb, if◌then◌else◌, Option,
  none, some, length, Act, pure, raise, lift, modify, ◌>>=◌, ◌>>◌, Result, Status, ok, fail,
  too_many_fds,
}
use Prim.Native.Nat.{bit_and, bit_or}
use eessh.Channel.{Chan, PollFd}

abbrev pub max_poll_fds : ℕ
max_poll_fds = 8

-- SSH_CHAN_FD_READ, SSH_CHAN_FD_WRITE, SSH_CHAN_FD_CLOSE
abbrev pub fd_read : ℕ
fd_read = 1

abbrev pub fd_write : ℕ
fd_write = 2

abbrev pub fd_close : ℕ
fd_close = 4

abbrev pub pollin : ℕ
pollin = 1

abbrev pollpri : ℕ
pollpri = 2

abbrev pub pollout : ℕ
pollout = 4

abbrev pollhup : ℕ
pollhup = 16

abbrev pollwrband : ℕ
pollwrband = 512

abbrev pub has : ℕ → ℕ → Bool
has flags mask = not (bit_and flags mask == 0)

unfoldable pub chan_flags_to_pollfd_events : ℕ → ℕ
chan_flags_to_pollfd_events flags =
    bit_or (if has flags (bit_or fd_read fd_close) then bit_or pollin pollhup else 0)
      (if has flags fd_write then pollout else 0)

unfoldable pub pollfd_events_to_chan_flags : ℕ → ℕ
pollfd_events_to_chan_flags events =
    bit_or
      (bit_or (if has events (bit_or pollin pollpri) then fd_read else 0)
        (if has events pollhup then fd_close else 0))
      (if has events (bit_or pollout pollwrband) then fd_write else 0)

-- events & ~remove_events
abbrev pub without : ℕ → ℕ → ℕ
without events remove_events = bit_and events (2 ^ 16 - 1 - remove_events)

-- The loop of update_poll_fd_events: the first entry of the file is changed.
unfoldable pub update_entry : List PollFd → ℕ → ℕ → ℕ → Option (List PollFd)
update_entry [] fd add remove = none
update_entry (p ∷ ps) fd add remove =
    let later = update_entry ps fd add remove in
    if p.fd == fd
    then some (record p { events = without (bit_or p.events add) remove } ∷ ps)
    else elim later [ none ↦ none | some qs ↦ some (p ∷ qs) ]

unfoldable pub update_poll_fd_events : ℕ → ℕ → ℕ → Act (List PollFd) Unit
update_poll_fd_events fd add remove ps = elim (update_entry ps fd add remove) [
  | some qs ↦ (ok tt, qs)
  | none ↦
      if ltb (length ps) max_poll_fds
      then (ok tt, ps ++ record { fd = fd; events = without add remove } ∷ [])
      else (fail too_many_fds, ps)
]

-- The loop of ssh_chan_watch_fd that moves the table down over the empty entries.
unfoldable pub remove_empty : List PollFd → List PollFd
remove_empty [] = []
remove_empty (p ∷ ps) = let rest = remove_empty ps in if p.events == 0 then rest else p ∷ rest

-- No error if there is no room for an entry that would only clear events.
abbrev pub unless_needed : ℕ → Status → Status
unless_needed enable_events (ok u) = ok u
unless_needed enable_events (fail e) = if enable_events == 0 then ok tt else fail e

abbrev pub on_fds : {A : Type 0} → Act (List PollFd) A → Act Chan A
on_fds m c = let (r, ps) = m c.watch_fds in (r, record c { watch_fds = ps })

unfoldable pub update_needed : ℕ → ℕ → ℕ → Act (List PollFd) Unit
update_needed fd enable_events disable_events ps =
    let (r, qs) = update_poll_fd_events fd enable_events disable_events ps in
    (unless_needed enable_events r, qs)

-- ssh_chan_watch_fd
unfoldable pub watch_fd : ℕ → ℕ → ℕ → Act Chan Unit
unfolding ◌>>=◌
watch_fd fd enable_fd_flags disable_fd_flags = on_fds (do
  update_needed fd (chan_flags_to_pollfd_events enable_fd_flags)
      (chan_flags_to_pollfd_events disable_fd_flags)
  modify remove_empty)

-- chan_collect_channel_poll_fds: entries that find no room are left out
unfoldable pub collect_poll_fds : List PollFd → List PollFd → List PollFd
collect_poll_fds [] ret = ret
collect_poll_fds (p ∷ ps) ret = collect_poll_fds ps (update_poll_fd_events p.fd p.events 0 ret).1
