-- ===== src/Network.antt =====
-- common/network.c: `ssh_net_read` and `ssh_net_write`, loops over the system calls. What the
-- kernel answers to each call is a list of events; the list's end is a socket with nothing to say.
pub mod Read
pub mod Write
pub mod Connect
use eessh.Prelude.{
  ℕ, zero, suc, ◌+◌, ◌-◌, ◌^◌, List, [], ◌∷◌, ◌++◌, ltb, ◌==◌, if◌then◌else◌, length, take, drop,
  Result, Status, ok, fail, read_too_large, net_failure, disconnected, min,
}

-- The answers to `read`: bytes (none of them at the end of the stream), EINTR, EAGAIN, an error.
pub data ReadEvent : Type 0 where
  chunk : List ℕ → ReadEvent
  interrupted : ReadEvent
  again : ReadEvent
  broken : ReadEvent

-- The answers to `write`: how many bytes the kernel has room for, EINTR, EAGAIN, an error.
pub data WriteEvent : Type 0 where
  room : ℕ → WriteEvent
  interrupted : WriteEvent
  again : WriteEvent
  broken : WriteEvent

abbrev pub ssize_max : ℕ
ssize_max = 2 ^ 63 - 1

-- `left` bytes are still wanted and `got` have come. Of a chunk that is longer than what is wanted
-- the rest stays in the kernel.
unfoldable pub read_loop : List ReadEvent → ℕ → List ℕ → Result (List ℕ) × List ReadEvent
read_loop [] left got = (ok got, [])
read_loop (e ∷ es) zero got = (ok got, e ∷ es)
read_loop (ReadEvent.interrupted ∷ es) left got = read_loop es left got
read_loop (ReadEvent.again ∷ es) left got = (ok got, es)
read_loop (ReadEvent.broken ∷ es) left got = (fail net_failure, es)
read_loop (chunk [] ∷ es) left got = (fail disconnected, es)
read_loop (chunk (x ∷ xs) ∷ es) left got =
    let more = read_loop es (left - length (x ∷ xs)) (got ++ x ∷ xs) in
    if ltb left (length (x ∷ xs))
    then (ok (got ++ take left (x ∷ xs)), chunk (drop left (x ∷ xs)) ∷ es)
    else more

-- ssh_net_read: the bytes that came, which are fewer than asked for if the socket would block
unfoldable pub net_read : List ReadEvent → ℕ → Result (List ℕ) × List ReadEvent
net_read es len = if ltb ssize_max len then (fail read_too_large, es) else read_loop es len []

-- What a run of `write` calls has done: its status, the bytes that the kernel took, also in front
-- of an error, and the answers left.
unfoldable pub write_loop : List WriteEvent → List ℕ → List ℕ → Status × List ℕ × List WriteEvent
write_loop es [] sent = (ok tt, sent, es)
write_loop [] (x ∷ xs) sent = (ok tt, sent, [])
write_loop (WriteEvent.interrupted ∷ es) (x ∷ xs) sent = write_loop es (x ∷ xs) sent
write_loop (WriteEvent.again ∷ es) (x ∷ xs) sent = (ok tt, sent, es)
write_loop (WriteEvent.broken ∷ es) (x ∷ xs) sent = (fail net_failure, sent, es)
write_loop (room zero ∷ es) (x ∷ xs) sent = (ok tt, sent, es)
write_loop (room (suc n) ∷ es) (x ∷ xs) sent = write_loop es (drop n xs) (sent ++ x ∷ take n xs)

-- ssh_net_write: where it succeeds, its result is the number of the bytes that were sent.
unfoldable pub net_write : List WriteEvent → List ℕ → Status × List ℕ × List WriteEvent
net_write es bytes =
    if ltb ssize_max (length bytes) then (fail read_too_large, [], es) else write_loop es bytes []
