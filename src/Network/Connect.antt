-- ===== src/Network/Connect.antt =====
-- common/network.c: ssh_net_connect with make_socket and make_connection, and
-- ssh_net_set_sock_blocking. The answers of the kernel to `socket` and `connect` are lists, as for
-- `read`; a list's end is a call that fails. What getaddrinfo finds is an argument.
use eessh.Prelude.{
  ℕ, ◌≡◌, refl, subst, List, [], ◌∷◌, Bool, true, false, not, Option, none, some, ◌==◌,
  if◌then◌else◌, Result, Status, ok, fail, net_failure, io_error, ==-self, arith,
}

-- The answers to `socket`: a file descriptor, EINTR, an error.
pub data SocketEvent : Type 0 where
  made : ℕ → SocketEvent
  interrupted : SocketEvent
  failed : SocketEvent

-- The answers to `connect`: success, EINTR, an error.
pub data ConnectEvent : Type 0 where
  connected : ConnectEvent
  interrupted : ConnectEvent
  refused : ConnectEvent

-- The process in the kernel: the answers to come and the descriptors of open sockets
pub record Kernel : Type 0 where
  pub sockets : List SocketEvent
  pub connects : List ConnectEvent
  pub descriptors : List ℕ

unfoldable pub make_socket : List SocketEvent → Option ℕ × List SocketEvent
make_socket [] = (none, [])
make_socket (made sock ∷ es) = (some sock, es)
make_socket (SocketEvent.interrupted ∷ es) = make_socket es
make_socket (failed ∷ es) = (none, es)

unfoldable pub make_connection : List ConnectEvent → Bool × List ConnectEvent
make_connection [] = (false, [])
make_connection (connected ∷ es) = (true, es)
make_connection (ConnectEvent.interrupted ∷ es) = make_connection es
make_connection (refused ∷ es) = (false, es)

-- What `close` leaves open
unfoldable pub close : ℕ → List ℕ → List ℕ
close sock [] = []
close sock (s ∷ ss) = let rest = close sock ss in if s == sock then ss else s ∷ rest

-- A new socket, and a connection of it to an address
abbrev pub with_socket : Option ℕ × List SocketEvent → Kernel → Option ℕ × Kernel
with_socket (none, es) s = (none, record s { sockets = es })
with_socket (some sock, es) s =
    let (r, cs) = make_connection s.connects in
    if r
    then (some sock, record { sockets = es; connects = cs; descriptors = sock ∷ s.descriptors })
    else (
      none,
      record { sockets = es; connects = cs; descriptors = close sock (sock ∷ s.descriptors) },
    )

abbrev pub or_else : Option ℕ × Kernel → (Kernel → Option ℕ × Kernel) → Option ℕ × Kernel
or_else (some sock, s) f = (some sock, s)
or_else (none, s) f = f s

-- The addresses in their order, up to the first that can be reached
unfoldable pub try_addresses : {Address : Type 0} → List Address → Kernel → Option ℕ × Kernel
try_addresses [] s = (none, s)
try_addresses (addr ∷ addrs) s =
    or_else (with_socket (make_socket s.sockets) s) (try_addresses addrs)

abbrev pub reached : Option ℕ × Kernel → Result ℕ × Kernel
reached (some sock, s) = (ok sock, s)
reached (none, s) = (fail net_failure, s)

-- ssh_net_connect, with the addresses of the server if its name is resolved
unfoldable pub net_connect : {Address : Type 0} → Option (List Address) → Kernel → Result ℕ × Kernel
net_connect none s = (fail io_error, s)
net_connect (some addrs) s = reached (try_addresses addrs s)

-- The flags of a file: O_NONBLOCK, and the others
pub record Flags : Type 0 where
  pub nonblock : Bool
  pub others : ℕ

-- ssh_net_set_sock_blocking, with the answers to the two calls of `fcntl`
unfoldable pub set_sock_blocking : Bool → Bool → Bool → Flags → Status × Flags
set_sock_blocking readable writable block s =
    if not readable
    then (fail net_failure, s)
    else if (if block then not (s.nonblock) else s.nonblock)
    then (ok tt, s)
    else if not writable
    then (fail net_failure, s)
    else (ok tt, record s { nonblock = not block })

-- What an attempt to connect leaves open
abbrev KeptBy : List ℕ → Option ℕ × Kernel → Type 0
KeptBy before (some sock, s) = s.descriptors ≡ sock ∷ before
KeptBy before (none, s) = s.descriptors ≡ before

close-first : (sock : ℕ) (before : List ℕ) → close sock (sock ∷ before) ≡ before
unfolding close
close-first sock before = rw (==-self sock) refl

-- One address: a socket that cannot be connected is closed again.
with_socket-KeptBy :
    (a : Option ℕ × List SocketEvent) (s : Kernel) → KeptBy s.descriptors (with_socket a s)
with_socket-KeptBy (none, es) s = refl
with_socket-KeptBy (some sock, es) s = by_answer (make_connection s.connects)
  where
    by_answer :
        (c : Bool × List ConnectEvent)
        → KeptBy s.descriptors (
            if c.0
            then (
              some sock,
              record { sockets = es; connects = c.1; descriptors = sock ∷ s.descriptors },
            )
            else (
              none,
              record {
                sockets = es;
                connects = c.1;
                descriptors = close sock (sock ∷ s.descriptors);
              },
            ))
    by_answer (true, cs) = refl
    by_answer (false, cs) = close-first sock s.descriptors

or_else-KeptBy :
    (before : List ℕ) (a : Option ℕ × Kernel) (f : Kernel → Option ℕ × Kernel)
    → ((s : Kernel) → KeptBy s.descriptors (f s))
    → KeptBy before a
    → KeptBy before (or_else a f)
or_else-KeptBy before (some sock, s) f g h = h
or_else-KeptBy before (none, s) f g h = subst (λ ds. KeptBy ds (f s)) h (g s)

try_addresses-KeptBy :
    {Address : Type 0} (addrs : List Address) (s : Kernel)
    → KeptBy s.descriptors (try_addresses addrs s)
unfolding try_addresses
try_addresses-KeptBy [] s = refl
try_addresses-KeptBy (addr ∷ addrs) s =
    or_else-KeptBy s.descriptors (with_socket (make_socket s.sockets) s) (try_addresses addrs)
      (try_addresses-KeptBy addrs) (with_socket-KeptBy (make_socket s.sockets) s)

-- The sockets that are open after ssh_net_connect
abbrev pub Leaves : List ℕ → Result ℕ × Kernel → Type 0
Leaves before (ok sock, s) = s.descriptors ≡ sock ∷ before
Leaves before (fail e, s) = s.descriptors ≡ before

-- Whatever getaddrinfo, `socket` and `connect` answer, ssh_net_connect leaves open what was open
-- before and, if it succeeds, the socket that it returns: each socket that could not be connected
-- is closed.
pub net_connect-Leaves :
    {Address : Type 0} (addrs : Option (List Address)) (s : Kernel)
    → Leaves s.descriptors (net_connect addrs s)
unfolding net_connect
net_connect-Leaves none s = refl
net_connect-Leaves (some addrs) s =
    by_outcome (try_addresses addrs s) (try_addresses-KeptBy addrs s)
  where
    by_outcome : (a : Option ℕ × Kernel) → KeptBy s.descriptors a → Leaves s.descriptors (reached a)
    by_outcome (some sock, t) h = h
    by_outcome (none, t) h = h

-- ssh_net_set_sock_blocking succeeds only with the flag as it was asked for.
pub set_sock_blocking_ok :
    (readable writable block : Bool) (s t : Flags)
    → set_sock_blocking readable writable block s ≡ (ok tt, t)
    → (t.nonblock ≡ not block) × (t.others ≡ s.others)
unfolding set_sock_blocking
set_sock_blocking_ok readable writable block s t h = ground arith
