-- ===== src/Userauth.antt =====
-- ssh/userauth.c: user authentication by a password, then by the method "none".
pub mod Success
use eessh.Prelude.{
  ℕ, zero, suc, ◌+◌, List, [], ◌∷◌, Bool, true, false, ◌==◌, if◌then◌else◌, Option, none, some, Act,
  pure, raise, lift, Result, ok, fail, ◌>>=◌, ◌>>◌, unexpected_packet, auth_failure, same_bytes,
}
use eessh.Buffer.{Allocator}
use eessh.Reader.{Reader, read_u8, read_string}
use eessh.Message.{byte, text}
use eessh.Stream.{Crypto}
use eessh.Connection.{Peer, packet_type, receive_skip_ignore, on_input, send}
use eessh.Constants.{
  msg_service_request, msg_service_accept, msg_userauth_request, msg_userauth_failure,
  msg_userauth_success,
}

-- enum SSH_USERAUTH_RESULT
pub data AuthResult : Type 0 where
  success : AuthResult
  partial_failure : AuthResult
  failure : AuthResult

abbrev pub is_success : AuthResult → Bool
is_success success = true
is_success _ = false

-- MAX_PASSWORD_TRIES
abbrev pub max_password_tries : ℕ
max_password_tries = 3

-- "ssh-userauth"
abbrev pub userauth_service : List ℕ
userauth_service = 115 ∷ 115 ∷ 104 ∷ 45 ∷ 117 ∷ 115 ∷ 101 ∷ 114 ∷ 97 ∷ 117 ∷ 116 ∷ 104 ∷ []

-- "ssh-connection"
abbrev pub connection_service : List ℕ
connection_service =
    115 ∷ 115 ∷ 104 ∷ 45 ∷ 99 ∷ 111 ∷ 110 ∷ 110 ∷ 101 ∷ 99 ∷ 116 ∷ 105 ∷ 111 ∷ 110 ∷ []

-- "password"
abbrev pub password_method : List ℕ
password_method = 112 ∷ 97 ∷ 115 ∷ 115 ∷ 119 ∷ 111 ∷ 114 ∷ 100 ∷ []

-- "none"
abbrev pub none_method : List ℕ
none_method = 110 ∷ 111 ∷ 110 ∷ 101 ∷ []

-- What userauth_init makes of the two reads from SSH_MSG_SERVICE_ACCEPT
abbrev pub accept_of : Result ℕ → Result (List ℕ) → Result (Unit {0})
accept_of (fail e) service = fail unexpected_packet
accept_of (ok _) (fail e) = fail unexpected_packet
accept_of (ok _) (ok service) =
    if same_bytes service userauth_service then ok tt else fail unexpected_packet

-- What userauth_read_response makes of SSH_MSG_USERAUTH_FAILURE
abbrev pub failure_of : Result ℕ → Result AuthResult
failure_of (fail e) = fail e
failure_of (ok partial_success) = ok (if partial_success == 0 then failure else partial_failure)

-- `username` and the answers of the client's password reader, by the number of the try; `fuel` bounds the
-- packets that one receive may skip.
module _ (k : Crypto) (a : Allocator) (fuel : ℕ) (username : List ℕ) where
  abbrev pub check_service : Reader → Act (Peer k) Unit
  check_service r = lift (accept_of (read_u8 r).0 (read_string (read_u8 r).1).0)

  unfoldable pub init : Act (Peer k) Unit
  unfolding ◌>>=◌
  init = do
    send k a (byte msg_service_request ∷ text userauth_service ∷ [])
    r ← on_input k a (receive_skip_ignore k a fuel)
    if packet_type r == msg_service_accept then check_service r else raise unexpected_packet

  -- The answer to a request. What is read as `partial_success` is the first byte that the reader
  -- stands at, as in the source.
  unfoldable pub read_response : Act (Peer k) AuthResult
  unfolding ◌>>=◌
  read_response = do
    r ← on_input k a (receive_skip_ignore k a fuel)
    if packet_type r == msg_userauth_success
        then pure success
        else if packet_type r == msg_userauth_failure
        then lift (failure_of (read_u8 r).0)
        else raise unexpected_packet

  -- One try: the request, and the answer
  unfoldable pub try_password : List ℕ → Act (Peer k) AuthResult
  unfolding ◌>>=◌
  try_password password = do
    send k a (
        byte msg_userauth_request
        ∷ text username
        ∷ text connection_service
        ∷ text password_method
        ∷ byte 0
        ∷ text password
        ∷ [])
    read_response

  -- The loop of userauth_method_password, with `left` tries left
  unfoldable pub try_passwords :
      (ℕ → Option (List ℕ)) → ℕ → ℕ → AuthResult → Act (Peer k) AuthResult
  unfolding ◌>>=◌
  try_passwords reader zero num_tries result = pure result
  try_passwords reader (suc left) num_tries result = elim (reader num_tries) [
    | none ↦ pure failure
    | some password ↦ do
      result' ← try_password password
      if is_success result' then pure success else try_passwords reader left (num_tries + 1) result'
  ]

  unfoldable pub method_password : (ℕ → Option (List ℕ)) → Act (Peer k) AuthResult
  method_password reader = try_passwords reader max_password_tries 0 failure

  unfoldable pub method_none : Act (Peer k) AuthResult
  unfolding ◌>>=◌
  method_none = do
    send k a (
        byte msg_userauth_request ∷ text username ∷ text connection_service ∷ text none_method ∷ [])
    read_response

  -- The rest of ssh_userauth_run, without a password
  unfoldable pub run_none : Act (Peer k) Unit
  unfolding ◌>>=◌
  run_none = do result ← method_none; if is_success result then pure tt else raise auth_failure

  abbrev pub run_with : Option (ℕ → Option (List ℕ)) → Act (Peer k) Unit
  run_with none = run_none
  run_with (some reader) =
      method_password reader >>= λ result. if is_success result then pure tt else run_none

  -- ssh_userauth_run
  unfoldable pub run : Option (ℕ → Option (List ℕ)) → Act (Peer k) Unit
  unfolding ◌>>=◌
  run reader = do init; run_with reader
