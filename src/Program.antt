-- ===== src/Program.antt =====
-- main/main.c: the command line program around the library. What the file system answers is a
-- parameter of the file of keys; the password reader and the output are left out.
pub mod Identity
pub mod CommandLine
use eessh.Prelude.{
  ℕ, ◌+◌, ◌-◌, List, [], ◌∷◌, Option, none, some, ltb, ◌==◌, if◌then◌else◌, length, Result, Status,
  ok, fail, io_error, bad_identity_error, line_too_long,
}
use eessh.Buffer.{Allocator}
use eessh.HostKeys.{
  StoreStatus, StoreFile, found, not_found, bad_identity, other_error, FileSystem, add,
  check_server,
}

-- check_server_identity, which stands in the configuration of the connection: the answer, and the
-- file of keys after it. `fs` answers to the search, `fs'` to the addition, whose failure is only
-- a warning.
module _ (a : Allocator) (fs fs' : FileSystem) where
  abbrev pub settle : List ℕ → List ℕ → StoreFile → StoreStatus → Status × StoreFile
  settle hostname host_key file found = (ok tt, file)
  settle hostname host_key file not_found = (ok tt, (add a fs' hostname host_key file).1)
  settle hostname host_key file bad_identity = (fail bad_identity_error, file)
  settle hostname host_key file other_error = (fail io_error, file)

  unfoldable pub check_server_identity : List ℕ → List ℕ → StoreFile → Status × StoreFile
  check_server_identity hostname host_key file =
      settle hostname host_key file (check_server a fs hostname host_key file)

-- `strchr` for '@': what stands in front of the first one, and behind it
abbrev pub split_name : List ℕ → Option (List ℕ × List ℕ)
split_name [] = none
split_name (c ∷ cs) =
    let later = split_name cs in
    if c == b'@'
    then some ([], cs)
    else elim later [ none ↦ none | some (user, host) ↦ some (c ∷ user, host) ]

-- The two arrays that main gives, without the terminators
pub record Login : Type 0 where
  pub username : List ℕ
  pub server : List ℕ

module _ (username_len server_len : ℕ) where
  abbrev pub with_current_user : Option (List ℕ) → List ℕ → Result Login
  with_current_user none arg = fail io_error
  with_current_user (some pw_name) arg =
      if ltb username_len (length pw_name + 1)
      then fail line_too_long
      else if ltb server_len (length arg + 1)
      then fail line_too_long
      else ok (record { username = pw_name; server = arg })

  abbrev pub with_named_user : List ℕ → List ℕ → Result Login
  with_named_user user host =
      if ltb username_len (length user + 1)
      then fail line_too_long
      else if ltb server_len (length host + 1)
      then fail line_too_long
      else ok (record { username = user; server = host })

  -- get_cmdline_username_server; `pw_name` is what getpwuid says of the current user.
  unfoldable pub get_cmdline_username_server : Option (List ℕ) → List ℕ → Result Login
  get_cmdline_username_server pw_name arg = elim (split_name arg) [
    | none ↦ with_current_user pw_name arg
    | some (user, host) ↦ with_named_user user host
  ]
