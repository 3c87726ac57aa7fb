-- ===== src/HostKeys.antt =====
-- common/host_key_store.c: the file of known host keys. What `fopen`, `ferror` and `rename` answer is
-- a parameter; `fgets`, `strlen`, `strtok_r` and `strcmp` are written out on lists of bytes.
pub mod Lines
pub mod Tokens
pub mod Add
pub mod Check
pub mod Store
pub mod Outcome
pub mod Entry
pub mod Mismatch
use eessh.Prelude.{
  ℕ, zero, suc, ◌+◌, ◌-◌, List, [], ◌∷◌, ◌++◌, Bool, true, false, not, ◌&&◌, ◌||◌, Option, none,
  some, ◌==◌, if◌then◌else◌, length, get_or, same_bytes, take, leb, Result, ok, fail, Status,
  line_too_long, io_error, out_of_memory,
}
use eessh.Base64.{encode, allocated}
use eessh.Buffer.{Allocator}
use eessh.Reader.{reader_of_string, read_string}

-- MAX_LINE_SIZE
abbrev pub max_line_size : ℕ
max_line_size = 1024

abbrev pub newline : ℕ
newline = 10

abbrev pub space : ℕ
space = 32

-- `fgets` of `suc n` bytes, on a file that is not at its end: the bytes up to a newline, at most `n`
abbrev pub fgets_line : ℕ → List ℕ → List ℕ × List ℕ
fgets_line zero xs = ([], xs)
fgets_line (suc n) [] = ([], [])
fgets_line (suc n) (x ∷ xs) =
    let (line, rest) = fgets_line n xs in if x == newline then (x ∷ [], xs) else (x ∷ line, rest)

-- The successive results of `fgets` in read_key_file, up to the end of the file
unfoldable pub chunks : ℕ → List ℕ → List (List ℕ)
chunks zero xs = []
chunks (suc fuel) [] = []
chunks (suc fuel) (x ∷ xs) =
    let (line, rest) = fgets_line (max_line_size - 1) (x ∷ xs) in line ∷ chunks fuel rest

-- The C string that starts a region
abbrev pub c_string : List ℕ → List ℕ
c_string [] = []
c_string (x ∷ xs) = let rest = c_string xs in if x == 0 then [] else x ∷ rest

-- `line_len == 0`, or the last byte is a newline
abbrev pub is_whole : List ℕ → Bool
is_whole [] = true
is_whole (x ∷ xs) = get_or (x ∷ xs) (length xs) 0 == newline

-- What a callback returns: 0, 1, or -1
pub data Verdict : Type 0 where
  next : Verdict
  stop : Verdict
  failed : Verdict

-- The loop of read_key_file over the lines; `broken` is what `ferror` says at the end of the file.
module _ {S : Type 0} (callback : List ℕ → S → Verdict × S) (broken : Bool) where
  abbrev pub after_callback : Verdict → S → (S → Verdict × S) → Verdict × S
  after_callback next s go_on = go_on s
  after_callback stop s go_on = (stop, s)
  after_callback failed s go_on = (failed, s)

  unfoldable pub read_lines : List (List ℕ) → S → Verdict × S
  read_lines [] s = (if broken then failed else next, s)
  read_lines (line ∷ lines) s =
      let (verdict, s') = callback (c_string line) s in
      if is_whole (c_string line) then after_callback verdict s' (read_lines lines) else (failed, s)

  -- read_key_file
  unfoldable pub read_key_file : List ℕ → S → Verdict × S
  read_key_file file s = read_lines (chunks (suc (length file)) file) s

-- The delimiters of strtok_r
abbrev pub is_blank : ℕ → Bool
is_blank c = c == space || c == 9 || c == 13 || c == newline

abbrev pub skip_blanks : List ℕ → List ℕ
skip_blanks [] = []
skip_blanks (x ∷ xs) = let rest = skip_blanks xs in if is_blank x then rest else x ∷ xs

-- The token at the start of a text, and what stands behind the byte that ends it
abbrev pub split_token : List ℕ → List ℕ × List ℕ
split_token [] = ([], [])
split_token (x ∷ xs) =
    let (token, rest) = split_token xs in if is_blank x then ([], xs) else (x ∷ token, rest)

-- `strtok_r`: NULL is the empty token
abbrev pub strtok : List ℕ → List ℕ × List ℕ
strtok text = split_token (skip_blanks text)

-- struct HOST_DATA
pub record HostData : Type 0 where
  pub hostname : List ℕ
  pub key_type : List ℕ
  pub host_key : List ℕ

-- enum SSH_HOST_KEY_STORE_STATUS
pub data StoreStatus : Type 0 where
  found : StoreStatus
  not_found : StoreStatus
  bad_identity : StoreStatus
  other_error : StoreStatus

abbrev pub is_comment : List ℕ → Bool
is_comment [] = true
is_comment (x ∷ xs) = x == b'#'

-- A token is there, and `strcmp` finds it equal.
abbrev pub is_token : List ℕ → List ℕ → Bool
is_token [] expected = false
is_token (x ∷ xs) expected = same_bytes (x ∷ xs) expected

-- line_matches_key
unfoldable pub line_matches_key : List ℕ → HostData → StoreStatus
line_matches_key line d =
    let (hostname, rest) = strtok line in
    let (key_type, rest') = strtok rest in
    let (host_key, _) = strtok rest' in
    if is_comment hostname || not (same_bytes hostname d.hostname)
    then not_found
    else if not (is_token key_type d.key_type)
    then not_found
    else if is_token host_key d.host_key
    then found
    else bad_identity

-- "%s %s %s\n"
abbrev pub key_line : HostData → List ℕ
key_line d = d.hostname ++ space ∷ (d.key_type ++ space ∷ (d.host_key ++ newline ∷ []))

-- struct ADD_HOST_DATA, without the data on the host
pub record AddState : Type 0 where
  pub out : List ℕ
  pub replaced : Bool

abbrev pub is_missing : StoreStatus → Bool
is_missing not_found = true
is_missing _ = false

-- add_key_callback; `full` is what `ferror` says of the new file.
unfoldable pub add_key_callback : Bool → HostData → List ℕ → AddState → Verdict × AddState
add_key_callback full d line s = (
  if full then failed else next,
  if is_missing (line_matches_key line d)
      then record s { out = s.out ++ line }
      else record { out = s.out ++ key_line d; replaced = true },
)

-- search_key_callback
abbrev pub search_verdict : StoreStatus → StoreStatus → Verdict × StoreStatus
search_verdict not_found before = (next, before)
search_verdict bad_identity before = (stop, bad_identity)
search_verdict found before = (stop, found)
search_verdict other_error before = (failed, before)

unfoldable pub search_key_callback : HostData → List ℕ → StoreStatus → Verdict × StoreStatus
search_key_callback d line before = search_verdict (line_matches_key line d) before

-- What ssh_base64_encode gives: beyond its allocation it writes over other memory, and what its text
-- is then is a parameter.
abbrev pub encoded_text : Allocator → List ℕ → List ℕ
encoded_text a host_key =
    if leb (length (encode host_key) + 1) (allocated (length host_key))
    then encode host_key
    else a.overrun (encode host_key)

-- The end of host_data_create, after the key's type was read
abbrev pub host_data_of : Allocator → List ℕ → List ℕ → Result (List ℕ) → Result HostData
host_data_of a hostname host_key (fail e) = fail e
host_data_of a hostname host_key (ok key_type) =
    if a.grants (length key_type + 1) && a.grants (allocated (length host_key))
    then ok (record {
      hostname = hostname;
      key_type = c_string key_type;
      host_key = encoded_text a host_key;
    })
    else fail out_of_memory

-- host_data_create
unfoldable pub host_data_create : Allocator → List ℕ → List ℕ → Result HostData
host_data_create a hostname host_key =
    host_data_of a hostname host_key (read_string (reader_of_string host_key)).0

-- What stands under a file name: `fopen` says ENOENT, fails, or opens the file.
pub data StoreFile : Type 0 where
  absent : StoreFile
  unreadable : StoreFile
  present : List ℕ → StoreFile

-- The other answers of the file system: the name of the temporary file fits, it can be created, a
-- read has failed, a write has failed, `fclose` writes out all that is buffered or else leaves so
-- many bytes, the file can be renamed
pub record FileSystem : Type 0 where
  pub name_fits : Bool
  pub creates : Bool
  pub read_fails : Bool
  pub write_fails : Bool
  pub flushes : Bool
  pub flushed : ℕ
  pub renames : Bool

-- What ssh_host_key_store_check_server makes of the loop's result
abbrev pub status_of : Verdict × StoreStatus → StoreStatus
status_of (failed, status) = other_error
status_of (verdict, status) = status

module _ (a : Allocator) (fs : FileSystem) where
  -- The lines of the old file go to the new one.
  abbrev pub copy_lines : StoreFile → HostData → Verdict × AddState
  copy_lines absent d = (next, record { out = []; replaced = false })
  copy_lines unreadable d = (failed, record { out = []; replaced = false })
  copy_lines (present file) d =
      read_key_file (add_key_callback fs.write_fails d) fs.read_fails file
        (record { out = []; replaced = false })

  -- What `fclose` leaves of the bytes that were written. Its result is not looked at.
  abbrev pub closed_file : List ℕ → List ℕ
  closed_file bytes = if fs.flushes then bytes else take fs.flushed bytes

  -- The line is appended if it replaced none; then the new file takes the place of the old one.
  abbrev pub finish_add : HostData → StoreFile → Verdict × AddState → Status × StoreFile
  finish_add d old (failed, s) = (fail io_error, old)
  finish_add d old (verdict, s) =
      if not s.replaced && fs.write_fails || not fs.renames
      then (fail io_error, old)
      else (ok tt, present (closed_file (if s.replaced then s.out else s.out ++ key_line d)))

  abbrev pub add_data : StoreFile → Result HostData → Status × StoreFile
  add_data old (fail e) = (fail e, old)
  add_data old (ok d) = finish_add d old (copy_lines old d)

  -- ssh_host_key_store_add: the status, and the file after it
  unfoldable pub add : List ℕ → List ℕ → StoreFile → Status × StoreFile
  add hostname host_key old =
      if fs.name_fits && fs.creates
      then add_data old (host_data_create a hostname host_key)
      else (fail io_error, old)

  abbrev pub search : List ℕ → Result HostData → StoreStatus
  search file (fail e) = other_error
  search file (ok d) =
      status_of (read_key_file (search_key_callback d) fs.read_fails file not_found)

  -- ssh_host_key_store_check_server
  unfoldable pub check_server : List ℕ → List ℕ → StoreFile → StoreStatus
  check_server hostname host_key absent = not_found
  check_server hostname host_key unreadable = other_error
  check_server hostname host_key (present file) = search file (host_data_create a hostname host_key)
