-- ===== src/Version.antt =====
-- ssh/version_string.c: the version strings that the two sides exchange first.
pub mod Lines
pub mod RoundTrip
use eessh.Prelude.{
  ℕ, zero, suc, ◌+◌, ◌-◌, List, [], ◌∷◌, ◌++◌, Bool, true, false, ◌&&◌, ◌||◌, Option, none, some,
  ltb, ◌==◌, if◌then◌else◌, blit, would_block, length, take, drop, get_or, same_bytes, Result, ok,
  fail, bad_version, line_too_long, Error,
}
use eessh.Buffer.{Buffer, Allocator, contents, add_size, clear, grow}
use eessh.Network.{ReadEvent, net_read}

abbrev pub newline : ℕ
newline = 10

abbrev pub carriage_return : ℕ
carriage_return = 13

abbrev pub dash : ℕ
dash = 45

abbrev pub space : ℕ
space = 32

-- "SSH-"
abbrev pub ssh_dash : List ℕ
ssh_dash = 83 ∷ 83 ∷ 72 ∷ 45 ∷ []

-- `memchr`: the first place of a byte
abbrev pub memchr : ℕ → List ℕ → Option ℕ
memchr c [] = none
memchr c (x ∷ xs) =
    let later = memchr c xs in
    if x == c then some 0 else elim later [ none ↦ none | some i ↦ some (suc i) ]

unfoldable pub is_version_line : List ℕ → Bool
is_version_line line = ltb 4 (length line) && same_bytes (take 4 line) ssh_dash

-- get_version_line: the first version line, or none if there is none yet, and what stands behind
-- the lines that were looked at. Each turn takes a byte at least.
abbrev pub at_line_end :
    Option ℕ → List ℕ → (List ℕ → Option (List ℕ) × List ℕ) → Option (List ℕ) × List ℕ
at_line_end none cur later = (none, cur)
at_line_end (some i) cur later =
    if is_version_line (take (suc i) cur)
    then (some (take (suc i) cur), drop (suc i) cur)
    else later (drop (suc i) cur)

unfoldable pub find_version_line : ℕ → List ℕ → Option (List ℕ) × List ℕ
find_version_line zero cur = (none, cur)
find_version_line (suc fuel) cur = at_line_end (memchr newline cur) cur (find_version_line fuel)

unfoldable pub get_version_line : List ℕ → Option (List ℕ) × List ℕ
get_version_line input = find_version_line (suc (length input)) input

-- VERSION_BUF_LEN and SSH_VERSION_STRING_MAX_SIZE
abbrev pub version_buf_len : ℕ
version_buf_len = 512

-- memmove of what is left to the start of the buffer
abbrev pub refill : Buffer → List ℕ → Buffer
refill b rest = record b { mem = blit b.mem 0 rest; len = length rest }

-- The loop of read_line, up to `fuel` calls of ssh_net_read. The result is the version line.
abbrev pub after_read :
    Option (List ℕ) × List ℕ
    → Buffer
    → List ReadEvent
    → (Buffer → List ReadEvent → Result (List ℕ) × Buffer × List ReadEvent)
    → Result (List ℕ) × Buffer × List ReadEvent
after_read (none, rest) b es later = later (refill b rest) es
after_read (some ver, rest) b es later =
    if ltb version_buf_len (length ver)
    then (fail line_too_long, b, es)
    else (ok ver, refill b rest, es)

-- The bytes that came are stored behind the fill level.
abbrev pub stored : Result (List ℕ) → Buffer → Result (List ℕ) × Buffer
stored (ok got) b =
    (ok got, record b { mem = blit b.mem b.len got; len = add_size b.len (length got) })
stored (fail e) b = (fail e, b)

abbrev pub unless_failed :
    {A : Type 0}
    → Result A
    → Buffer
    → List ReadEvent
    → Result (List ℕ) × Buffer × List ReadEvent
    → Result (List ℕ) × Buffer × List ReadEvent
unless_failed (ok _) b es next = next
unless_failed (fail e) b es next = (fail e, b, es)

unfoldable pub read_line :
    Allocator → ℕ → Buffer → List ReadEvent → Result (List ℕ) × Buffer × List ReadEvent
read_line a zero b es = (fail would_block, b, es)
read_line a (suc fuel) b es =
    let (grown, b1) = grow a version_buf_len b in
    let (got, es1) = net_read es version_buf_len in
    let (done, b2) = stored got b1 in
    unless_failed grown b1 es (
      unless_failed done b2 es1
        (after_read (get_version_line (contents b2)) b2 es1 (read_line a fuel)))

-- The place of the last byte that is not the end of a line; the first byte is not looked at.
abbrev pub trim : List ℕ → ℕ → ℕ
trim line zero = 0
trim line (suc n) =
    let shorter = trim line n in
    if get_or line (suc n) 0 == carriage_return || get_or line (suc n) 0 == newline
    then shorter
    else suc n

-- struct SSH_VERSION_STRING
pub record VersionString : Type 0 where
  pub buf : List ℕ
  pub version : List ℕ
  pub software : List ℕ
  pub comments : List ℕ

abbrev pub split_comments : Option ℕ → List ℕ → List ℕ → List ℕ → VersionString
split_comments none line version after = record {
  buf = line;
  version = version;
  software = after;
  comments = [];
}
split_comments (some j) line version after = record {
  buf = line;
  version = version;
  software = take j after;
  comments = drop (suc j) after;
}

abbrev pub split_version : Option ℕ → List ℕ → List ℕ → Result VersionString
split_version none line body = fail bad_version
split_version (some i) line body =
    ok (split_comments (memchr space (drop (suc i) body)) line (take i body) (drop (suc i) body))

-- parse_line
unfoldable pub parse_line : List ℕ → Result VersionString
parse_line bytes =
    let line = take (suc (trim bytes (length bytes - 1))) bytes in
    split_version (memchr dash (drop 4 line)) line (drop 4 line)

-- ssh_version_string_read
unfoldable pub read :
    Allocator → ℕ → Buffer → List ReadEvent → Result VersionString × Buffer × List ReadEvent
read a fuel b es =
    let (r, b', es') = read_line a fuel (clear b) es in
    (elim r [ ok line ↦ parse_line line | fail e ↦ fail e ], b', es')

-- ssh_version_string_build: "SSH-2.0-%s %s\r\n" of two C strings
abbrev pub version_line : List ℕ → List ℕ → List ℕ
version_line software comments =
    (ssh_dash ++ 50 ∷ 46 ∷ 48 ∷ dash ∷ [])
    ++ (software ++ space ∷ (comments ++ carriage_return ∷ newline ∷ []))

unfoldable pub build : List ℕ → List ℕ → Result VersionString
build software comments =
    if ltb (length (version_line software comments)) version_buf_len
    then parse_line (version_line software comments)
    else fail line_too_long
