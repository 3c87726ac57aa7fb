-- ===== src/Tests/Programs.antt =====
-- The theorems on common/base64.c and on main/main.c at concrete inputs.
use eessh.Prelude.{ℕ, ◌≡◌, refl, List, [], ◌∷◌, true, false, none, ok, All, arith, ◌>>=◌}
use eessh.Buffer.{Allocator, checked_add}
use eessh.Reader.{get_u32, check, check_advance, read_u32, read_string}
use eessh.Base64.{encode, allocated}
use eessh.Base64.Decode.{decode, decode-encode}
use eessh.Base64.Alphabet.{IsLetter, encode-IsLetter}
use eessh.HostKeys.{
  HostData, absent, FileSystem, add, check_server, host_data_create, chunks, read_lines,
  read_key_file, line_matches_key, add_key_callback, search_key_callback,
}
use eessh.Program.{check_server_identity, get_cmdline_username_server}
use eessh.Program.Identity.{HasName, Pinned, identity-Pinned}
use eessh.Program.CommandLine.{Named, get_cmdline_username_server-Named}

abbrev all_granted : Allocator
all_granted = record { grants = λ n. true; junk = 170; overrun = λ xs. xs }

abbrev good : FileSystem
good = record {
  name_fits = true;
  creates = true;
  read_fails = false;
  write_fails = false;
  flushes = true;
  flushed = 0;
  renames = true;
}

abbrev host : List ℕ
host = 104 ∷ []

-- A key of the type "r"
abbrev key : List ℕ
key = 0 ∷ 0 ∷ 0 ∷ 1 ∷ 114 ∷ 7 ∷ []

abbrev entry : HostData
entry = record { hostname = host; key_type = 114 ∷ []; host_key = encode key }

program : Unit {0}
unfolding ◌>>=◌ encode allocated decode get_u32 check check_advance read_u32 read_string checked_add
    chunks read_lines read_key_file line_matches_key add_key_callback search_key_callback
    host_data_create add check_server check_server_identity get_cmdline_username_server
program = tt

decode-encode_example : decode (encode key) ≡ key
decode-encode_example = decode-encode key (omega arith)

encode-IsLetter_example : All IsLetter (encode key)
encode-IsLetter_example = encode-IsLetter key (omega arith)

entry-HasName : HasName entry
unfolding program
entry-HasName = record {
  host = (refl, omega arith, tt);
  plain = refl;
  type = (refl, omega arith, tt);
  short = omega arith;
}

-- There was no file of keys.
identity-Pinned_example :
    ((check_server_identity all_granted good good host key absent).0 ≡ ok tt)
    × Pinned all_granted host key (check_server_identity all_granted good good host key absent).1
unfolding program
identity-Pinned_example =
    identity-Pinned all_granted host key entry refl (omega arith) (omega arith) refl entry-HasName
      good good absent refl refl refl

-- "u@h" into arrays of four bytes
get_cmdline_username_server-Named_example :
    Named 4 4 none (117 ∷ 64 ∷ 104 ∷ []) (record { username = 117 ∷ []; server = host })
unfolding program
get_cmdline_username_server-Named_example =
    get_cmdline_username_server-Named 4 4 none (117 ∷ 64 ∷ 104 ∷ [])
      (record { username = 117 ∷ []; server = host }) refl
