-- ===== src/Tests/Hosts.antt =====
-- The theorems on the file of known hosts at concrete inputs.
use eessh.Prelude.{
  ℕ, ◌≡◌, ◌≢◌, ap, get_or, refl, List, [], ◌∷◌, true, false, ok, io_error, arith, ◌>>=◌,
}
use eessh.Buffer.{Allocator, checked_add}
use eessh.Reader.{get_u32, check, check_advance, read_u32, read_string}
use eessh.Base64.{encode, allocated}
use eessh.HostKeys.{
  HostData, StoreFile, present, found, FileSystem, add, check_server, host_data_create, chunks,
  read_lines, read_key_file, line_matches_key, add_key_callback, search_key_callback,
}
use eessh.HostKeys.Tokens.{IsEntry}
use eessh.HostKeys.Store.{check_server-add, check_server-add_other}
use eessh.HostKeys.Outcome.{add-fail, add-ok}

abbrev all_granted : Allocator
all_granted = record { grants = λ n. true; junk = 170; overrun = λ xs. xs }

abbrev good : FileSystem
good = record {
  name_fits = true;
  creates = true;
  read_fails = false;
  write_fails = false;
  flushes = true;
  flushed = 0;
  renames = true;
}

abbrev full : FileSystem
full = record {
  name_fits = true;
  creates = true;
  read_fails = false;
  write_fails = true;
  flushes = true;
  flushed = 0;
  renames = true;
}

-- The names "h" and "k"
abbrev host : List ℕ
host = 104 ∷ []

abbrev other_host : List ℕ
other_host = 107 ∷ []

-- A key of the type "r"
abbrev key : List ℕ
key = 0 ∷ 0 ∷ 0 ∷ 1 ∷ 114 ∷ 7 ∷ []

abbrev entry : HostData
entry = record { hostname = host; key_type = 114 ∷ []; host_key = encode key }

abbrev other_entry : HostData
other_entry = record { hostname = other_host; key_type = 114 ∷ []; host_key = encode key }

-- "h r x", "k r y"
abbrev old_file : StoreFile
old_file = present (104 ∷ 32 ∷ 114 ∷ 32 ∷ 120 ∷ 10 ∷ 107 ∷ 32 ∷ 114 ∷ 32 ∷ 121 ∷ 10 ∷ [])

abbrev new_file : StoreFile
new_file = (add all_granted good host key old_file).1

program : Unit {0}
unfolding ◌>>=◌ encode allocated get_u32 check check_advance read_u32 read_string checked_add chunks
    read_lines read_key_file line_matches_key add_key_callback search_key_callback host_data_create
    add check_server
program = tt

entry-IsEntry : IsEntry entry
unfolding program
entry-IsEntry = record {
  host = (refl, omega arith, tt);
  plain = refl;
  type = (refl, omega arith, tt);
  key = (
    refl,
    omega arith,
    (
      (refl, omega arith),
      (
        (refl, omega arith),
        (
          (refl, omega arith),
          (
            (refl, omega arith),
            ((refl, omega arith), ((refl, omega arith), ((refl, omega arith), tt))),
          ),
        ),
      ),
    ),
  );
  short = omega arith;
}

-- The key of "h" is replaced, the line of "k" stays.
check_server-add_example : check_server all_granted good host key new_file ≡ found
unfolding program
check_server-add_example =
    check_server-add all_granted good good host key old_file new_file entry refl refl entry-IsEntry
      refl refl refl

other_name : host ≢ other_host
other_name q = omega (arith, ap (λ xs. get_or xs 0 0) q)

check_server-add_other_example :
    check_server all_granted good other_host key new_file
    ≡ check_server all_granted good other_host key old_file
unfolding program
check_server-add_other_example =
    check_server-add_other all_granted good good host key other_host key old_file new_file entry
      other_entry refl refl refl entry-IsEntry refl other_name refl refl refl

-- The disk is full.
add-fail_example : (add all_granted full host key old_file).1 ≡ old_file
unfolding program
add-fail_example = add-fail all_granted full host key old_file io_error refl

add-ok_example : (add all_granted good host key old_file).0 ≡ ok tt
unfolding program
add-ok_example =
    add-ok all_granted good host key old_file entry refl (λ q. cc) (refl, (refl, tt)) refl refl refl
      refl refl

-- `fclose` writes only two bytes of the new file: the addition succeeds all the same, and the file of
-- keys is cut short.
abbrev cut : FileSystem
cut = record good { flushes = false; flushed = 2 }

cut_short : add all_granted cut host key old_file ≡ (ok tt, present (104 ∷ 32 ∷ []))
unfolding program
cut_short = refl
