-- ===== src/Tests/Buffers.antt =====
-- Runs of common/buffer.c.
use eessh.Prelude.{ℕ, ◌≡◌, refl, List, [], ◌∷◌, true, ok, arith, ◌>>=◌}
use eessh.Buffer.{
  Buffer, Allocator, new, new_from_data, contents, checked_add, realloc, reallocate, grow, push,
  write_u8, write_u32, get_write_pointer, append_data, write_data, remove_data, move_down,
}
use eessh.Buffer.Valid.{IsValid}
use eessh.Reader.{
  Reader, reader_of_string, check, check_advance, read_u8, read_u32, get_u32, read_string,
  read_until, scan,
}
use eessh.Reader.Rest as Rest
use eessh.Reader.Rest.{rest}
use eessh.Reader.Until.{before, past, read_until_lem}
use eessh.Reader.RoundTrip.{reader_at, read_string-write_data}

program : Unit {0}
unfolding ◌>>=◌ checked_add realloc reallocate grow push write_u8 write_u32 get_write_pointer
    append_data write_data remove_data move_down check check_advance read_u8 read_u32 get_u32
    read_string read_until scan
program = tt

abbrev heap : Allocator
heap = record { grants = λ _. true; junk = 0; overrun = λ xs. xs }

abbrev abc : List ℕ
abc = 97 ∷ 98 ∷ 99 ∷ []

written : contents (write_data heap abc new).1 ≡ 0 ∷ 0 ∷ 0 ∷ 3 ∷ 97 ∷ 98 ∷ 99 ∷ []
unfolding program
written = refl

cap-written : (write_data heap abc new).1.cap ≡ 256
unfolding program
cap-written = refl

abbrev five : Buffer
five = new_from_data (1 ∷ 2 ∷ 3 ∷ 4 ∷ 5 ∷ [])

five-IsValid : IsValid five
five-IsValid = omega arith

removed : contents (remove_data 1 2 five).1 ≡ 1 ∷ 4 ∷ 5 ∷ []
unfolding program
removed = refl

read_string-write_data_example :
    read_string (reader_at (write_data heap abc five).1 5)
    ≡ (ok abc, reader_at (write_data heap abc five).1 (write_data heap abc five).1.len)
unfolding program
read_string-write_data_example =
    read_string-write_data heap abc {b = five} {b' = (write_data heap abc five).1} five-IsValid
      (omega arith) refl

abbrev names : Reader
names = reader_of_string (97 ∷ 44 ∷ 98 ∷ [])

names-IsValid : Rest.IsValid names
names-IsValid = omega arith

read_until_lem_example :
    ((read_until 44 names).0 ≡ ok (before 44 (rest names)))
    × (rest (read_until 44 names).1 ≡ past 44 (rest names))
    × Rest.IsValid (read_until 44 names).1
read_until_lem_example = read_until_lem 44 names-IsValid
