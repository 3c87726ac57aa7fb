-- ===== src/Tests/Keys.antt =====
-- A run of gen_key in ssh/kex.c.
use eessh.Prelude.{
  ℕ, ◌≡◌, refl, ap, List, [], ◌∷◌, true, ok, ok_injective, Result, arith, length, ◌>>=◌,
}
use eessh.Buffer.{
  Allocator, clear, checked_add, realloc, reallocate, grow, push, write_u8, write_u32,
  get_write_pointer, append_data, write_data,
}
use eessh.Buffer.Strings.{str_alloc, dup_string}
use eessh.Kex.KeyGen.{digest_data, first_block, next_block, more_blocks, gen_blocks, gen_key}
use eessh.Kex.KeyGen.Derived.{IsHash, Derived, gen_key-Derived}

program : Unit {0}
unfolding ◌>>=◌ clear checked_add realloc reallocate grow push write_u8 write_u32 get_write_pointer
    append_data write_data str_alloc dup_string digest_data first_block next_block more_blocks
    gen_blocks gen_key
program = tt

abbrev heap : Allocator
heap = record { grants = λ _. true; junk = 0; overrun = λ xs. xs }

-- A hash of two bytes
abbrev toy_hash : List ℕ → Result (List ℕ)
toy_hash xs = ok (length xs ∷ 7 ∷ [])

toy_hash-IsHash : IsHash toy_hash
toy_hash-IsHash xs digest e = omega (arith, ap length (ok_injective e))

abbrev secret : List ℕ
secret = 1 ∷ 2 ∷ []

abbrev exchange : List ℕ
exchange = 9 ∷ []

abbrev three : List ℕ
three = 9 ∷ 7 ∷ 9 ∷ []

-- Two digests, of 6 + 1 + 1 + 1 and of 6 + 1 + 2 bytes, give a key of three bytes.
key_of_three : gen_key heap toy_hash secret exchange 3 65 (9 ∷ []) ≡ ok three
unfolding program
key_of_three = refl

gen_key-Derived_example :
    Derived heap toy_hash secret exchange toy_hash-IsHash
      (omega arith)
      (omega arith)
      3
      (65 ∷ 9 ∷ [])
      three
gen_key-Derived_example =
    gen_key-Derived heap toy_hash secret exchange toy_hash-IsHash (omega arith) (omega arith) 3 65
      (9 ∷ []) three (omega arith) key_of_three
