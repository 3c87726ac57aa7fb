-- ===== src/Tests/Flushes.antt =====
-- A flush into a socket that has room for a part.
use eessh.Prelude.{◌≡◌, refl, [], ◌∷◌, true, ok, length, arith, ◌>>=◌}
use eessh.Buffer.{Allocator, new_from_data, checked_add, remove_data, move_down}
use eessh.Buffer.Valid.{IsValid}
use eessh.Network.{room, again, write_loop, net_write}
use eessh.Stream.{Crypto, Stream, init, write_out, send_flush}
use eessh.Stream.Flush.{outgoing, send_flush_conserves}

program : Unit {0}
unfolding ◌>>=◌ checked_add remove_data move_down write_loop net_write init write_out send_flush
program = tt

abbrev heap : Allocator
heap = record { grants = λ _. true; junk = 0; overrun = λ xs. xs }

abbrev toy : Crypto
toy = record {
  CipherCtx = Unit;
  crypt = λ ctx xs. (ok xs, ctx);
  MacCtx = Unit;
  mac_compute = λ _ seq xs. ok (seq ∷ length xs ∷ []);
  random = λ _. [];
}

-- Three bytes wait, and the kernel takes two.
abbrev loaded : Stream toy
unfolding program
loaded = record (init toy heap [] (room 2 ∷ again ∷ [])) {
  buf_enc = new_from_data (7 ∷ 8 ∷ 9 ∷ []);
}

abbrev flushed : Stream toy
unfolding program
flushed = (send_flush toy heap loaded).1

loaded-IsValid : IsValid loaded.buf_enc
unfolding loaded
loaded-IsValid = record { allocated = refl; within = omega arith; sized = omega arith }

send_flush_conserves_example :
    IsValid flushed.buf_enc × (outgoing toy heap flushed ≡ outgoing toy heap loaded)
unfolding program
send_flush_conserves_example = send_flush_conserves toy heap loaded flushed loaded-IsValid refl
