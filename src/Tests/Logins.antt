-- ===== src/Tests/Logins.antt =====
-- A run of ssh/userauth.c.
use eessh.Prelude.{ℕ, refl, List, [], ◌∷◌, true, ok, none, length, ◌>>=◌}
use eessh.Buffer.{
  Allocator, clear, checked_add, realloc, reallocate, grow, push, write_u8, write_u32,
  get_write_pointer, append_data, write_data, remove_data, move_down,
}
use eessh.Reader.{get_u32, check, check_advance, read_u8, read_u32, read_string}
use eessh.Message.{write_field, write_fields, send_message}
use eessh.Network.{chunk, room, read_loop, net_read, write_loop, net_write}
use eessh.Stream.{
  Crypto, init, calc_pad_len, new_packet, pad_packet, emit_packet, emit_mac, finish_packet,
  write_out, send_flush, send_packet,
}
use eessh.Stream.Receive.{
  read_in, take_in, read_more, decrypt, copy_plain, consume, fill_buffer, verify_read_packet,
  take_packet, recv_header, accept, recv_body, recv_packet,
}
use eessh.Connection.{Peer, packet_type, receive, receive_skip_ignore}
use eessh.Userauth as Userauth
use eessh.Userauth.{read_response, method_none, run_none, run}
use eessh.Userauth.Success.{IsGranted, run-IsGranted}

program : Unit {0}
unfolding ◌>>=◌ clear checked_add realloc reallocate grow push write_u8 write_u32 get_write_pointer
    append_data write_data remove_data move_down get_u32 check check_advance read_u8 read_u32
    read_string read_loop net_read write_loop net_write write_field write_fields send_message init
    calc_pad_len new_packet pad_packet emit_packet emit_mac finish_packet write_out send_flush
    send_packet read_in take_in read_more decrypt copy_plain consume fill_buffer verify_read_packet
    take_packet recv_header accept recv_body recv_packet packet_type receive receive_skip_ignore
    Userauth.init read_response method_none run_none run
program = tt

abbrev heap : Allocator
heap = record { grants = λ _. true; junk = 0; overrun = λ xs. xs }

abbrev toy : Crypto
toy = record {
  CipherCtx = Unit;
  crypt = λ ctx xs. (ok xs, ctx);
  MacCtx = Unit;
  mac_compute = λ _ seq xs. ok (seq ∷ length xs ∷ []);
  random = λ _. [];
}

-- "me"
abbrev me : List ℕ
me = 109 ∷ 101 ∷ []

-- The server accepts the service, and then the method "none".
abbrev peer : Peer toy
unfolding program
peer = record {
  input =
      init toy heap
        (chunk (
            0 ∷ 0 ∷ 0 ∷ 28 ∷ 10 ∷ 6 ∷ 0 ∷ 0 ∷ 0 ∷ 12 ∷ 115 ∷ 115 ∷ 104 ∷ 45 ∷ 117 ∷ 115 ∷ 101 ∷ 114
            ∷ 97 ∷ 117 ∷ 116 ∷ 104 ∷ 0 ∷ 0 ∷ 0 ∷ 0 ∷ 0 ∷ 0 ∷ 0 ∷ 0 ∷ 0 ∷ 0 ∷ [])
          ∷ chunk (0 ∷ 0 ∷ 0 ∷ 12 ∷ 10 ∷ 52 ∷ 0 ∷ 0 ∷ 0 ∷ 0 ∷ 0 ∷ 0 ∷ 0 ∷ 0 ∷ 0 ∷ 0 ∷ [])
          ∷ [])
        [];
  output = init toy heap [] (room 1000 ∷ room 1000 ∷ []);
}

run-IsGranted_example : IsGranted toy heap 4 (run toy heap 4 me none peer).1
unfolding program
run-IsGranted_example = run-IsGranted toy heap 4 me none peer (run toy heap 4 me none peer).1 refl
