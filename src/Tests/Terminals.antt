-- ===== src/Tests/Terminals.antt =====
-- The theorems on main/session.c at concrete inputs.
use eessh.Prelude.{◌≡◌, refl, [], ◌∷◌, ◌++◌, true, false, ok, length, ◌⊎◌, arith, ◌>>=◌}
use eessh.Buffer
use eessh.Buffer.{
  Buffer, Allocator, checked_add, realloc, reallocate, grow, push, clear, write_u8, write_u32,
  get_write_pointer, append_data, write_data, remove_data, move_down,
}
use eessh.Buffer.Valid.{IsValid, new-IsValid}
use eessh.Message.{write_field, write_fields, send_message}
use eessh.Network
use eessh.Network.{chunk, room}
use eessh.Stream.{
  Crypto, init, calc_pad_len, new_packet, pad_packet, emit_packet, emit_mac, finish_packet,
  write_out, send_flush, send_packet,
}
use eessh.Channel.{new_chan, opened, process_len, send_part, send_data}
use eessh.Terminal.{
  Console, read_loop, write_loop, read_stdin, forward_stdin, process_stdin, sess_close,
  close_session, write_stdout,
}
use eessh.Terminal.Callbacks.{got_data}
use eessh.Terminal.Input.{Forwarded, Over, process_stdin-Forwarded}
use eessh.Terminal.Display.{stdout_of, IsClosed, got_data-shown}

program : Unit {0}
unfolding ◌>>=◌ clear checked_add realloc reallocate grow push write_u8 write_u32 get_write_pointer
    append_data write_data remove_data move_down write_field write_fields send_message
    Network.write_loop Network.net_write init calc_pad_len new_packet pad_packet emit_packet
    emit_mac finish_packet write_out send_flush send_packet process_len send_part send_data
    read_loop write_loop read_stdin forward_stdin process_stdin sess_close close_session
    write_stdout got_data
program = tt

abbrev heap : Allocator
heap = record { grants = λ _. true; junk = 0; overrun = λ xs. xs }

abbrev toy : Crypto
toy = record {
  CipherCtx = Unit;
  crypt = λ ctx xs. (ok xs, ctx);
  MacCtx = Unit;
  mac_compute = λ _ seq xs. ok (seq ∷ length xs ∷ []);
  random = λ _. [];
}

-- An open channel with room for one byte, a user who types "ls", an output that takes one byte
abbrev console : Console toy
unfolding program
console = record {
  seat = record {
    chan = record (new_chan 0) {
      status = opened;
      remote_window_size = 1;
      remote_max_packet_size = 100;
    };
    out = init toy heap [] (room 1000 ∷ []);
  };
  stdin_buf = Buffer.new;
  stdout_buf = Buffer.new;
  stderr_buf = Buffer.new;
  typed = chunk (108 ∷ 115 ∷ []) ∷ [];
  stdout_room = room 1 ∷ [];
  stderr_room = [];
  stdout_text = [];
  stderr_text = [];
  got_sigwinch = false;
}

abbrev after_typing : Console toy
unfolding program
after_typing = (process_stdin toy heap 1 console).1

process_stdin-Forwarded_example :
    Forwarded toy heap console after_typing ⊎ Over toy heap 1 console after_typing
unfolding program
process_stdin-Forwarded_example =
    process_stdin-Forwarded toy heap 1 console after_typing new-IsValid refl

-- One byte was sent, the other waits.
one_waits : after_typing.stdin_buf.len ≡ 1
unfolding program
one_waits = refl

got_data-shown_example :
    ((stdout_of (got_data toy heap (104 ∷ 105 ∷ []) console) ≡ stdout_of console ++ 104 ∷ 105 ∷ [])
      × IsValid (got_data toy heap (104 ∷ 105 ∷ []) console).stdout_buf)
    ⊎ IsClosed toy heap (got_data toy heap (104 ∷ 105 ∷ []) console)
unfolding console
got_data-shown_example = got_data-shown toy heap (104 ∷ 105 ∷ []) console new-IsValid (omega arith)
