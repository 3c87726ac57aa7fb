-- ===== src/Tests/Loops.antt =====
-- Runs of the loop over the channels.
use eessh.Prelude.{◌≡◌, refl, List, [], ◌∷◌, true, false, length, pure, some, ok, ◌>>=◌}
use eessh.Buffer.{
  Allocator, clear, checked_add, realloc, reallocate, grow, push, write_u8, write_u32,
  get_write_pointer, append_data, write_data, remove_data, move_down,
}
use eessh.Message.{write_field, write_fields, send_message}
use eessh.Network.{room, write_loop, net_write}
use eessh.Stream.{
  Crypto, init, calc_pad_len, new_packet, pad_packet, emit_packet, emit_mac, finish_packet,
  write_out, send_flush, send_packet,
}
use eessh.Channel.{new_chan, closed, send_channel_open}
use eessh.Channel.Dispatch.{Client, Conn, free_num, remove_closed_channels, close}
use eessh.Network.Connect.{Flags, set_sock_blocking}
use eessh.Channel.Loop.{
  Turn, interrupted, ready, broken, loop, add_channel, add_channels, run_connection,
}
use eessh.Channel.Loop.Finish.{
  IsFinished, IsEnded, loop-IsFinished, loop_ends, run_connection-IsEnded,
}

program : Unit {0}
unfolding ◌>>=◌ set_sock_blocking clear checked_add realloc reallocate grow push write_u8 write_u32
    get_write_pointer append_data write_data remove_data move_down write_field write_fields
    send_message init calc_pad_len new_packet pad_packet emit_packet emit_mac finish_packet
    write_out send_flush send_packet write_loop net_write send_channel_open free_num
    remove_closed_channels close add_channel add_channels
program = tt

abbrev heap : Allocator
heap = record { grants = λ _. true; junk = 0; overrun = λ xs. xs }

abbrev toy : Crypto
toy = record {
  CipherCtx = Unit;
  crypt = λ ctx xs. (ok xs, ctx);
  MacCtx = Unit;
  mac_compute = λ _ seq xs. ok (seq ∷ length xs ∷ []);
  random = λ _. [];
}

abbrev quiet : Client toy
quiet = record {
  notify_open_failed = λ s. s;
  notify_closed = λ s. s;
  notify_received = λ _ s. s;
  notify_signal = pure tt;
  notify_fd_ready = λ fd flags. pure tt;
  type_opened = pure tt;
  type_process_packet = λ _. pure tt;
}

-- Two channels that are closed
abbrev ended : Conn toy
unfolding program
ended = record {
  channels =
      (record (new_chan 0) { status = closed }, quiet)
      ∷ (record (new_chan 1) { status = closed }, quiet)
      ∷ [];
  input = init toy heap [] [];
  output = init toy heap [] [];
}

abbrev idle : Turn
idle = record { signal = false; poll = interrupted }

abbrev signalled : Turn
signalled = record { signal = true; poll = ready (0 ∷ []) }

loop-IsFinished_example : IsFinished toy heap 4 (loop toy heap 4 3 (idle ∷ signalled ∷ []) ended)
loop-IsFinished_example = loop-IsFinished toy heap 4 3 (idle ∷ signalled ∷ []) ended

loop_ends_example :
    loop toy heap 4 3 (idle ∷ []) ended ≡ (some (ok tt), record ended { channels = [] })
unfolding program
loop_ends_example = loop_ends toy heap 4 3 (idle ∷ []) ended (refl, (refl, tt))

-- No channels yet
abbrev fresh : Conn toy
unfolding program
fresh = record {
  channels = [];
  input = init toy heap [] [];
  output = init toy heap [] (room 1000 ∷ []);
}

-- The second `poll` fails.
abbrev failing : List Turn
failing = signalled ∷ record { signal = false; poll = broken } ∷ []

abbrev blocking : Flags
blocking = record { nonblock = false; others = 2 }

run_connection-IsEnded_example :
    IsEnded toy heap 4
      (run_connection toy heap 4 200 3 true true blocking (quiet ∷ []) failing fresh)
unfolding program
run_connection-IsEnded_example =
    run_connection-IsEnded toy heap 4 200 3 true true blocking (quiet ∷ []) failing fresh refl refl
