-- ===== src/Tests/Channels.antt =====
-- Runs of ssh/channel.c.
use eessh.Prelude.{pure, ◌≡◌, refl, List, [], ◌∷◌, true, ok, arith, length}
use eessh.Buffer.{Allocator}
use eessh.Reader.{Reader, reader_of_string}
use eessh.Stream.{Crypto, init}
use eessh.Network.{room}
use eessh.Channel.{Chan, Seat, opened, new_chan, send_data}
use eessh.Channel.Window.{Spent, data_header, send_data-Spent}
use eessh.Channel.Watch.{watch_fd}
use eessh.Channel.Watch.Table.{Watched, watch_fd-Watched}
use eessh.Channel.Dispatch.{Client, free_num}

program : Unit {0}
unfolding free_num
program = tt

abbrev heap : Allocator
heap = record { grants = λ _. true; junk = 0; overrun = λ xs. xs }

abbrev toy : Crypto
toy = record {
  CipherCtx = Unit;
  crypt = λ ctx xs. (ok xs, ctx);
  MacCtx = Unit;
  mac_compute = λ _ seq xs. ok (seq ∷ length xs ∷ []);
  random = λ _. [];
}

-- An open channel whose peer takes three bytes, two at a time.
abbrev shell : Chan
shell = record (new_chan 0) {
  status = opened;
  watch_fds = record { fd = 0; events = 17 } ∷ record { fd = 5; events = 4 } ∷ [];
  remote_window_size = 3;
  remote_max_packet_size = 2;
}

abbrev seat : Seat toy
seat = record { chan = shell; out = init toy heap [] (room 100 ∷ []) }

send_data-Spent_example :
    Spent toy heap
      (data_header toy heap seat)
      (104 ∷ 105 ∷ 33 ∷ 10 ∷ [])
      seat
      (send_data toy heap (104 ∷ 105 ∷ 33 ∷ 10 ∷ []) seat).0
      (send_data toy heap (104 ∷ 105 ∷ 33 ∷ 10 ∷ []) seat).1
send_data-Spent_example = send_data-Spent toy heap (104 ∷ 105 ∷ 33 ∷ 10 ∷ []) seat

watch_fd-Watched_example : Watched shell (watch_fd 7 2 0 shell).0 (watch_fd 7 2 0 shell).1
watch_fd-Watched_example =
    watch_fd-Watched 7 2 0 shell (record { small = omega arith; distinct = ground arith })

-- The search for a number starts again behind the first channel, whose number it may take: of
-- channels numbered 1 and 0 it returns 1.
taken_again : free_num 10 (new_chan 1 ∷ new_chan 0 ∷ []) (new_chan 1 ∷ new_chan 0 ∷ []) 0 ≡ 1
unfolding program
taken_again = refl

abbrev three : List Chan
three = new_chan 0 ∷ new_chan 3 ∷ new_chan 1 ∷ []

gap_filled : free_num 16 three three 0 ≡ 2
unfolding program
gap_filled = refl

in_order : free_num 10 (new_chan 0 ∷ new_chan 1 ∷ []) (new_chan 0 ∷ new_chan 1 ∷ []) 0 ≡ 2
unfolding program
in_order = refl

-- A client that takes the session and does nothing
abbrev quiet : Client toy
quiet = record {
  notify_open_failed = λ s. s;
  notify_closed = λ s. s;
  notify_received = λ _ s. s;
  type_opened = pure tt;
  notify_signal = pure tt;
  notify_fd_ready = λ fd flags. pure tt;
  type_process_packet = λ _. pure tt;
}

abbrev succeeded : Reader
succeeded = reader_of_string (0 ∷ 0 ∷ 0 ∷ 12 ∷ 6 ∷ 99 ∷ 0 ∷ 0 ∷ 0 ∷ 0 ∷ [])
