-- ===== src/Tests/Streams.antt =====
-- Runs of common/network.c and ssh/stream.c.
use eessh.Prelude.{
  ℕ, ◌≡◌, ◌≤◌, ◌<◌, ◌+◌, ◌%◌, refl, List, [], ◌∷◌, ◌++◌, true, ok, arith, length, some, ◌>>=◌,
}
use eessh.Buffer.{
  Allocator, checked_add, realloc, reallocate, grow, push, clear, write_u8, write_u32,
  get_write_pointer, append_data, write_data, remove_data, move_down,
}
use eessh.Buffer.Writes.{Writes}
use eessh.Reader.{get_u32}
use eessh.Message.{
  Field, byte, text, write_field, write_fields, payload, write_fields-Writes, send_message,
}
use eessh.Network.{ReadEvent, chunk, room, read_loop, net_read, write_loop, net_write}
use eessh.Network.Connect.{
  SocketEvent, made, refused, connected, Kernel, make_socket, make_connection, close, try_addresses,
  net_connect, Leaves, net_connect-Leaves,
}
use eessh.Network.Read.{pending, net_read_conserves}
use eessh.Stream.{
  Crypto, Stream, init, calc_pad_len, new_packet, pad_packet, emit_packet, emit_mac, finish_packet,
  write_out, send_flush, send_packet,
}
use eessh.Stream.Padding.{block_of, calc_pad_len_lem}
use eessh.Stream.Receive.{
  read_in, take_in, read_more, decrypt, copy_plain, consume, fill_buffer, verify_read_packet,
  take_packet, recv_header, accept, recv_body, recv_packet,
}
use eessh.Stream.Accept.{settings, Accepted, recv_packet-Accepted}

program : Unit {0}
unfolding ◌>>=◌ clear checked_add realloc reallocate grow push write_u8 write_u32 get_write_pointer
    append_data write_data remove_data move_down get_u32 read_loop net_read write_loop net_write
    write_field write_fields send_message init calc_pad_len new_packet pad_packet emit_packet
    emit_mac finish_packet write_out send_flush send_packet read_in take_in read_more decrypt
    copy_plain consume fill_buffer verify_read_packet take_packet recv_header accept recv_body
    recv_packet
program = tt

abbrev heap : Allocator
heap = record { grants = λ _. true; junk = 0; overrun = λ xs. xs }

-- A cipher that does nothing and a MAC of two bytes.
abbrev toy : Crypto
toy = record {
  CipherCtx = Unit;
  crypt = λ ctx xs. (ok xs, ctx);
  MacCtx = Unit;
  mac_compute = λ _ seq xs. ok (seq ∷ length xs ∷ []);
  random = λ _. [];
}

abbrev socket : List ReadEvent
socket = chunk (0 ∷ 0 ∷ 0 ∷ []) ∷ ReadEvent.interrupted ∷ chunk (12 ∷ 4 ∷ []) ∷ []

abbrev addresses : List ℕ
addresses = 1 ∷ 2 ∷ []

-- The first address refuses, the second takes the connection.
abbrev kernel : Kernel
kernel = record {
  sockets = made 3 ∷ SocketEvent.interrupted ∷ made 4 ∷ [];
  connects = refused ∷ connected ∷ [];
  descriptors = 0 ∷ [];
}

net_connect-Leaves_example : Leaves (0 ∷ []) (net_connect (some addresses) kernel)
net_connect-Leaves_example = net_connect-Leaves (some addresses) kernel

second_address : (net_connect (some addresses) kernel).0 ≡ ok 4
unfolding make_socket make_connection close try_addresses net_connect
second_address = refl

net_read_conserves_example :
    ((0 ∷ 0 ∷ 0 ∷ 12 ∷ []) ++ pending (net_read socket 4).1 ≡ pending socket) × (4 ≤ 4)
unfolding program
net_read_conserves_example = net_read_conserves socket 4 (0 ∷ 0 ∷ 0 ∷ 12 ∷ []) refl

calc_pad_len_lem_example :
    (4 ≤ calc_pad_len 13 16)
    × (calc_pad_len 13 16 < 4 + block_of 16)
    × ((13 + calc_pad_len 13 16) % block_of 16 ≡ 0)
calc_pad_len_lem_example = calc_pad_len_lem 13 16 (omega arith)

abbrev request : List Field
request = byte 5 ∷ text (115 ∷ 115 ∷ []) ∷ []

write_fields-Writes_example : Writes heap (payload request) (write_fields heap request)
write_fields-Writes_example = write_fields-Writes heap request (tt, (omega arith, tt))

-- What a client that sends `request` puts on the wire
sent :
    (send_message toy heap request (init toy heap [] (room 100 ∷ []))).1.sent
    ≡ 0 ∷ 0 ∷ 0 ∷ 12 ∷ 4 ∷ 5 ∷ 0 ∷ 0 ∷ 0 ∷ 2 ∷ 115 ∷ 115 ∷ 255 ∷ 255 ∷ 255 ∷ 255 ∷ []
unfolding program
sent = refl

-- and a reader with a MAC, to which this comes with a tag.
abbrev receiver : Stream toy
unfolding program
receiver =
    record (init toy heap
      (chunk
          (0 ∷ 0 ∷ 0 ∷ 12 ∷ 4 ∷ 5 ∷ 0 ∷ 0 ∷ 0 ∷ 2 ∷ 115 ∷ 115 ∷ 255 ∷ 255 ∷ 255 ∷ 255 ∷ 0 ∷ 16 ∷ [])
        ∷ [])
      []) { mac = some tt; mac_len = 2 }

recv_packet-Accepted_example :
    Accepted toy heap (settings toy heap receiver) (recv_packet toy heap receiver).1
unfolding program
recv_packet-Accepted_example =
    recv_packet-Accepted toy heap receiver (recv_packet toy heap receiver).1 refl
