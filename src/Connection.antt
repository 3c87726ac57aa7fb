-- ===== src/Connection.antt =====
-- ssh/connection.c: packets over the two streams of a connection, before there are channels.
pub mod Open
use eessh.Prelude.{
  ℕ, zero, suc, List, [], ◌∷◌, Bool, ◌||◌, ltb, ◌==◌, if◌then◌else◌, get_or, Act, pure, raise, gets,
  ◌>>=◌, ◌>>◌, would_block, disconnected,
}
use eessh.Buffer.{Allocator}
use eessh.Reader.{Reader, reader_of_buffer, read_u8, read_u32}
use eessh.Message.{Field, send_message}
use eessh.Stream.{Crypto, Stream}
use eessh.Stream.Receive.{recv_packet}
use eessh.Constants.{msg_disconnect, msg_ignore, msg_unimplemented, msg_debug}

-- in_stream and out_stream of struct SSH_CONN
pub record Peer (k : Crypto) : Type 0 where
  pub input : Stream k
  pub output : Stream k

-- ssh_packet_get_type, which gives -1 for a packet without a type byte, as a `uint8_t`
unfoldable pub packet_type : Reader → ℕ
packet_type r = if ltb r.len 6 then 255 else get_or r.bytes 5 0

module _ (k : Crypto) (a : Allocator) where
  -- A reader of the packet that was received last, behind its two lengths; the results of the
  -- two reads are unused.
  abbrev pub last_packet : Stream k → Reader
  last_packet s = (read_u8 (read_u32 (reader_of_buffer s.pack)).1).1

  -- ssh_conn_recv_packet
  unfoldable pub receive : Act (Stream k) Reader
  unfolding ◌>>=◌
  receive = do recv_packet k a; gets last_packet

  abbrev pub is_ignored : ℕ → Bool
  is_ignored type = type == msg_ignore || type == msg_unimplemented || type == msg_debug

  -- ssh_conn_recv_packet_skip_ignore, up to `fuel` packets
  unfoldable pub receive_skip_ignore : ℕ → Act (Stream k) Reader
  unfolding ◌>>=◌
  receive_skip_ignore zero = raise would_block
  receive_skip_ignore (suc fuel) = do
    r ← receive
    if is_ignored (packet_type r)
        then receive_skip_ignore fuel
        else if packet_type r == msg_disconnect
        then raise disconnected
        else pure r

  abbrev pub on_input : {A : Type 0} → Act (Stream k) A → Act (Peer k) A
  on_input m s = let (r, i) = m s.input in (r, record s { input = i })

  abbrev pub send : List Field → Act (Peer k) Unit
  send fs s = let (r, o) = send_message k a fs s.output in (r, record s { output = o })

  -- ssh_conn_send_ignore_msg
  unfoldable pub send_ignore_msg : List ℕ → Act (Peer k) Unit
  send_ignore_msg msg = send (Field.byte msg_ignore ∷ Field.text msg ∷ [])
