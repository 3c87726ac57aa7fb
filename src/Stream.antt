-- ===== src/Stream.antt =====
-- ssh/stream.c: sending and receiving packets in one direction of a connection.
-- The union `net` is two fields: `buf` (received, decrypted) is used by a read stream only. The
-- socket's answers stand in the stream that uses them.
pub mod Receive
pub mod Padding
pub mod Accept
pub mod Keys
pub mod Flush
pub mod Stores
pub mod Frame
pub mod Emit
pub mod Intake
pub mod Consume
pub mod Fill
pub mod Unpack
pub mod Arrive
pub mod Checked
pub mod RoundTrip
use eessh.Prelude.{
  ℕ, zero, suc, ◌+◌, ◌-◌, ◌*◌, ◌%◌, ◌^◌, List, [], ◌∷◌, ◌++◌, Bool, true, false, not, ◌&&◌, ◌||◌,
  Option, none, some, ltb, leb, ◌==◌, if◌then◌else◌, length, take, drop, get_or, replicate, blit,
  min, Result, Status, ok, fail, Error, bad_packet_size, bad_padding, bad_mac, would_block, Act,
  pure, raise, lift, gets, modify, proceed, ◌>>=◌, ◌>>◌,
}
use eessh.Buffer
use eessh.Buffer.{
  Buffer, Allocator, add_size, sub_size, contents, clear, grow, get_write_pointer, write_u8,
  write_u32, append_data, remove_data,
}
use eessh.Buffer.Writes.{u32_bytes}
use eessh.Reader.{get_u32}
use eessh.Network.{ReadEvent, WriteEvent, net_read, net_write}

-- What a stream uses of other parts: the cipher (its context changes with use), the MAC of a
-- sequence number and some bytes under a key, and the random generator.
pub record Crypto : Type 1 where
  pub CipherCtx : Type 0
  pub crypt : CipherCtx → List ℕ → Result (List ℕ) × CipherCtx
  pub MacCtx : Type 0
  pub mac_compute : MacCtx → ℕ → List ℕ → Result (List ℕ)
  pub random : ℕ → List ℕ

-- `cipher_type` and `mac_type` are tested against NONE only: here, whether there is a context.
pub record Stream (k : Crypto) : Type 0 where
  pub seq_num : ℕ
  pub pack : Buffer
  pub buf : Buffer
  pub buf_enc : Buffer
  pub cipher : Option (k.CipherCtx)
  pub cipher_block_len : ℕ
  pub mac : Option (k.MacCtx)
  pub mac_len : ℕ
  pub arrivals : List ReadEvent
  pub departures : List WriteEvent
  pub sent : List ℕ

abbrev pub max_packet_len : ℕ
max_packet_len = 128 * 1024

-- The parameters are a `uint32_t` and a `uint8_t`, and so is the result.
unfoldable pub calc_pad_len : ℕ → ℕ → ℕ
calc_pad_len pack_len block =
    let block_size = if ltb block 8 then 8 else block in
    let pad_len = (block_size - pack_len % block_size) % 256 in
    if ltb pad_len 4 then (pad_len + block_size) % 256 else pad_len

-- memcpy to an index of a buffer's allocation
abbrev pub poke : ℕ → List ℕ → Buffer → Buffer
poke at bytes b = record b { mem = blit b.mem at bytes }

module _ (k : Crypto) (a : Allocator) where
  -- ssh_stream_init
  unfoldable pub init : List ReadEvent → List WriteEvent → Stream k
  init arrivals departures = record {
    seq_num = 0;
    pack = Buffer.new;
    buf = Buffer.new;
    buf_enc = Buffer.new;
    cipher = none;
    cipher_block_len = 0;
    mac = none;
    mac_len = 0;
    arrivals = arrivals;
    departures = departures;
    sent = [];
  }

  abbrev pub on_pack : {A : Type 0} → Act Buffer A → Act (Stream k) A
  on_pack m s = let (r, b) = m s.pack in (r, record s { pack = b })

  abbrev pub on_buf : {A : Type 0} → Act Buffer A → Act (Stream k) A
  on_buf m s = let (r, b) = m s.buf in (r, record s { buf = b })

  abbrev pub on_enc : {A : Type 0} → Act Buffer A → Act (Stream k) A
  on_enc m s = let (r, b) = m s.buf_enc in (r, record s { buf_enc = b })

  -- ssh_stream_new_packet
  unfoldable pub new_packet : Act (Stream k) Unit
  unfolding ◌>>=◌
  new_packet = do on_pack (modify clear); on_pack (write_u32 a 0); on_pack (write_u8 a 0)

  -- The bytes of the padding: 0xff, or random ones once there is a cipher.
  abbrev pub padding : Stream k → ℕ → List ℕ
  padding s n = elim s.cipher [ none ↦ replicate n 0xff | some _ ↦ k.random n ]

  -- The first half of finish_packet: padding and the two lengths.
  unfoldable pub pad_packet : Act (Stream k) Unit
  unfolding ◌>>=◌
  pad_packet = do
    block ← gets (λ s. s.cipher_block_len)
    len ← gets (λ s. s.pack.len)
    let pad_len = calc_pad_len (len % 2 ^ 32) (block % 256)
    p ← on_pack (get_write_pointer a pad_len)
    bytes ← gets (λ s. padding s pad_len)
    on_pack (modify (poke p bytes))
    on_pack (modify (λ b. poke 0 (u32_bytes (sub_size b.len 4 % 2 ^ 32)) b))
    on_pack (modify (poke 4 (pad_len ∷ [])))

  -- `bytes` through the cipher, or as they are
  abbrev pub crypt_with : Option (k.CipherCtx) → List ℕ → Act (Stream k) (List ℕ)
  crypt_with none bytes s = (ok bytes, s)
  crypt_with (some ctx) bytes s =
      let (r, ctx') = k.crypt ctx bytes in (r, record s { cipher = some ctx' })

  abbrev pub crypt_bytes : List ℕ → Act (Stream k) (List ℕ)
  crypt_bytes bytes s = crypt_with s.cipher bytes s

  -- The packet goes to the network buffer, encrypted if there is a cipher.
  unfoldable pub emit_packet : Act (Stream k) Unit
  unfolding ◌>>=◌
  emit_packet = do
    plain ← gets (λ s. contents s.pack)
    len ← gets (λ s. s.pack.len)
    p ← on_enc (get_write_pointer a len)
    out ← crypt_bytes plain
    on_enc (modify (poke p out))

  -- The MAC of the sequence number and the plain packet follows.
  unfoldable pub emit_mac : k.MacCtx → Act (Stream k) Unit
  unfolding ◌>>=◌
  emit_mac key = do
    len ← gets (λ s. s.mac_len)
    p ← on_enc (get_write_pointer a len)
    digest ← (λ s. (k.mac_compute key s.seq_num (contents s.pack), s))
    on_enc (modify (poke p digest))

  abbrev pub emit_tag : Option (k.MacCtx) → Act (Stream k) Unit
  emit_tag none = pure tt
  emit_tag (some key) = emit_mac key

  unfoldable pub finish_packet : Act (Stream k) Unit
  unfolding ◌>>=◌
  finish_packet = do pad_packet; emit_packet; mac ← gets (λ s. s.mac); emit_tag mac

  -- The result of ssh_net_write: the number of bytes, or -1
  abbrev pub count_of : Status → ℕ → Result ℕ
  count_of (ok _) n = ok n
  count_of (fail e) n = fail e

  -- ssh_net_write on the network buffer
  unfoldable pub write_out : Act (Stream k) ℕ
  write_out s =
      let (r, out, es) = net_write s.departures (contents s.buf_enc) in
      (count_of r (length out), record s { departures = es; sent = s.sent ++ out })

  -- ssh_stream_send_flush
  unfoldable pub send_flush : Act (Stream k) Unit
  unfolding ◌>>=◌
  send_flush = do len ← write_out; on_enc (remove_data 0 len)

  unfoldable pub send_is_pending : Stream k → Bool
  send_is_pending s = ltb 0 s.buf_enc.len

  unfoldable pub send_packet : Act (Stream k) Unit
  unfolding ◌>>=◌
  send_packet = do
    finish_packet
    modify (λ s. record s { seq_num = (s.seq_num + 1) % 2 ^ 32 })
    send_flush
