-- ===== src/Stream/Receive.antt =====
-- ssh/stream.c, the read half: filling the buffers from the socket, cutting a packet out, checking
-- its padding and its MAC.
use eessh.Prelude.{
  ℕ, ◌+◌, ◌-◌, ◌%◌, ◌^◌, List, Bool, not, ◌&&◌, ◌||◌, Option, none, some, ltb, ◌==◌, if◌then◌else◌,
  length, take, drop, get_or, blit, min, Result, Status, ok, fail, bad_packet_size, bad_padding,
  bad_mac, would_block, Act, pure, raise, lift, gets, modify, ◌>>=◌, ◌>>◌, same_bytes,
}
use eessh.Buffer.{
  Buffer, Allocator, add_size, sub_size, contents, clear, grow, get_write_pointer, append_data,
  remove_data,
}
use eessh.Reader.{get_u32}
use eessh.Network.{net_read}
use eessh.Stream.{Crypto, Stream, poke, max_packet_len, on_pack, on_buf, on_enc, crypt_bytes}

-- How many bytes are missing up to `total`, of which `held` are there.
abbrev pub missing : ℕ → ℕ → ℕ
missing total held = if ltb total held then 0 else total - held

module _ (k : Crypto) (a : Allocator) where
  abbrev pub on_side : {A : Type 0} → Option (k.CipherCtx) → Act Buffer A → Act (Stream k) A
  on_side none m = on_buf k a m
  on_side (some _) m = on_enc k a m

  -- read_buf: the buffer that bytes from the network go to
  abbrev pub on_net : {A : Type 0} → Act Buffer A → Act (Stream k) A
  on_net m s = on_side s.cipher m s

  abbrev pub read_len : ℕ → Stream k → ℕ
  read_len total s = elim s.cipher [
    | none ↦ missing total s.buf.len
    | some _ ↦
        if ltb total (add_size s.buf.len s.buf_enc.len)
        then 0
        else sub_size (sub_size total s.buf.len) s.buf_enc.len
  ]

  -- ssh_net_read behind the fill level
  unfoldable pub read_in : ℕ → Act (Stream k) (List ℕ)
  read_in n s = let (r, es) = net_read s.arrivals n in (r, record s { arrivals = es })

  -- The bytes that came are kept, also when they are too few.
  unfoldable pub take_in : List ℕ → Buffer → Buffer
  take_in got b = record b { mem = blit b.mem b.len got; len = add_size b.len (length got) }

  unfoldable pub read_more : ℕ → Act (Stream k) Unit
  unfolding ◌>>=◌
  read_more n = do
    on_net (grow a n)
    got ← read_in n
    on_net (modify (take_in got))
    if ltb (length got) n then raise would_block else pure tt

  -- Decrypt `n` bytes of the network buffer.
  unfoldable pub decrypt : ℕ → Act (Stream k) Unit
  unfolding ◌>>=◌
  decrypt n = do
    p ← on_buf k a (get_write_pointer a n)
    bytes ← gets (λ s. take n s.buf_enc.mem)
    out ← crypt_bytes k a bytes
    on_buf k a (modify (poke p out))

  -- Copy `n` bytes that end at `end` of the network buffer: they are not encrypted.
  unfoldable pub copy_plain : ℕ → ℕ → Act (Stream k) Unit
  unfolding ◌>>=◌
  copy_plain end n = do
    p ← on_buf k a (get_write_pointer a n)
    bytes ← gets (λ s. take n (drop (end - n) s.buf_enc.mem))
    on_buf k a (modify (poke p bytes))

  -- The second half of stream_recv_fill_buffer, once there is a cipher and bytes to take.
  unfoldable pub consume : ℕ → ℕ → Act (Stream k) Unit
  unfolding ◌>>=◌
  consume consume_len plaintext_len = do
    if ltb plaintext_len consume_len then decrypt (consume_len - plaintext_len) else pure tt
    if ltb 0 consume_len then copy_plain consume_len (min consume_len plaintext_len) else pure tt
    on_enc k a (remove_data 0 consume_len)

  abbrev pub consume_from : Option (k.CipherCtx) → ℕ → ℕ → ℕ → Act (Stream k) Unit
  consume_from none held total plaintext_len = pure tt
  consume_from (some _) held total plaintext_len =
      if ltb held total then consume (total - held) plaintext_len else pure tt

  -- stream_recv_fill_buffer
  unfoldable pub fill_buffer : ℕ → ℕ → Act (Stream k) Unit
  unfolding ◌>>=◌
  fill_buffer ciphertext_len plaintext_len = do
    let total = add_size ciphertext_len plaintext_len
    n ← gets (read_len total)
    if ltb 0 n then read_more n else pure tt
    cipher ← gets (λ s. s.cipher)
    held ← gets (λ s. s.buf.len)
    consume_from cipher held total plaintext_len

  -- verify_read_packet: the padding, then the MAC that stands behind the packet
  abbrev pub padding_ok : Buffer → ℕ → Bool
  padding_ok pack block =
      not (ltb (get_or pack.mem 4 0) 4)
      && not (ltb (sub_size pack.len 5) (get_or pack.mem 4 0))
      && pack.len % (if block == 0 then 8 else block % 256) == 0

  abbrev pub mac_matches : Stream k → List ℕ → Bool
  mac_matches s digest =
      same_bytes (take s.mac_len digest) (take s.mac_len (drop s.pack.len s.pack.mem))

  abbrev pub check_digest : Stream k → Result (List ℕ) → Status
  check_digest s (fail e) = fail e
  check_digest s (ok digest) = if mac_matches s digest then ok tt else fail bad_mac

  abbrev pub verify_mac : Stream k → Option (k.MacCtx) → Status
  verify_mac s none = ok tt
  verify_mac s (some key) = check_digest s (k.mac_compute key s.seq_num (contents s.pack))

  unfoldable pub verify_read_packet : Stream k → Status
  verify_read_packet s =
      if padding_ok s.pack s.cipher_block_len then verify_mac s s.mac else fail bad_padding

  -- ssh_stream_recv_packet: cut the packet out of the received bytes
  unfoldable pub take_packet : ℕ → Act (Stream k) Unit
  unfolding ◌>>=◌
  take_packet pack_data_len = do
    on_pack k a (modify clear)
    bytes ← gets (λ s. take pack_data_len s.buf.mem)
    on_pack k a (append_data a bytes)
    mac_len ← gets (λ s. s.mac_len)
    on_pack k a (grow a mac_len)
    tag ← gets (λ s. take mac_len (drop pack_data_len s.buf.mem))
    on_pack k a (modify (λ b. poke b.len tag b))
    on_buf k a (remove_data 0 (pack_data_len + mac_len))

  unfoldable pub recv_header : Act (Stream k) Unit
  unfolding ◌>>=◌
  recv_header = do
    min_len ← gets (λ s. elim s.cipher [ none ↦ 4 | some _ ↦ s.cipher_block_len ])
    held ← gets (λ s. s.buf.len)
    if ltb held min_len then fill_buffer min_len 0 else pure tt

  -- Check the packet that was cut out, and count it.
  unfoldable pub accept : Act (Stream k) Unit
  unfolding ◌>>=◌
  accept = do
    checked ← gets verify_read_packet
    lift checked
    modify (λ s. record s { seq_num = (s.seq_num + 1) % 2 ^ 32 })

  -- The rest of ssh_stream_recv_packet, once the length is known.
  unfoldable pub recv_body : ℕ → Act (Stream k) Unit
  unfolding ◌>>=◌
  recv_body pack_data_len = do
    mac_len ← gets (λ s. s.mac_len)
    fill_buffer pack_data_len mac_len
    take_packet pack_data_len
    accept

  unfoldable pub recv_packet : Act (Stream k) Unit
  unfolding ◌>>=◌
  recv_packet = do
    recv_header
    pack_len ← gets (λ s. get_u32 s.buf.mem 0)
    if ltb pack_len 12 || ltb max_packet_len pack_len
        then raise bad_packet_size
        else recv_body (pack_len + 4)
