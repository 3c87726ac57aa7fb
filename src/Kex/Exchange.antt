-- ===== src/Kex/Exchange.antt =====
-- ssh/kex.c: the messages of a key exchange, and the keys that follow from it. The calls of OpenSSL
-- are parameters, and so are the constructors of the contexts of a cipher and a MAC.
use eessh.Prelude.{
  ℕ, zero, suc, ◌+◌, ◌-◌, List, [], ◌∷◌, true, false, ◌==◌, not, leb, ltb, if◌then◌else◌, length,
  take, drop, get_or, ok, fail, too_large, out_of_memory, bad_packet_size, unexpected_packet, Act,
  pure, raise, lift, gets, modify, ◌>>=◌, ◌>>◌,
}
use eessh.Buffer
use eessh.Buffer.{
  Buffer, Allocator, contents, clear, get_write_pointer, write_u8, write_u32, write_data,
  write_buffer, append_data,
}
use eessh.Reader.{Reader, read_skip, read_u8, read_u32, read_string}
use eessh.Message.{byte}
use eessh.Algorithms.{
  kex_algos, pubkey_algos, cipher_algos, mac_algos, get_supported_algos, cipher_get_iv_len,
  cipher_get_key_len, mac_get_len,
}
use eessh.Stream.{Crypto, Stream, new_packet, send_packet, on_pack, poke}
use eessh.Stream.Keys.{len_of, set_cipher, set_mac}
use eessh.Connection.{Peer, packet_type, receive_skip_ignore, on_input, send}
pub use eessh.Kex.State.{Primitives, Kex, kex_new, Exchange}
use eessh.Kex.KeyGen.{gen_key}
use eessh.Constants.{msg_kexinit, msg_newkeys}

-- kex_save_kexinit_data: the payload of a packet. A packet whose padding reaches into the two
-- lengths passes the test, and the length to copy wraps around to one that ssh_buf_grow refuses.
unfoldable pub save_kexinit_data : Allocator → List ℕ → Act Buffer Unit
unfolding ◌>>=◌
save_kexinit_data a bytes =
    if leb (length bytes) (get_or bytes 4 0 + 1) then raise bad_packet_size else do
      modify clear
      if ltb (length bytes) (get_or bytes 4 0 + 5)
          then raise too_large
          else append_data a (take (length bytes - get_or bytes 4 0 - 5) (drop 5 bytes))

-- "none"
abbrev pub no_compression : List ℕ
no_compression = 110 ∷ 111 ∷ 110 ∷ 101 ∷ []

-- The packet in work and the list of names of kex_send_init_msg
pub record Draft (k : Crypto) : Type 0 where
  pub stream : Stream k
  pub names : Buffer

module _ (k : Crypto) (a : Allocator) (p : Primitives k) (fuel : ℕ) where
  abbrev pub on_peer : {A : Type 0} → Act (Peer k) A → Act (Exchange k) A
  on_peer m s = let (r, q) = m s.peer in (r, record s { peer = q })

  abbrev pub on_packet : {A : Type 0} → Act Buffer A → Act (Draft k) A
  on_packet m d = let (r, t) = on_pack k a m d.stream in (r, record d { stream = t })

  abbrev pub on_names : {A : Type 0} → Act Buffer A → Act (Draft k) A
  on_names m d = let (r, b) = m d.names in (r, record d { names = b })

  abbrev pub on_stream : {A : Type 0} → Act (Stream k) A → Act (Draft k) A
  on_stream m d = let (r, t) = m d.stream in (r, record d { stream = t })

  unfoldable pub write_cookie : Act Buffer Unit
  unfolding ◌>>=◌
  write_cookie = do
    at ← get_write_pointer a 16
    bytes ← lift (p.random_gen 16)
    modify (poke at bytes)

  abbrev pub write_names : Act (Draft k) Unit
  write_names d = on_packet (write_buffer a d.names) d

  -- The message of kex_send_init_msg, and its dispatch
  unfoldable pub send_init : Act (Draft k) Unit
  unfolding ◌>>=◌
  send_init = do
    on_stream (new_packet k a)
    on_packet (write_u8 a msg_kexinit)
    on_packet write_cookie
    on_names (get_supported_algos a kex_algos)
    write_names
    on_names (get_supported_algos a pubkey_algos)
    write_names
    on_names (get_supported_algos a cipher_algos)
    write_names
    write_names
    on_names (get_supported_algos a mac_algos)
    write_names
    write_names
    on_packet (write_data a no_compression)
    on_packet (write_data a no_compression)
    on_packet (write_data a [])
    on_packet (write_data a [])
    on_packet (write_u8 a 0)
    on_packet (write_u32 a 0)
    on_stream (send_packet k a)

  abbrev pub on_draft : {A : Type 0} → Act (Draft k) A → Act (Exchange k) A
  on_draft m s =
      let (r, d) = m (record { stream = s.peer.output; names = Buffer.new }) in
      (r, record s { peer = record s.peer { output = d.stream } })

  abbrev pub on_client_kexinit : {A : Type 0} → Act Buffer A → Act (Exchange k) A
  on_client_kexinit m s =
      let (r, b) = m s.kex.client_kexinit in
      (r, record s { kex = record s.kex { client_kexinit = b } })

  abbrev pub on_server_kexinit : {A : Type 0} → Act Buffer A → Act (Exchange k) A
  on_server_kexinit m s =
      let (r, b) = m s.kex.server_kexinit in
      (r, record s { kex = record s.kex { server_kexinit = b } })

  -- kex_send_init_msg
  unfoldable pub send_init_msg : Act (Exchange k) Unit
  unfolding ◌>>=◌
  send_init_msg = do
    on_draft send_init
    bytes ← gets (λ s. contents s.peer.output.pack)
    on_client_kexinit (save_kexinit_data a bytes)

  -- The reads from SSH_MSG_KEXINIT: ten strings, and first_kex_packet_follows
  unfoldable pub read_strings : ℕ → Act Reader Unit
  unfolding ◌>>=◌
  read_strings zero = pure tt
  read_strings (suc n) = do xs ← read_string; read_strings n

  unfoldable pub read_init : Act Reader ℕ
  unfolding ◌>>=◌
  read_init = do read_skip 17; read_strings 10; read_u8

  -- ssh_conn_recv_packet_skip_ignore
  abbrev pub receive : Act (Exchange k) Reader
  receive = on_peer (on_input k a (receive_skip_ignore k a fuel))

  -- kex_recv_init_msg
  unfoldable pub recv_init_msg : Act (Exchange k) Unit
  unfolding ◌>>=◌
  recv_init_msg = do
    pack ← receive
    if not (packet_type pack == msg_kexinit) then raise unexpected_packet else do
      follows ← lift (read_init pack).0
      modify (λ s. record s { kex = record s.kex { first_kex_packet_follows = follows } })
      reserved ← lift (read_u32 (read_init pack).1).0
      if not (follows == 0)
          then raise unexpected_packet
          else on_server_kexinit (save_kexinit_data a pack.bytes)

  -- kex_exchange_newkeys_msg
  unfoldable pub exchange_newkeys_msg : Act (Exchange k) Unit
  unfolding ◌>>=◌
  exchange_newkeys_msg = do
    on_peer (send k a (byte msg_newkeys ∷ []))
    pack ← receive
    if packet_type pack == msg_newkeys then pure tt else raise unexpected_packet

  -- One call of gen_key
  abbrev pub derive : ℕ → ℕ → Act (Exchange k) (List ℕ)
  derive len key_id s = (
    gen_key a (p.hash_compute s.kex.hash_type) s.kex.shared_secret s.kex.exchange_hash len key_id
        s.session_id,
    s,
  )

  abbrev pub on_output_stream : {A : Type 0} → Act (Stream k) A → Act (Exchange k) A
  on_output_stream m s =
      let (r, o) = m s.peer.output in (r, record s { peer = record s.peer { output = o } })

  abbrev pub on_input_stream : {A : Type 0} → Act (Stream k) A → Act (Exchange k) A
  on_input_stream m s =
      let (r, i) = m s.peer.input in (r, record s { peer = record s.peer { input = i } })

  -- kex_generate_keys
  unfoldable pub generate_keys : Act (Exchange k) Unit
  unfolding ◌>>=◌
  generate_keys = do
    kex ← gets (λ s. s.kex)
    iv_cts_len ← lift (len_of (cipher_get_iv_len kex.cipher_type_cts))
    iv_stc_len ← lift (len_of (cipher_get_iv_len kex.cipher_type_stc))
    key_cts_len ← lift (len_of (cipher_get_key_len kex.cipher_type_cts))
    key_stc_len ← lift (len_of (cipher_get_key_len kex.cipher_type_stc))
    mac_cts_len ← lift (len_of (mac_get_len kex.mac_type_cts))
    mac_stc_len ← lift (len_of (mac_get_len kex.mac_type_stc))
    iv_cts ← derive iv_cts_len b'A'
    iv_stc ← derive iv_stc_len b'B'
    key_cts ← derive key_cts_len b'C'
    key_stc ← derive key_stc_len b'D'
    mac_cts ← derive mac_cts_len b'E'
    mac_stc ← derive mac_stc_len b'F'
    on_output_stream
        (set_cipher k kex.cipher_type_cts (p.cipher_new kex.cipher_type_cts true iv_cts key_cts))
    on_input_stream
        (set_cipher k kex.cipher_type_stc (p.cipher_new kex.cipher_type_stc false iv_stc key_stc))
    on_output_stream (set_mac k kex.mac_type_cts (p.mac_new kex.mac_type_cts mac_cts))
    on_input_stream (set_mac k kex.mac_type_stc (p.mac_new kex.mac_type_stc mac_stc))

  -- The session id is a copy of the first exchange hash. (Where the copy fails, its length is set all
  -- the same, but the connection ends there.)
  abbrev pub set_session_id : List ℕ → Act (Exchange k) Unit
  set_session_id exchange_hash s =
      if length s.session_id == 0
      then (if a.grants (length exchange_hash)
          then (ok tt, record s { session_id = exchange_hash })
          else (fail out_of_memory, s))
      else (ok tt, s)

  -- ssh_kex_finish
  unfoldable pub finish : List ℕ → List ℕ → Act (Exchange k) Unit
  unfolding ◌>>=◌
  finish shared_secret exchange_hash = do
    set_session_id exchange_hash
    modify (λ s. record s {
      kex = record s.kex { shared_secret = shared_secret; exchange_hash = exchange_hash };
    })
    exchange_newkeys_msg
    generate_keys
