-- ===== src/Tests/Openings.antt =====
-- A connection that is opened: version strings, key exchange, authentication.
use eessh.Prelude.{
  ℕ, ◌+◌, ◌≡◌, refl, List, [], ◌∷◌, ◌++◌, ok, fail, Bool, true, false, none, some, length,
  replicate, Result, ◌>>=◌,
}
use eessh.Buffer.{
  clear, checked_add, realloc, reallocate, grow, push, write_u8, write_u32, get_write_pointer,
  append_data, write_data, write_buffer, remove_data, move_down,
}
use eessh.Buffer.Writes.{u32_bytes, string_bytes}
use eessh.Reader.{
  get_u32, check, check_advance, read_skip, read_u8, read_u32, read_string, read_until, scan,
  rewind,
}
use eessh.Message.{write_field, write_fields, send_message}
use eessh.Network.{
  ReadEvent, WriteEvent, chunk, again, room, read_loop, net_read, write_loop, net_write,
}
use eessh.Algorithms.{
  append_names, get_supported_algos, get_by_name, pubkey_get_by_name, get_pubkey_algo, get_kex_algo,
  get_cipher_algo, get_mac_algo, cipher_get_block_len, cipher_get_iv_len, cipher_get_key_len,
  mac_get_len,
}
use eessh.Stream.{
  init, calc_pad_len, new_packet, pad_packet, emit_packet, emit_mac, finish_packet, write_out,
  send_flush, send_packet,
}
use eessh.Stream.Receive.{
  read_in, take_in, read_more, decrypt, copy_plain, consume, fill_buffer, verify_read_packet,
  take_packet, recv_header, accept, recv_body, recv_packet,
}
use eessh.Stream.Keys.{set_cipher, set_mac}
use eessh.Connection.{packet_type, receive, receive_skip_ignore}
use eessh.Pubkey.{rsa_verify, verify_with, verify_signature}
use eessh.Kex.{search_server, search_client, choose_from, choose_algo}
use eessh.Buffer.Strings.{str_alloc, dup_string}
use eessh.Kex.KeyGen.{digest_data, first_block, next_block, more_blocks, gen_blocks, gen_key}
use eessh.Kex.Exchange.{
  Primitives, Kex, kex_new, Exchange, save_kexinit_data, write_cookie, send_init, read_strings,
  read_init, recv_init_msg, exchange_newkeys_msg, generate_keys, finish,
}
use eessh.Kex.Exchange as Exchange
use eessh.Kex.Dh.{
  get_dh_algo, check_server_identity, read_reply_strings, send_init_msg, write_transcript, kex_hash,
  authenticate, use_reply, by_reply, read_reply, dh_run,
}
use eessh.Kex.Run.{choose_all, drop_guess, start_with}
use eessh.Version.{
  build, parse_line, read_line, is_version_line, find_version_line, get_version_line, VersionString,
}
use eessh.Version as Version
use eessh.Userauth as Userauth
use eessh.Userauth.{read_response, method_none, run_none}
use eessh.Kex.Run as Run
use eessh.Connection.Open.{
  Config, Prepared, save_hostname, prepare, write_raw, read_version, setup, log_in, secure,
  open_conn,
}
use eessh.Connection.Open as Open
use eessh.Connection.Open.Secure.{IsSecure, open_conn-IsSecure}
use eessh.Tests.Exchanges.{heap, toy, primitives, kexinit, reply, newkeys}

program : Unit {0}
unfolding ◌>>=◌ str_alloc dup_string clear checked_add realloc reallocate grow push write_u8
    write_u32 get_write_pointer append_data write_data write_buffer remove_data move_down get_u32
    check check_advance read_skip read_u8 read_u32 read_string read_until scan rewind read_loop
    net_read write_loop net_write write_field write_fields send_message init calc_pad_len new_packet
    pad_packet emit_packet emit_mac finish_packet write_out send_flush send_packet read_in take_in
    read_more decrypt copy_plain consume fill_buffer verify_read_packet take_packet recv_header
    accept recv_body recv_packet packet_type receive receive_skip_ignore append_names
    get_supported_algos get_by_name pubkey_get_by_name get_pubkey_algo get_kex_algo get_cipher_algo
    get_mac_algo cipher_get_block_len cipher_get_iv_len cipher_get_key_len mac_get_len set_cipher
    set_mac rsa_verify verify_with verify_signature search_server search_client choose_from
    choose_algo digest_data first_block next_block more_blocks gen_blocks gen_key save_kexinit_data
    write_cookie send_init read_strings read_init recv_init_msg exchange_newkeys_msg generate_keys
    finish Exchange.send_init_msg get_dh_algo check_server_identity read_reply_strings send_init_msg
    write_transcript kex_hash authenticate use_reply by_reply read_reply dh_run choose_all
    drop_guess start_with Run.start Run.run build parse_line read_line is_version_line
    find_version_line get_version_line Version.read Userauth.init Userauth.run read_response
    method_none run_none save_hostname prepare write_raw read_version setup log_in secure Open.start
    open_conn
program = tt

-- A packet with its padding, for blocks of eight or sixteen bytes
abbrev framed : ℕ → List ℕ → List ℕ
unfolding program
framed block payload =
    let pad = calc_pad_len (5 + length payload) block in
    u32_bytes (1 + length payload + pad) ++ pad ∷ (payload ++ replicate pad 0)

-- The same with its MAC
abbrev sealed : List ℕ → List ℕ
unfolding program
sealed payload = framed 16 payload ++ replicate 32 0

-- "SSH-2.0-x"
abbrev server_line : List ℕ
server_line = 83 ∷ 83 ∷ 72 ∷ 45 ∷ 50 ∷ 46 ∷ 48 ∷ 45 ∷ 120 ∷ 13 ∷ 10 ∷ []

-- "ssh-userauth"
abbrev service_accept : List ℕ
service_accept =
    6 ∷ string_bytes (115 ∷ 115 ∷ 104 ∷ 45 ∷ 117 ∷ 115 ∷ 101 ∷ 114 ∷ 97 ∷ 117 ∷ 116 ∷ 104 ∷ [])

abbrev net_connect : List ℕ → List ℕ → Result (List ReadEvent × List WriteEvent)
unfolding program
net_connect server port = ok (
  chunk server_line
      ∷ again
      ∷ chunk (framed 8 kexinit)
      ∷ chunk (framed 8 reply)
      ∷ chunk (framed 8 newkeys)
      ∷ chunk (sealed service_accept)
      ∷ chunk (sealed (52 ∷ []))
      ∷ [],
  room 10000 ∷ room 10000 ∷ room 10000 ∷ room 10000 ∷ room 10000 ∷ room 10000 ∷ room 10000 ∷ [],
)

abbrev config : Config
config = record {
  server = some (104 ∷ []);
  port = none;
  username = some (109 ∷ []);
  version_software = none;
  version_comments = none;
  password_reader = none;
  server_identity_checker = some (λ hostname host_key. ok tt);
}

abbrev is_ok : {A : Type 0} → Result A → Bool
is_ok (ok x) = true
is_ok (fail e) = false

value_of : {A : Type 0} (r : Result A) → is_ok r ≡ true → (x : A) × (r ≡ ok x)
value_of (ok x) h = (x, refl)
value_of (fail e) h = cc

-- The connection that this server lets the client open
opened :
    (x : VersionString × Exchange.Exchange toy) × (open_conn toy heap primitives 4 0 512 net_connect
        config
      ≡ ok x)
unfolding program net_connect
opened = value_of (open_conn toy heap primitives 4 0 512 net_connect config) refl

open_conn-IsSecure_example :
    (q : Prepared) × (prepare heap config ≡ ok q)
    × IsSecure toy heap primitives 4 0 config q opened.0.0 opened.0.1
open_conn-IsSecure_example =
    open_conn-IsSecure toy heap primitives 4 0 512 net_connect config opened.0.0 opened.0.1 opened.1
