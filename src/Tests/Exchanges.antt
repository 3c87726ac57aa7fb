-- ===== src/Tests/Exchanges.antt =====
-- A key exchange with a server, from SSH_MSG_KEXINIT to SSH_MSG_NEWKEYS.
use eessh.Prelude.{
  arith, ℕ, ◌+◌, ◌≡◌, refl, List, [], ◌∷◌, ◌++◌, true, ok, some, length, replicate, ◌>>=◌, none,
  ◌⊎◌,
}
use eessh.Buffer.{
  Allocator, clear, checked_add, realloc, reallocate, grow, push, write_u8, write_u32,
  get_write_pointer, append_data, write_data, write_buffer, remove_data, move_down,
}
use eessh.Buffer.Writes.{u32_bytes, string_bytes}
use eessh.Reader.{
  get_u32, check, check_advance, read_skip, read_u8, read_u32, read_string, read_until, scan,
  rewind,
}
use eessh.Message.{write_field, write_fields, send_message}
use eessh.Network.{chunk, room, read_loop, net_read, write_loop, net_write}
use eessh.Algorithms.{
  append_names, get_supported_algos, get_by_name, pubkey_get_by_name, get_pubkey_algo, get_kex_algo,
  get_cipher_algo, get_mac_algo, cipher_get_block_len, cipher_get_iv_len, cipher_get_key_len,
  mac_get_len, dh_group_14, aes128_ctr, hmac_sha2_256,
}
use eessh.Stream.{
  Crypto, init, calc_pad_len, new_packet, pad_packet, emit_packet, emit_mac, finish_packet,
  write_out, send_flush, send_packet,
}
use eessh.Stream.Receive.{
  read_in, take_in, read_more, decrypt, copy_plain, consume, fill_buffer, verify_read_packet,
  take_packet, recv_header, accept, recv_body, recv_packet,
}
use eessh.Stream.Keys.{set_cipher, set_mac}
use eessh.Connection.{Peer, packet_type, receive, receive_skip_ignore}
use eessh.Pubkey.{rsa_verify, verify_with, verify_signature}
use eessh.Pubkey.Verified.{Verified, verify_signature-Verified}
use eessh.Kex.{search_server, search_client, choose_from, choose_algo}
use eessh.Buffer.Strings.{str_alloc, dup_string}
use eessh.Kex.KeyGen.{digest_data, first_block, next_block, more_blocks, gen_blocks, gen_key}
use eessh.Kex.Exchange.{
  Primitives, Kex, kex_new, Exchange, save_kexinit_data, write_cookie, send_init, read_strings,
  read_init, recv_init_msg, exchange_newkeys_msg, generate_keys, finish,
}
use eessh.Kex.Exchange as Exchange
use eessh.Kex.Dh.{
  Identity, get_dh_algo, check_server_identity, read_reply_strings, send_init_msg, write_transcript,
  kex_hash, authenticate, use_reply, by_reply, read_reply, dh_run,
}
use eessh.Kex.Dh.Finish.{IsSetOnce}
use eessh.Kex.Dh.Trust.{Authentic, dh_run-Authentic}
use eessh.Kex.Dh.Failure.{IsProven, read_reply_else}
use eessh.Kex.Dh.Transcript.{parts, wire, kex_hash_lem}
use eessh.Kex.Run.{choose_all, drop_guess, start_with, start, run}
use eessh.Kex.Run.Trust.{run-Authentic}

program : Unit {0}
unfolding ◌>>=◌ str_alloc dup_string clear checked_add realloc reallocate grow push write_u8
    write_u32 get_write_pointer append_data write_data write_buffer remove_data move_down get_u32
    check check_advance read_skip read_u8 read_u32 read_string read_until scan rewind read_loop
    net_read write_loop net_write write_field write_fields send_message init calc_pad_len new_packet
    pad_packet emit_packet emit_mac finish_packet write_out send_flush send_packet read_in take_in
    read_more decrypt copy_plain consume fill_buffer verify_read_packet take_packet recv_header
    accept recv_body recv_packet packet_type receive receive_skip_ignore append_names
    get_supported_algos get_by_name pubkey_get_by_name get_pubkey_algo get_kex_algo get_cipher_algo
    get_mac_algo cipher_get_block_len cipher_get_iv_len cipher_get_key_len mac_get_len set_cipher
    set_mac rsa_verify verify_with verify_signature search_server search_client choose_from
    choose_algo digest_data first_block next_block more_blocks gen_blocks gen_key save_kexinit_data
    write_cookie send_init read_strings read_init recv_init_msg exchange_newkeys_msg generate_keys
    finish Exchange.send_init_msg get_dh_algo check_server_identity read_reply_strings send_init_msg
    write_transcript kex_hash authenticate use_reply by_reply read_reply dh_run choose_all
    drop_guess start_with start run
program = tt

abbrev pub heap : Allocator
heap = record { grants = λ _. true; junk = 0; overrun = λ xs. xs }

abbrev pub toy : Crypto
toy = record {
  CipherCtx = Unit;
  crypt = λ ctx xs. (ok xs, ctx);
  MacCtx = Unit;
  mac_compute = λ _ seq xs. ok (replicate 32 0);
  random = λ _. [];
}

-- Digests of 32 bytes that count what was hashed
abbrev pub primitives : Primitives toy
primitives = record {
  hash_compute = λ type xs. ok (replicate 32 (length xs));
  rsa_verify = λ type e n sig digest. ok tt;
  Dh = Unit;
  dh_new = λ gen modulus. ok tt;
  dh_get_pubkey = λ dh. ok (5 ∷ []);
  dh_compute_key = λ dh server_pubkey. ok (6 ∷ server_pubkey);
  random_gen = λ n. ok (replicate n 3);
  cipher_new = λ type encrypt iv key. ok tt;
  mac_new = λ type key. ok tt;
}

abbrev identity : Identity
identity = record {
  hostname = 104 ∷ [];
  client_version = 83 ∷ 49 ∷ [];
  server_version = 83 ∷ 50 ∷ [];
  checker = some (λ hostname host_key. ok tt);
}

-- A packet with its padding
abbrev framed : List ℕ → List ℕ
unfolding program
framed payload =
    let pad = calc_pad_len (5 + length payload) 8 in
    u32_bytes (1 + length payload + pad) ++ pad ∷ (payload ++ replicate pad 0)

-- "ssh-rsa"
abbrev pub ssh_rsa : List ℕ
ssh_rsa = 115 ∷ 115 ∷ 104 ∷ 45 ∷ 114 ∷ 115 ∷ 97 ∷ []

abbrev host_key : List ℕ
host_key = string_bytes ssh_rsa ++ (string_bytes (3 ∷ []) ++ string_bytes (7 ∷ 9 ∷ []))

abbrev signature : List ℕ
signature = string_bytes ssh_rsa ++ string_bytes (8 ∷ 8 ∷ [])

abbrev pub reply : List ℕ
reply = 31 ∷ (string_bytes host_key ++ (string_bytes (4 ∷ []) ++ string_bytes signature))

abbrev pub newkeys : List ℕ
newkeys = 21 ∷ []

-- A server that answers the Diffie-Hellman exchange
abbrev peer : Peer toy
unfolding program
peer = record {
  input = init toy heap (chunk (framed reply) ∷ chunk (framed newkeys) ∷ []) [];
  output = init toy heap [] (room 10000 ∷ room 10000 ∷ []);
}

abbrev begun : Exchange toy
unfolding program
begun = record {
  peer = peer;
  session_id = [];
  kex = record kex_new {
    type = dh_group_14;
    cipher_type_cts = aes128_ctr;
    cipher_type_stc = aes128_ctr;
    mac_type_cts = hmac_sha2_256;
    mac_type_stc = hmac_sha2_256;
  };
}

verify_signature-Verified_example :
    Verified primitives.hash_compute primitives.rsa_verify 0 host_key signature (1 ∷ [])
unfolding program
verify_signature-Verified_example =
    verify_signature-Verified primitives.hash_compute primitives.rsa_verify 0 eessh.Algorithms.rsa
      host_key signature (1 ∷ []) refl

dh_run-Authentic_example :
    Authentic toy heap primitives 4 0 identity (dh_run toy heap primitives 4 0 identity begun).1.kex
    × IsSetOnce toy heap primitives 4 0 identity
        (dh_run toy heap primitives 4 0 identity begun).1.kex.exchange_hash
        begun.session_id
        (dh_run toy heap primitives 4 0 identity begun).1.session_id
unfolding program
dh_run-Authentic_example =
    dh_run-Authentic toy heap primitives 4 0 identity begun
      (dh_run toy heap primitives 4 0 identity begun).1 refl

-- A client that does not know the server's key
abbrev doubtful : Identity
doubtful = record identity { checker = none }

read_reply_else_example :
    ((read_reply toy heap primitives 4 0 doubtful tt begun).1
      ≡ (Exchange.receive toy heap primitives 4 begun).1)
    ⊎ IsProven toy heap primitives 4 0 doubtful tt begun.kex
        (Exchange.receive toy heap primitives 4 begun).0
read_reply_else_example = read_reply_else toy heap primitives 4 0 doubtful tt begun

-- "diffie-hellman-group14-sha1", "aes128-ctr", "hmac-sha2-256"
abbrev kex_name : List ℕ
kex_name =
    100 ∷ 105 ∷ 102 ∷ 102 ∷ 105 ∷ 101 ∷ 45 ∷ 104 ∷ 101 ∷ 108 ∷ 108 ∷ 109 ∷ 97 ∷ 110 ∷ 45 ∷ 103 ∷ 114
    ∷ 111 ∷ 117 ∷ 112 ∷ 49 ∷ 52 ∷ 45 ∷ 115 ∷ 104 ∷ 97 ∷ 49 ∷ []

abbrev cipher_name : List ℕ
cipher_name = 97 ∷ 101 ∷ 115 ∷ 49 ∷ 50 ∷ 56 ∷ 45 ∷ 99 ∷ 116 ∷ 114 ∷ []

abbrev mac_name : List ℕ
mac_name = 104 ∷ 109 ∷ 97 ∷ 99 ∷ 45 ∷ 115 ∷ 104 ∷ 97 ∷ 50 ∷ 45 ∷ 50 ∷ 53 ∷ 54 ∷ []

abbrev strings : List (List ℕ) → List ℕ
strings [] = []
strings (x ∷ xs) = string_bytes x ++ strings xs

abbrev pub kexinit : List ℕ
kexinit =
    20
    ∷ (replicate 16 1
        ++ (strings (
              kex_name
              ∷ ssh_rsa
              ∷ cipher_name
              ∷ cipher_name
              ∷ mac_name
              ∷ mac_name
              ∷ (110 ∷ [])
              ∷ (110 ∷ [])
              ∷ []
              ∷ []
              ∷ [])
            ++ replicate 5 0))

abbrev opened : Exchange toy
unfolding program
opened = record {
  peer = record {
    input =
        init toy heap (chunk (framed kexinit) ∷ chunk (framed reply) ∷ chunk (framed newkeys) ∷ [])
          [];
    output = init toy heap [] (room 10000 ∷ room 10000 ∷ room 10000 ∷ []);
  };
  session_id = [];
  kex = kex_new;
}

run-Authentic_example :
    Authentic toy heap primitives 4 0 identity (run toy heap primitives 4 0 identity opened).1.kex
unfolding program
run-Authentic_example =
    run-Authentic toy heap primitives 4 0 identity opened
      (run toy heap primitives 4 0 identity opened).1 refl

kex_hash_lem_example :
    primitives.hash_compute begun.kex.hash_type (
      wire
        (parts toy heap primitives 4 0 identity begun.kex host_key (5 ∷ []) (4 ∷ []) (6 ∷ 4 ∷ [])))
    ≡ ok (replicate 32 62)
unfolding program begun
kex_hash_lem_example =
    kex_hash_lem toy heap primitives 4 0 identity begun.kex host_key (5 ∷ []) (4 ∷ []) (6 ∷ 4 ∷ [])
      (replicate 32 62)
      (
        omega arith,
        (
          omega arith,
          (
            omega arith,
            (omega arith, (omega arith, (omega arith, (omega arith, (omega arith, tt))))),
          ),
        ),
      )
      refl
