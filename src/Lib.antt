-- ===== src/Lib.antt =====
-- eessh, an SSH client: a model of its buffers, packet stream, negotiation and channels.
--
-- The program. `common/buffer.c` holds byte buffers and cursors over bytes; every message is
-- written into a buffer and read with a cursor. `common/network.c` moves bytes through a socket.
-- `ssh/stream.c` makes packets of messages (padding, encryption, MAC, sequence number) and takes
-- them apart; a connection has one stream for each direction. `ssh/version_string.c` and
-- `ssh/kex.c` start a connection: the version strings, then the negotiation of algorithms over the
-- tables in `ssh/cipher.c`, `ssh/mac.c`, `ssh/hash.c`, `ssh/pubkey.c`. `ssh/channel.c` runs the
-- channels of a connection over its streams. `main/main.c` and `main/session.c` are the program for
-- the command line: they check the server's identity against the file of `common/host_key_store.c`,
-- and join the terminal to a channel.
--
-- The files. Prelude: numbers, lists, and actions, functions on a structure that may return -1
-- (the structure stands beside the error, since what was written before stays written).
-- Buffer (`struct SSH_BUFFER`): ssh_buf_grow, ssh_buf_write_*, ssh_buf_append_*,
-- ssh_buf_remove_data. The contents are a prefix of the allocation; what the allocation holds
-- behind them is the allocator's junk. Buffer/Strings: ssh_str_dup_string, ssh_str_cmp_data.
-- Reader (`struct SSH_BUF_READER`): ssh_buf_read_*. A string that is read is the slice of bytes
-- that the source points to.
-- Network: ssh_net_read, ssh_net_write, over a list of the kernel's answers; Network/Connect:
-- ssh_net_connect, ssh_net_set_sock_blocking.
-- Stream and Stream/Receive (`struct SSH_STREAM`): ssh_stream_send_packet, finish_packet,
-- ssh_stream_send_flush, stream_recv_fill_buffer, verify_read_packet, ssh_stream_recv_packet.
-- Message: the chains of writes between ssh_conn_new_packet and ssh_conn_send_packet.
-- Algorithms: the tables, *_get_by_name_n, *_get_supported_algos, the lookups by type.
-- Kex: choose_algo; Kex/KeyGen: gen_key; Kex/Exchange: kex_send_init_msg, kex_recv_init_msg,
-- ssh_kex_finish, kex_generate_keys; Kex/Dh (`ssh/kex_dh.c`): dh_kex_read_reply, ssh_kex_dh_run;
-- Kex/Run: kex_start, ssh_kex_run. Pubkey: ssh_pubkey_verify_signature. Mac
-- (`ssh/mac.c`): ssh_mac_new, ssh_mac_compute. Stream/Keys:
-- ssh_stream_set_cipher, ssh_stream_set_mac. Version: get_version_line, read_line, parse_line,
-- ssh_version_string_build.
-- Channel (`struct SSH_CHAN`): the windows, ssh_chan_send_data, ssh_chan_send_ext_data;
-- Channel/Watch: ssh_chan_watch_fd; Channel/Dispatch: the channels of a connection and
-- chan_process_packets; Channel/Loop: chan_loop, ssh_chan_run_connection. Connection:
-- ssh_conn_recv_packet_skip_ignore;
-- Connection/Open: conn_setup, conn_connect, ssh_conn_open. Session:
-- `ssh/channel_session.c`. Userauth: ssh_userauth_run. Base64: ssh_base64_encode. Constants:
-- `ssh/ssh_constants.h`. HostKeys: ssh_host_key_store_add, ssh_host_key_store_check_server.
-- Program (`main/main.c`): check_server_identity, get_cmdline_username_server. Terminal
-- (`main/session.c`): read_stdin, write_out_buffer, sess_process_fd on standard input;
-- Terminal/Callbacks: the other callbacks of the session's channel.
-- The files below these prove what is listed at the end; Tests has runs and examples.
--
-- Machine numbers. `size_t` sums are taken modulo 2 ^ 64 and the overflow checks of the source are
-- kept; `uint32_t` and `uint8_t` wrap where the source lets them. A byte is a number below 256.
--
-- Fuel. HostKeys.chunks gets the size of the file and one more: a line is not empty.
-- Loops over bytes get the number of bytes that are left, and one more: each turn takes one
-- byte at least (Reader.scan, Kex.search_client, Kex.search_server, Version.find_version_line).
-- Kex.KeyGen.more_blocks gets the length of the key: a digest is not empty.
-- Version.read_line, Channel.Dispatch.process_packets and Connection.receive_skip_ignore run as
-- long as a socket delivers, and take the number of turns as an argument. Channel.Dispatch.free_num
-- takes fuel for the search of a number, one more than the channels, squared: a number that is
-- taken costs one pass (Channel/Number). Channel.Loop.loop takes a list of what `poll` answers.
--
-- Not modelled. The cipher, the MAC and the random generator (OpenSSL) are parameters of a stream,
-- and so are the hash, RSA, Diffie-Hellman and the constructors of ciphers and MACs for an exchange,
-- the allocator's answers are a parameter of a buffer, and the callbacks of a client are a
-- parameter of the dispatch; what `fopen`, `ferror` and `rename` answer is a
-- parameter of HostKeys, with what `fclose` leaves of a new file when it cannot write out its buffer.
-- What stands where ssh_base64_encode writes past its allocation is a parameter of the allocator; the
-- theorems on the file of keys are about keys whose text stays inside. What `read` and `write`
-- answer on the terminal is an argument of Terminal. The start-up in `main`, the terminal's modes, and
-- output for the user and for debugging are left out.
pub mod Prelude
pub mod Algorithms
pub mod Base64
pub mod Buffer
pub mod Channel
pub mod Connection
pub mod Constants
pub mod HostKeys
pub mod Kex
pub mod Mac
pub mod Message
pub mod Network
pub mod Program
pub mod Pubkey
pub mod Reader
pub mod Session
pub mod Stream
pub mod Terminal
pub mod Tests
pub mod Userauth
pub mod Version
