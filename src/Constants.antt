-- ===== src/Constants.antt =====
-- ssh/ssh_constants.h: the numbers of the messages.
use eessh.Prelude.{ℕ}

abbrev pub msg_disconnect : ℕ
msg_disconnect = 1

abbrev pub msg_ignore : ℕ
msg_ignore = 2

abbrev pub msg_unimplemented : ℕ
msg_unimplemented = 3

abbrev pub msg_debug : ℕ
msg_debug = 4

abbrev pub msg_service_request : ℕ
msg_service_request = 5

abbrev pub msg_service_accept : ℕ
msg_service_accept = 6

abbrev pub msg_kexinit : ℕ
msg_kexinit = 20

abbrev pub msg_newkeys : ℕ
msg_newkeys = 21

abbrev pub msg_kexdh_init : ℕ
msg_kexdh_init = 30

abbrev pub msg_kexdh_reply : ℕ
msg_kexdh_reply = 31

abbrev pub msg_userauth_request : ℕ
msg_userauth_request = 50

abbrev pub msg_userauth_failure : ℕ
msg_userauth_failure = 51

abbrev pub msg_userauth_success : ℕ
msg_userauth_success = 52

abbrev pub msg_global_request : ℕ
msg_global_request = 80

abbrev pub msg_request_failure : ℕ
msg_request_failure = 82

abbrev pub msg_channel_open : ℕ
msg_channel_open = 90

abbrev pub msg_channel_open_confirmation : ℕ
msg_channel_open_confirmation = 91

abbrev pub msg_channel_open_failure : ℕ
msg_channel_open_failure = 92

abbrev pub msg_channel_window_adjust : ℕ
msg_channel_window_adjust = 93

abbrev pub msg_channel_data : ℕ
msg_channel_data = 94

abbrev pub msg_channel_extended_data : ℕ
msg_channel_extended_data = 95

abbrev pub msg_channel_eof : ℕ
msg_channel_eof = 96

abbrev pub msg_channel_close : ℕ
msg_channel_close = 97

abbrev pub msg_channel_request : ℕ
msg_channel_request = 98

abbrev pub msg_channel_success : ℕ
msg_channel_success = 99
