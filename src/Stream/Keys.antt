-- ===== src/Stream/Keys.antt =====
-- ssh/stream.c: ssh_stream_set_cipher and ssh_stream_set_mac, with the context that ssh_cipher_new
-- or ssh_mac_new has made.
use eessh.Prelude.{ℕ, Option, none, some, Result, ok, fail, bad_algorithm, Act, lift, modify, ◌>>=◌}
use eessh.Stream.{Crypto, Stream}
use eessh.Algorithms.{CipherType, MacType, cipher_get_block_len, mac_get_len}

-- A length from a table, or -1
abbrev pub len_of : Option ℕ → Result ℕ
len_of none = fail bad_algorithm
len_of (some n) = ok n

module _ (k : Crypto) where
  -- The old context is freed; if the new one could not be made, there is none.
  unfoldable pub set_cipher : CipherType → Result (k.CipherCtx) → Act (Stream k) Unit
  unfolding ◌>>=◌
  set_cipher type made = do
    block_len ← lift (len_of (cipher_get_block_len type))
    ctx ← (λ s. (made, record s { cipher = none }))
    modify (λ s. record s { cipher = some ctx; cipher_block_len = block_len })

  unfoldable pub set_mac : MacType → Result (k.MacCtx) → Act (Stream k) Unit
  unfolding ◌>>=◌
  set_mac type made = do
    mac_len ← lift (len_of (mac_get_len type))
    ctx ← (λ s. (made, record s { mac = none }))
    modify (λ s. record s { mac = some ctx; mac_len = mac_len })
