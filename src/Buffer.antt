-- ===== src/Buffer.antt =====
-- common/buffer.c, struct SSH_BUFFER: a growing byte buffer, as an allocation with a fill level.
-- Functions that return -1 are actions on the buffer. The proofs are in the modules below.
pub mod Strings
pub mod Valid
pub mod Writes
pub mod Remove
use eessh.Prelude.{
  ℕ, ◌+◌, ◌-◌, ◌*◌, ◌/◌, ◌%◌, ◌^◌, List, [], ◌∷◌, ◌++◌, Bool, ltb, leb, if◌then◌else◌, length, take,
  drop, replicate, blit, Result, ok, fail, too_large, out_of_memory, bad_remove, Act, pure, raise,
  lift, gets, modify, ◌>>=◌, ◌>>◌, ◌==◌,
}

-- `size_t` is taken to have 64 bits.
abbrev pub size_mod : ℕ
size_mod = 2 ^ 64

abbrev pub add_size : ℕ → ℕ → ℕ
add_size a b = (a + b) % size_mod

abbrev pub sub_size : ℕ → ℕ → ℕ
sub_size a b = (a + size_mod - b) % size_mod

unfoldable pub checked_add : ℕ → ℕ → Result ℕ
checked_add a b = if ltb (add_size a b) a then fail too_large else ok (add_size a b)

-- `data` points to the allocation `mem` of `cap` bytes; the first `len` of them are in use.
pub record Buffer : Type 0 where
  pub mem : List ℕ
  pub cap : ℕ
  pub len : ℕ

-- The allocator: the sizes that `realloc` grants, what it leaves in a byte that is new,
-- and what stands where a text was written past its allocation.
pub record Allocator : Type 0 where
  pub grants : ℕ → Bool
  pub junk : ℕ
  pub overrun : List ℕ → List ℕ

unfoldable pub realloc : Allocator → List ℕ → ℕ → Result (List ℕ)
realloc a mem size =
    if a.grants size
    then ok (take size mem ++ replicate (size - length mem) a.junk)
    else fail out_of_memory

abbrev pub new : Buffer
new = record { mem = []; cap = 0; len = 0 }

abbrev pub new_from_data : List ℕ → Buffer
new_from_data bytes = record { mem = bytes; cap = length bytes; len = length bytes }

-- The bytes in use: what callers reach through `data` and `len`.
abbrev pub contents : Buffer → List ℕ
contents b = take b.len b.mem

abbrev pub grow_size : ℕ
grow_size = 256

unfoldable pub clear : Buffer → Buffer
clear b = record b { len = 0 }

-- buf->data[buf->len++] = val
unfoldable pub push : ℕ → Buffer → Buffer
push val b = record b { mem = blit b.mem b.len (val ∷ []); len = add_size b.len 1 }

module _ (a : Allocator) where
  -- The end of ssh_buf_grow: the allocation moves to a multiple of 256 bytes above `wanted`.
  unfoldable pub reallocate : ℕ → Act Buffer Unit
  unfolding ◌>>=◌
  reallocate wanted = do
    rounded ← lift (checked_add wanted (grow_size + 1))
    let new_cap = rounded / grow_size * grow_size
    mem ← gets (λ b. b.mem)
    new_mem ← lift (realloc a mem new_cap)
    modify (λ b. record b { mem = new_mem; cap = new_cap })

  -- ssh_buf_grow
  unfoldable pub grow : ℕ → Act Buffer Unit
  unfolding ◌>>=◌
  grow add_len = do
    len ← gets (λ b. b.len)
    wanted ← lift (checked_add len add_len)
    cap ← gets (λ b. b.cap)
    if leb wanted cap then pure tt else reallocate wanted

  unfoldable pub ensure_size : ℕ → Act Buffer Unit
  ensure_size new_len b = if leb new_len b.cap then pure tt b else grow (sub_size new_len b.len) b

  -- ssh_buf_get_write_pointer: room for `n` more bytes, and the index that they start at. Without an
  -- allocation, which is left so only for no bytes, the result is NULL, which is an error for every
  -- caller.
  unfoldable pub get_write_pointer : ℕ → Act Buffer ℕ
  unfolding ◌>>=◌
  get_write_pointer n = do
    grow n
    start ← gets (λ b. b.len)
    cap ← gets (λ b. b.cap)
    modify (λ b. record b { len = add_size b.len n })
    if cap == 0 then raise out_of_memory else pure start

  unfoldable pub write_u8 : ℕ → Act Buffer Unit
  unfolding ◌>>=◌
  write_u8 val = do grow 1; modify (push val)

  -- The four stores convert `val >> k` to `uint8_t`.
  unfoldable pub write_u32 : ℕ → Act Buffer Unit
  unfolding ◌>>=◌
  write_u32 val = do
    grow 4
    modify (push (val / 2 ^ 24 % 256))
    modify (push (val / 2 ^ 16 % 256))
    modify (push (val / 2 ^ 8 % 256))
    modify (push (val % 256))

  -- memcpy to the write pointer
  unfoldable pub append_data : List ℕ → Act Buffer Unit
  unfolding ◌>>=◌
  append_data bytes = do
    start ← get_write_pointer (length bytes)
    modify (λ b. record b { mem = blit b.mem start bytes })

  -- The length goes through a `uint32_t` parameter.
  unfoldable pub write_data : List ℕ → Act Buffer Unit
  unfolding ◌>>=◌
  write_data bytes = do
    write_u32 (length bytes % 2 ^ 32)
    start ← get_write_pointer (length bytes)
    modify (λ b. record b { mem = blit b.mem start bytes })

  unfoldable pub write_buffer : Buffer → Act Buffer Unit
  write_buffer val = write_data (contents val)

  unfoldable pub append_buffer : Buffer → Act Buffer Unit
  append_buffer val = append_data (contents val)

-- The bytes `from .. from + n` move down to `to`: memmove inside the region.
unfoldable pub move_down : List ℕ → ℕ → ℕ → ℕ → List ℕ
move_down mem to from n = blit mem to (take n (drop from mem))

unfoldable pub remove_data : ℕ → ℕ → Act Buffer Unit
remove_data offset n b = elim (checked_add offset n) [
  | fail _ ↦ (fail bad_remove, b)
  | ok end ↦ if ltb b.len end then (fail bad_remove, b) else (
    ok tt,
    record b {
      mem = if ltb end b.len then move_down b.mem offset end (b.len - end) else b.mem;
      len = sub_size b.len n;
    },
  )
]
