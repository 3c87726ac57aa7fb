-- ===== src/Reader.antt =====
-- common/buffer.c, struct SSH_BUF_READER: a cursor over bytes that belong to someone else. A
-- function that returns -1 is an action on the reader; what it stores through a pointer that may
-- be NULL is its result here. A string that it hands out is a slice of the bytes.
pub mod Rest
pub mod Until
pub mod RoundTrip
use eessh.Prelude.{
  ℕ, zero, suc, ◌+◌, ◌-◌, ◌*◌, ◌^◌, List, Bool, not, ◌&&◌, ltb, ◌==◌, if◌then◌else◌, get_or, take,
  drop, length, Result, ok, fail, read_too_large, past_end, bad_seek, Act, Status, pure, raise,
  lift, gets, modify, ◌>>=◌, ◌>>◌,
}
use eessh.Buffer.{Buffer, add_size, sub_size, checked_add}

pub record Reader : Type 0 where
  pub bytes : List ℕ
  pub pos : ℕ
  pub len : ℕ

-- ssh_buf_reader_new; over a string, `len` is the string's length
abbrev pub reader_new : List ℕ → ℕ → Reader
reader_new bytes len = record { bytes = bytes; pos = 0; len = len }

abbrev pub reader_of_string : List ℕ → Reader
reader_of_string str = reader_new str (length str)

abbrev pub reader_of_buffer : Buffer → Reader
reader_of_buffer b = reader_new b.mem b.len

unfoldable pub check_advance : ℕ → ℕ → ℕ → Status
check_advance pos adv len = elim (checked_add pos adv) [
  | fail _ ↦ fail read_too_large
  | ok new_pos ↦ if ltb len new_pos then fail past_end else ok tt
]

abbrev pub advance : ℕ → Reader → Reader
advance n r = record r { pos = add_size r.pos n }

unfoldable pub rewind : Reader → Reader
rewind r = record r { pos = 0 }

unfoldable pub seek : ℕ → Act Reader Unit
seek new_pos r =
    if ltb r.len new_pos then (fail bad_seek, r) else (ok tt, record r { pos = new_pos })

unfoldable pub check : ℕ → Act Reader Unit
check n r = (check_advance r.pos n r.len, r)

unfoldable pub read_skip : ℕ → Act Reader Unit
unfolding ◌>>=◌
read_skip n = do check n; modify (advance n)

unfoldable pub read_u8 : Act Reader ℕ
unfolding ◌>>=◌
read_u8 = do check 1; val ← gets (λ r. get_or r.bytes r.pos 0); modify (advance 1); pure val

-- The four bytes are joined by `|` after shifts that keep them apart, which is their sum.
abbrev pub u32_of : ℕ → ℕ → ℕ → ℕ → ℕ
u32_of w x y z = w * 2 ^ 24 + x * 2 ^ 16 + y * 2 ^ 8 + z

-- ssh_buf_get_u32
unfoldable pub get_u32 : List ℕ → ℕ → ℕ
get_u32 bytes at =
    u32_of (get_or bytes at 0) (get_or bytes (at + 1) 0) (get_or bytes (at + 2) 0)
      (get_or bytes (at + 3) 0)

unfoldable pub read_u32 : Act Reader ℕ
unfolding ◌>>=◌
read_u32 = do check 4; val ← gets (λ r. get_u32 r.bytes r.pos); modify (advance 4); pure val

unfoldable pub read_string : Act Reader (List ℕ)
unfolding ◌>>=◌
read_string = do
  len ← read_u32
  check len
  str ← gets (λ r. take len (drop r.pos r.bytes))
  modify (advance len)
  pure str

-- The loop of ssh_buf_read_until, on the bytes that are left as fuel.
unfoldable pub scan : ℕ → ℕ → Reader → Reader
scan zero sentinel r = r
scan (suc fuel) sentinel r =
    let next = scan fuel sentinel (advance 1 r) in
    if ltb r.pos r.len && not (get_or r.bytes r.pos 0 == sentinel) then next else r

unfoldable pub read_until : ℕ → Act Reader (List ℕ)
read_until sentinel r =
    let stop = scan (r.len - r.pos) sentinel r in
    (
      ok (take (sub_size stop.pos r.pos) (drop r.pos r.bytes)),
      if ltb stop.pos stop.len then advance 1 stop else stop,
    )
