-- ===== src/Message.antt =====
-- How the client builds a packet: ssh_conn_new_packet, a chain of ssh_buf_write calls joined by
-- `||`, and ssh_conn_send_packet (ssh/connection.c). The chain is a list of fields here.
use eessh.Prelude.{
  ℕ, ◌<◌, refl, List, [], ◌∷◌, ◌++◌, length, append-nil, sym, Act, pure, ◌>>=◌, ◌>>◌, All,
}
use eessh.Buffer.{Buffer, Allocator, size_mod, contents, write_u8, write_u32, write_data}
use eessh.Buffer.Writes.{
  u32_bytes, string_bytes, Writes, Writes-then, write_u8-Writes, write_u32-Writes,
  write_data-Writes,
}
use eessh.Stream.{Crypto, Stream, new_packet, send_packet, on_pack}

-- ssh_buf_write_u8, ssh_buf_write_u32, and ssh_buf_write_string or ssh_buf_write_cstring
pub data Field : Type 0 where
  byte : ℕ → Field
  word : ℕ → Field
  text : List ℕ → Field

unfoldable pub write_field : Allocator → Field → Act Buffer Unit
write_field a (byte v) = write_u8 a v
write_field a (word v) = write_u32 a v
write_field a (text xs) = write_data a xs

unfoldable pub write_fields : Allocator → List Field → Act Buffer Unit
unfolding ◌>>=◌
write_fields a [] = pure tt
write_fields a (f ∷ fs) = write_field a f >> write_fields a fs

abbrev pub field_bytes : Field → List ℕ
field_bytes (byte v) = v ∷ []
field_bytes (word v) = u32_bytes v
field_bytes (text xs) = string_bytes xs

abbrev pub payload : List Field → List ℕ
payload [] = []
payload (f ∷ fs) = field_bytes f ++ payload fs

abbrev pub HasSize : Field → Type 0
HasSize (byte v) = Unit
HasSize (word v) = Unit
HasSize (text xs) = length xs < size_mod

write_field-Writes :
    (a : Allocator) (f : Field) → HasSize f → Writes a (field_bytes f) (write_field a f)
unfolding write_field
write_field-Writes a (byte v) h = write_u8-Writes a v
write_field-Writes a (word v) h = write_u32-Writes a v
write_field-Writes a (text xs) h = write_data-Writes a xs h

pub pure-Writes : (a : Allocator) → Writes a [] (pure tt)
pure-Writes a = record {
  step = λ b v. record { valid = v; appends = λ _. sym (append-nil (contents b)) };
  succeeds = λ b v room. refl;
}

-- A chain of writes appends its fields in order, or fails; with ample memory it succeeds.
pub write_fields-Writes :
    (a : Allocator) (fs : List Field) → All HasSize fs → Writes a (payload fs) (write_fields a fs)
unfolding write_fields
write_fields-Writes a [] h = pure-Writes a
write_fields-Writes a (f ∷ fs) h =
    Writes-then a (write_field-Writes a f h.0) (write_fields-Writes a fs h.1)

-- new packet, fields, send
unfoldable pub send_message : (k : Crypto) → Allocator → List Field → Act (Stream k) Unit
unfolding ◌>>=◌
send_message k a fs = do new_packet k a; on_pack k a (write_fields a fs); send_packet k a
