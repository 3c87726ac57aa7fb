-- ===== src/Reader/RoundTrip.antt =====
-- A string that was written into a buffer is read back from it.
use eessh.Prelude.{
  ℕ, ◌+◌, ◌%◌, ◌^◌, ◌<◌, ◌≡◌, refl, sym, ◌∙◌, ap, List, ◌++◌, arith, length, drop, drop-append,
  take_of_length-le, ok, subst,
}
use eessh.Buffer.{Buffer, Allocator, add_size, contents, write_data}
use eessh.Buffer.Valid as Held
use eessh.Buffer.Writes.{
  u32_bytes, string_bytes, Wrote, write_data-Writes, length-contents, Wrote-len,
}
use eessh.Reader.{Reader, reader_of_buffer, read_string}
use eessh.Reader.Rest.{IsValid, rest, read_string_cons}

-- A reader over a buffer, with the cursor at an index.
abbrev pub reader_at : Buffer → ℕ → Reader
reader_at b at = record (reader_of_buffer b) { pos = at }

module _ (a : Allocator) (xs : List ℕ) {b b' : Buffer} where
  -- A string shorter than 2^32 bytes that ssh_buf_write_data has written is what
  -- ssh_buf_read_string reads at the place where it was written, and the cursor ends behind it.
  pub read_string-write_data :
      Held.IsValid b
      → length xs < 2 ^ 32
      → write_data a xs b ≡ (ok tt, b')
      → read_string (reader_at b' b.len) ≡ (ok xs, reader_at b' b'.len)
  read_string-write_data v h e = read_string_cons (length xs) xs valid h (omega arith) tail ∙ λ i. (
    ok (take_of_length-le (length xs) xs (omega arith) i),
    record (reader_of_buffer b') { pos = end i },
  )
    where
      wrote : Wrote (string_bytes xs) b (ok tt, b')
      wrote = subst (Wrote (string_bytes xs) b) e ((write_data-Writes a xs (omega arith)).step b v)

      small : length xs % 2 ^ 32 ≡ length xs
      small = omega (arith, h)

      len : b'.len ≡ b.len + (4 + length xs)
      len = Wrote-len v wrote refl ∙ omega arith

      valid : IsValid (reader_at b' b.len)
      valid = record {
        in_bytes = omega (arith, wrote.valid.within, wrote.valid.allocated);
        in_len = omega (arith, len);
        sized = omega (arith, wrote.valid.within, wrote.valid.sized);
      }

      tail : rest (reader_at b' b.len) ≡ u32_bytes (length xs) ++ xs
      tail =
          ap (drop b.len) (wrote.appends refl)
          ∙ drop-append b.len (contents b) (string_bytes xs) (sym (length-contents v))
          ∙ ap (λ n. u32_bytes n ++ xs) small

      end : add_size (add_size b.len 4) (length xs) ≡ b'.len
      end = omega (arith, len, wrote.valid.within, wrote.valid.sized)
