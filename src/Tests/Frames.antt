-- ===== src/Tests/Frames.antt =====
-- A packet of ssh/stream.c from one stream to another, with a toy cipher and a toy MAC.
use eessh.Prelude.{
  ℕ, zero, suc, ◌+◌, ◌-◌, ◌≤◌, ◌≡◌, refl, ◌∙◌, ap, ap₂, subst, sym, List, [], ◌∷◌, ◌++◌, take, drop,
  length, length-take, length-replicate, replicate, Bool, true, false, some, ok, ok_injective, inl,
  arith, ◌>>=◌, ◌>>◌,
}
use eessh.Buffer.{
  Allocator, contents, checked_add, realloc, reallocate, grow, push, clear, write_u8, write_u32,
  get_write_pointer, append_data, write_data,
}
use eessh.Buffer.Valid.{IsValid, new-IsValid, Ample}
use eessh.Message.{byte, text, write_field, write_fields}
use eessh.Network.{ReadEvent, chunk}
use eessh.Stream.{
  Crypto, Stream, max_packet_len, init, on_pack, calc_pad_len, new_packet, pad_packet, emit_packet,
  emit_mac, finish_packet,
}
use eessh.Stream.Receive.{recv_packet}
use eessh.Stream.Frame.{packet, filler_of, IsGenerous}
use eessh.Stream.Emit.{IsSteady, HasLength, Framed, finish_packet-Framed}
use eessh.Stream.Intake.{Leads}
use eessh.Stream.Fill.{IsIdle}
use eessh.Stream.RoundTrip.{Undoes, IsCipher, InStep, Delivered, recv_packet-finish_packet}

program : Unit {0}
unfolding ◌>>=◌ clear checked_add realloc reallocate grow push write_u8 write_u32 get_write_pointer
    append_data write_data write_field write_fields init calc_pad_len new_packet pad_packet
    emit_packet emit_mac finish_packet
program = tt

abbrev heap : Allocator
heap = record { grants = λ _. true; junk = 0; overrun = λ xs. xs }

-- One end adds one to each byte, the other takes it off.
abbrev shift : Bool → List ℕ → List ℕ
shift up [] = []
shift true (x ∷ xs) = suc x ∷ shift true xs
shift false (x ∷ xs) = (x - 1) ∷ shift false xs

length-shift : (up : Bool) (xs : List ℕ) → length (shift up xs) ≡ length xs
length-shift up [] = refl
length-shift true (x ∷ xs) = ap suc (length-shift true xs)
length-shift false (x ∷ xs) = ap suc (length-shift false xs)

shift_back : (xs : List ℕ) → shift false (shift true xs) ≡ xs
shift_back [] = refl
shift_back (x ∷ xs) = ap₂ (λ y ys. y ∷ ys) (omega arith) (shift_back xs)

shift-pieces :
    (n : ℕ) (xs : List ℕ) → shift true xs ≡ shift true (take n xs) ++ shift true (drop n xs)
shift-pieces zero xs = refl
shift-pieces (suc n) [] = refl
shift-pieces (suc n) (x ∷ xs) = ap (λ ys. suc x ∷ ys) (shift-pieces n xs)

abbrev toy : Crypto
toy = record {
  CipherCtx = Bool;
  crypt = λ up xs. (ok (shift up xs), up);
  MacCtx = Unit;
  mac_compute = λ _ seq xs. ok (seq ∷ length xs ∷ []);
  random = λ n. replicate n 3;
}

abbrev AreEnds : Bool → Bool → Type 0
AreEnds true false = Unit
AreEnds _ _ = ⊥

length-front : (n : ℕ) (xs : List ℕ) → n ≤ length xs → length (shift true (take n xs)) ≡ n
length-front n xs h = omega (arith, length-shift true (take n xs), length-take n xs)

toy-Undoes :
    (e e' d : Bool) (xs ys : List ℕ)
    → AreEnds e d
    → toy.crypt e xs ≡ (ok ys, e')
    → 8 ≤ length xs
    → Undoes toy 8 AreEnds xs ys e' d
toy-Undoes true e' true xs ys m h inside = absurd m
toy-Undoes false e' d xs ys m h inside = absurd m
toy-Undoes true e' false xs ys m h inside = record {
  first = shift true (take 8 xs);
  second = shift true (drop 8 xs);
  between = false;
  after = false;
  pieces = sym (ok_injective (λ i. (h i).0)) ∙ shift-pieces 8 xs;
  one_block = length-front 8 xs inside;
  front = ap (λ us. (ok us, false)) (shift_back (take 8 xs));
  rest = ap (λ us. (ok us, false)) (shift_back (drop 8 xs));
  matched = subst (λ c. AreEnds c false) (λ i. (h i).1) tt;
}

toy-IsCipher : IsCipher toy 8 AreEnds
toy-IsCipher = record {
  sized = inl refl;
  undoes = λ e e' d xs ys m h inside aligned. toy-Undoes e e' d xs ys m h inside;
}

toy-IsSteady : IsSteady toy heap
toy-IsSteady ctx xs ys h = ap length (sym (ok_injective h)) ∙ length-shift ctx xs

toy-IsIdle : IsIdle toy heap
toy-IsIdle ctx = refl

toy-IsGenerous : IsGenerous toy heap
toy-IsGenerous n = length-replicate n 3

heap-Ample : Ample heap (max_packet_len + 260)
heap-Ample = record { small = omega arith; granted = λ k h. refl }

-- Both ends with their settings
abbrev plain : List ReadEvent → Bool → Stream toy
unfolding program
plain arrivals up = record (init toy heap arrivals []) {
  cipher = some up;
  cipher_block_len = 8;
  mac = some tt;
  mac_len = 2;
}

-- A sender with a packet to finish
abbrev sender : Stream toy
unfolding program plain
sender =
    ((new_packet toy heap
        >> on_pack toy heap (write_fields heap (byte 5 ∷ text (115 ∷ 115 ∷ []) ∷ [])))
      (plain [] true)).1

abbrev body : List ℕ
body = 5 ∷ 0 ∷ 0 ∷ 0 ∷ 2 ∷ 115 ∷ 115 ∷ []

abbrev finished : Stream toy
unfolding program plain sender
finished = (finish_packet toy heap sender).1

abbrev frame : List ℕ
unfolding program plain sender finished
frame = contents finished.buf_enc

-- The receiver gets the frame in two chunks, and one byte more.
abbrev receiver : Stream toy
unfolding program plain frame
receiver =
    plain (chunk (take 5 frame) ∷ ReadEvent.interrupted ∷ chunk (drop 5 frame ++ 9 ∷ []) ∷ []) false

-- What goes over the wire
frame_lem : frame ≡ 1 ∷ 1 ∷ 1 ∷ 13 ∷ 5 ∷ 6 ∷ 1 ∷ 1 ∷ 1 ∷ 3 ∷ 116 ∷ 116 ∷ 4 ∷ 4 ∷ 4 ∷ 4 ∷ 0 ∷ 16 ∷ []
unfolding program plain sender finished frame
frame_lem = refl

sender-HasLength : HasLength toy heap sender
unfolding program plain sender
sender-HasLength key seq bytes tag h = ap length (sym (ok_injective h))

sender-IsValid : IsValid sender.pack
unfolding program plain sender
sender-IsValid = record { allocated = refl; within = omega arith; sized = omega arith }

finish_packet-Framed_example : Framed toy heap body sender finished
unfolding program plain sender finished
finish_packet-Framed_example =
    finish_packet-Framed toy heap toy-IsGenerous toy-IsSteady body sender finished sender-HasLength
      (omega arith) sender-IsValid
      (record { allocated = refl; within = omega arith; sized = omega arith }) refl (omega arith)
      refl

in_step : InStep toy heap AreEnds sender receiver
unfolding program plain sender frame receiver
in_step = record {
  same = refl;
  matched = (toy-IsCipher, tt);
  unmarked = λ e. absurd (cc e);
  tags = sender-HasLength;
  tag_small = omega arith;
  pack_valid = sender-IsValid;
  out_valid = new-IsValid;
  in_pack_valid = new-IsValid;
  in_valid = new-IsValid;
  in_enc_valid = new-IsValid;
  in_empty = refl;
  in_enc_empty = refl;
}

recv_packet-finish_packet_example :
    Leads toy heap
      (recv_packet toy heap)
      receiver
      (Delivered toy heap AreEnds (packet body (filler_of toy heap sender)) (9 ∷ []) finished)
unfolding program plain sender finished frame receiver
recv_packet-finish_packet_example =
    recv_packet-finish_packet toy heap AreEnds toy-IsGenerous toy-IsSteady toy-IsIdle heap-Ample
      body sender finished receiver frame (9 ∷ []) in_step refl (omega arith) refl refl
      (omega arith, (omega arith, tt)) refl
