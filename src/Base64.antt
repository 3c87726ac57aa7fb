-- ===== src/Base64.antt =====
-- common/base64.c: the encoder, as the text it writes and the memory that it asks for.
pub mod Length
pub mod Decode
pub mod Alphabet
use eessh.Prelude.{ℕ, ◌+◌, ◌-◌, ◌*◌, ◌/◌, ◌%◌, List, [], ◌∷◌, ◌==◌, if◌then◌else◌, get_or}

abbrev pub base64_table : List ℕ
base64_table =
    65 ∷ 66 ∷ 67 ∷ 68 ∷ 69 ∷ 70 ∷ 71 ∷ 72 ∷ 73 ∷ 74 ∷ 75 ∷ 76 ∷ 77 ∷ 78 ∷ 79 ∷ 80 ∷ 81 ∷ 82 ∷ 83
    ∷ 84 ∷ 85 ∷ 86 ∷ 87 ∷ 88 ∷ 89 ∷ 90 ∷ 97 ∷ 98 ∷ 99 ∷ 100 ∷ 101 ∷ 102 ∷ 103 ∷ 104 ∷ 105 ∷ 106
    ∷ 107 ∷ 108 ∷ 109 ∷ 110 ∷ 111 ∷ 112 ∷ 113 ∷ 114 ∷ 115 ∷ 116 ∷ 117 ∷ 118 ∷ 119 ∷ 120 ∷ 121 ∷ 122
    ∷ 48 ∷ 49 ∷ 50 ∷ 51 ∷ 52 ∷ 53 ∷ 54 ∷ 55 ∷ 56 ∷ 57 ∷ 43 ∷ 47 ∷ []

abbrev pub char : ℕ → ℕ
char i = get_or base64_table i 0

-- The padding character
abbrev pub equals : ℕ
equals = 61

-- The six-bit groups of a byte and the next ones. The operands of `|` have no bit in common, so it
-- is their sum; `(b << 4) & 0x3f` is `b * 16 % 64`.
abbrev pub first_char : ℕ → ℕ
first_char x = char (x / 4)

abbrev pub second_char : ℕ → ℕ → ℕ
second_char x y = char (x * 16 % 64 + y / 16)

abbrev pub third_char : ℕ → ℕ → ℕ
third_char y z = char (y * 4 % 64 + z / 64)

-- ssh_base64_encode without the terminator: the loop over groups of three, then the switch on the
-- bytes that are left
unfoldable pub encode : List ℕ → List ℕ
encode [] = []
encode (x ∷ []) = first_char x ∷ second_char x 0 ∷ equals ∷ equals ∷ []
encode (x ∷ y ∷ []) = first_char x ∷ second_char x y ∷ third_char y 0 ∷ equals ∷ []
encode (x ∷ y ∷ z ∷ rest) =
    first_char x ∷ second_char x y ∷ third_char y z ∷ char (z % 64) ∷ encode rest

-- The size of the allocation
unfoldable pub allocated : ℕ → ℕ
allocated data_len = data_len / 3 * 4 + (if data_len % 3 == 0 then 0 else 3 - data_len % 3) + 1
