-- ===== src/Tests/Names.antt =====
-- Runs of ssh/kex.c, ssh/cipher.c, ssh/version_string.c and their like.
use eessh.Prelude.{
  leb, ◌==◌, ◌%◌, ℕ, ◌≡◌, ◌+◌, refl, List, [], ◌∷◌, true, false, some, ok, fail,
  no_shared_algorithms, arith, length, ◌>>=◌,
}
use eessh.Base64.{encode, allocated}
use eessh.Base64.Length.{encode-allocated}
use eessh.Buffer.{Buffer, Allocator, new_from_data}
use eessh.Reader.{read_until, scan, rewind}
use eessh.Algorithms.{get_by_name}
use eessh.Kex.{choose_from, search_client, search_server}
use eessh.Kex.Names.{names, agreed}
use eessh.Kex.Negotiation.{choose_from_lem}
use eessh.Version.{build, get_version_line, is_version_line, find_version_line, parse_line}
use eessh.Version.Lines.{Found, get_version_line-Found}
use eessh.Version.RoundTrip.{bare_line, two_zero, build_lem}

program : Unit {0}
unfolding ◌>>=◌ read_until scan rewind choose_from search_client search_server build
    get_version_line is_version_line find_version_line parse_line get_by_name
program = tt

-- "a,bc" and "d,bc,a"
abbrev client_names : List ℕ
client_names = 97 ∷ 44 ∷ 98 ∷ 99 ∷ []

abbrev server_names : List ℕ
server_names = 100 ∷ 44 ∷ 98 ∷ 99 ∷ 44 ∷ 97 ∷ []

chosen : choose_from client_names server_names ≡ ok (97 ∷ [], false)
unfolding program
chosen = refl

no_choice : choose_from (97 ∷ []) (98 ∷ []) ≡ fail no_shared_algorithms
unfolding program
no_choice = refl

choose_from_lem_example :
    choose_from client_names server_names ≡ agreed true (names client_names) (names server_names)
choose_from_lem_example = choose_from_lem client_names server_names (omega arith) (omega arith)

abbrev aes128_ctr_name : List ℕ
aes128_ctr_name = 97 ∷ 101 ∷ 115 ∷ 49 ∷ 50 ∷ 56 ∷ 45 ∷ 99 ∷ 116 ∷ 114 ∷ []

abbrev heap : Allocator
heap = record { grants = λ _. true; junk = 0; overrun = λ xs. xs }

abbrev old_list : Buffer
old_list = new_from_data (1 ∷ 2 ∷ [])

-- "hi\nSSH-2\nx"
abbrev greeting : List ℕ
greeting = 104 ∷ 105 ∷ 10 ∷ 83 ∷ 83 ∷ 72 ∷ 45 ∷ 50 ∷ 10 ∷ 120 ∷ []

greeting_line : get_version_line greeting ≡ (some (83 ∷ 83 ∷ 72 ∷ 45 ∷ 50 ∷ 10 ∷ []), 120 ∷ [])
unfolding program
greeting_line = refl

get_version_line-Found_example : Found greeting (get_version_line greeting)
get_version_line-Found_example = get_version_line-Found greeting

-- "eessh" and "--"
abbrev software : List ℕ
software = 101 ∷ 101 ∷ 115 ∷ 115 ∷ 104 ∷ []

abbrev comments : List ℕ
comments = 45 ∷ 45 ∷ []

build_lem_example :
    build software comments
    ≡ ok (record {
      buf = bare_line software comments;
      version = two_zero;
      software = software;
      comments = comments;
    })
build_lem_example = build_lem software comments (ground arith) (ground arith) (omega arith)

-- "hi" is encoded as "aGk="
encoded : encode (104 ∷ 105 ∷ []) ≡ 97 ∷ 71 ∷ 107 ∷ 61 ∷ []
unfolding encode
encoded = refl

encode-allocated_example : leb (length (encode (104 ∷ 105 ∷ [])) + 1) (allocated 2) ≡ (2 % 3 == 0)
encode-allocated_example = encode-allocated (104 ∷ 105 ∷ [])
