-- ===== src/Kex.antt =====
-- ssh/kex.c: key exchange. This file holds the negotiation of algorithms.
pub mod KeyGen
pub mod State
pub mod Exchange
pub mod Dh
pub mod Run
pub mod Names
pub mod Negotiation
use eessh.Prelude.{
  ℕ, zero, suc, List, [], ◌∷◌, Bool, true, false, ◌&&◌, Option, none, some, if◌then◌else◌, length,
  Result, ok, fail, no_shared_algorithms, Act, same_bytes, ◌>>=◌, ◌>>◌, lift,
}
use eessh.Reader.{Reader, reader_of_string, rewind, read_string, read_until}

abbrev pub comma : ℕ
comma = 44

abbrev pub search_name :
    Result (List ℕ) → List ℕ → Bool → Reader → Option Bool × Reader → Option Bool × Reader
search_name (fail e) client_algo first server later = (none, server)
search_name (ok []) client_algo first server later = (none, server)
search_name (ok (y ∷ ys)) client_algo first server later =
    if same_bytes client_algo (y ∷ ys) then (some first, server) else later

-- The inner loop of choose_algo: is the client's name in the server's list, and if so, is it the
-- first there? Each turn takes a byte at least, so the bytes that are left are fuel enough.
unfoldable pub search_server : ℕ → List ℕ → Bool → Reader → Option Bool × Reader
search_server zero client_algo first server = (none, server)
search_server (suc fuel) client_algo first server =
    let (server_algo, server') = read_until comma server in
    let later = search_server fuel client_algo false server' in
    search_name server_algo client_algo first server' later

abbrev pub with_found :
    Option Bool → List ℕ → Bool → Result (List ℕ × Bool) → Result (List ℕ × Bool)
with_found none client_algo first later = later
with_found (some servers_first) client_algo first later = ok (client_algo, first && servers_first)

abbrev pub try_name :
    Result (List ℕ) → Bool → Reader → (Reader → Result (List ℕ × Bool)) → Result (List ℕ × Bool)
try_name (fail e) first server later = fail no_shared_algorithms
try_name (ok []) first server later = fail no_shared_algorithms
try_name (ok (x ∷ xs)) first server later =
    let (found, server') =
      search_server (suc (length server.bytes)) (x ∷ xs) true (rewind server) in
    with_found found (x ∷ xs) first (later server')

-- The outer loop: the client's names in order. The result is the name, and whether it is the
-- first of both lists.
unfoldable pub search_client : ℕ → Bool → Reader → Reader → Result (List ℕ × Bool)
search_client zero first client server = fail no_shared_algorithms
search_client (suc fuel) first client server =
    let (client_algo, client') = read_until comma client in
    try_name client_algo first server (search_client fuel false client')

-- What choose_algo does with the two lists, once it has read them.
unfoldable pub choose_from : List ℕ → List ℕ → Result (List ℕ × Bool)
choose_from client_algos server_algos =
    search_client (suc (length client_algos)) true (reader_of_string client_algos)
      (reader_of_string server_algos)

abbrev pub on_client : {A : Type 0} → Act Reader A → Act (Reader × Reader) A
on_client m (c, s) = let (r, c') = m c in (r, (c', s))

abbrev pub on_server : {A : Type 0} → Act Reader A → Act (Reader × Reader) A
on_server m (c, s) = let (r, s') = m s in (r, (c, s'))

unfoldable pub choose_algo : Act (Reader × Reader) (List ℕ × Bool)
unfolding ◌>>=◌
choose_algo = do
  client_algos ← on_client read_string
  server_algos ← on_server read_string
  lift (choose_from client_algos server_algos)
