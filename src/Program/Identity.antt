-- ===== src/Program/Identity.antt =====
-- A server that was accepted once is the only one that is accepted under its name.
use eessh.Prelude.{
  ℕ, ◌<◌, ◌%◌, ◌≡◌, true, ◌≢◌, refl, sym, ◌∙◌, ap, List, ◌⊎◌, inl, inr, false, Error, ok, fail,
  io_error, bad_identity_error, out_of_memory, All, length, subst, ◌≤◌, ◌-◌,
}
use eessh.Buffer.{Allocator}
use eessh.Base64.{encode}
use eessh.Base64.Decode.{IsByte, encode-ne}
use eessh.Reader.{reader_of_string, read_string}
use eessh.HostKeys.{
  HostData, encoded_text, StoreFile, present, not_found, bad_identity, other_error, FileSystem, add,
  check_server, host_data_create, is_comment, key_line, max_line_size,
}
use eessh.HostKeys.Tokens.{IsEntry, IsWord}
use eessh.HostKeys.Entry.{encode-IsWord}
use eessh.HostKeys.Store.{check_server-add, add-Added}
use eessh.HostKeys.Mismatch.{encoded-inside, host_data_create-with_key, check_server-add_mismatch}
use eessh.Program.{settle, check_server_identity}

-- What a file of keys makes of a host, when it can be read: its key is accepted, any other key of
-- the same type whose text stays inside its allocation is refused, and the file stays.
pub record Pinned (a : Allocator) (hostname key : List ℕ) (file : StoreFile) : Type 0 where
  pub accepted :
      (fs fs' : FileSystem)
      → fs.read_fails ≡ false
      → check_server_identity a fs fs' hostname key file ≡ (ok tt, file)
  pub refused :
      (fs fs' : FileSystem) (key' : List ℕ)
      → fs.read_fails ≡ false
      → All IsByte key'
      → length key' % 3 ≡ 0
      → key ≢ key'
      → (read_string (reader_of_string key')).0 ≡ (read_string (reader_of_string key)).0
      → (e : Error) × (check_server_identity a fs fs' hostname key' file ≡ (fail e, file))

-- What a line of the file needs, beside a key in Base64
pub record HasName (d : HostData) : Type 0 where
  pub host : IsWord d.hostname
  pub plain : is_comment d.hostname ≡ false
  pub type : IsWord d.key_type
  pub short : length (key_line d) ≤ max_line_size - 1

module _ (a : Allocator) where
  by_status :
      (fs fs' : FileSystem) (hostname key : List ℕ) (file : StoreFile) {status : _}
      → check_server a fs hostname key file ≡ status
      → check_server_identity a fs fs' hostname key file ≡ settle a fs fs' hostname key file status
  unfolding check_server_identity
  by_status fs fs' hostname key file e = ap (settle a fs fs' hostname key file) e

  -- Without memory the search is an error too.
  no_data :
      (fs : FileSystem) (hostname key : List ℕ) (new : StoreFile) {bytes : List ℕ}
      → new ≡ present bytes
      → host_data_create a hostname key ≡ fail out_of_memory
      → check_server a fs hostname key new ≡ other_error
  unfolding check_server
  no_data fs hostname key new e h = rw (e, h) refl

  module _ (hostname key : List ℕ) (d : HostData) (made : host_data_create a hostname key ≡ ok d)
      (bytes : All IsByte key) (some_byte : 0 < length key) (inside : length key % 3 ≡ 0)
      (named : HasName d) where
    encoded : d.host_key ≡ encode key
    encoded =
        (host_data_create-with_key a hostname key key made refl).0 ∙ encoded-inside a key inside

    entry : IsEntry d
    entry = record {
      host = named.host;
      plain = named.plain;
      type = named.type;
      key = subst IsWord (sym encoded) (encode-IsWord key bytes some_byte);
      short = named.short;
    }

    other_key :
        (fs fs' : FileSystem) (key' : List ℕ) (old new : StoreFile)
        → fs'.flushes ≡ true
        → add a fs' hostname key old ≡ (ok tt, new)
        → fs.read_fails ≡ false
        → All IsByte key'
        → length key' % 3 ≡ 0
        → key ≢ key'
        → (read_string (reader_of_string key')).0 ≡ (read_string (reader_of_string key)).0
        → (check_server a fs hostname key' new ≡ bad_identity)
          ⊎ (check_server a fs hostname key' new ≡ other_error)
    other_key fs fs' key' old new w h r b l n t =
        elim ((host_data_create-with_key a hostname key key' made t).1) [
          | inr refused ↦ inr (
              no_data fs hostname key' new (add-Added a fs' hostname key old d made entry w h).file
                refused)
          | inl granted ↦ inl (
              check_server-add_mismatch a fs' fs hostname key key' (encoded_text a key') old new d
                made entry granted
                (λ e.
                  encode-ne key key' bytes b n (sym (sym (encoded-inside a key' l) ∙ e ∙ encoded)))
                w h r)
        ]

    added-Pinned :
        (fs' : FileSystem) (old new : StoreFile)
        → fs'.flushes ≡ true
        → add a fs' hostname key old ≡ (ok tt, new)
        → Pinned a hostname key new
    added-Pinned fs' old new w h = record {
      accepted = λ fs fs'' r.
          by_status fs fs'' hostname key new
            (check_server-add a fs' fs hostname key old new d inside made entry w h r);
      refused = λ fs fs'' key' r b l n t. elim (other_key fs fs' key' old new w h r b l n t) [
        | inl e ↦ (bad_identity_error, by_status fs fs'' hostname key' new e)
        | inr e ↦ (io_error, by_status fs fs'' hostname key' new e)
      ];
    }

    -- Trust on first use: a server whose name and type of key the file does not have is accepted,
    -- and when its key could be saved and `fclose` has written out the whole new file, then
    -- check_server_identity, as long as this file is not changed and can be read, accepts this key
    -- under the name, refuses any other key of the same type, and leaves the file as it is. The name
    -- and the type are words that fit into a line with the key, keys consist of bytes, the length of
    -- each key is a multiple of three, so that its text stays inside its allocation, and memory is
    -- granted for the first call.
    pub identity-Pinned :
        (fs fs' : FileSystem) (file : StoreFile)
        → check_server a fs hostname key file ≡ not_found
        → fs'.flushes ≡ true
        → (add a fs' hostname key file).0 ≡ ok tt
        → ((check_server_identity a fs fs' hostname key file).0 ≡ ok tt)
          × Pinned a hostname key (check_server_identity a fs fs' hostname key file).1
    identity-Pinned fs fs' file unknown w saved = rw (by_status fs fs' hostname key file unknown) (
      refl,
      added-Pinned fs' file (add a fs' hostname key file).1 w
          (λ i. (saved i, (add a fs' hostname key file).1)),
    )
