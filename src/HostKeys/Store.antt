-- ===== src/HostKeys/Store.antt =====
-- The promises of ssh_host_key_store_add and ssh_host_key_store_check_server to each other.
use eessh.Prelude.{
  ℕ, suc, ◌+◌, ◌%◌, ◌≡◌, ◌≢◌, refl, sym, ◌∙◌, ap, List, [], ◌∷◌, ◌++◌, append_assoc, append-nil,
  Bool, true, false, ◌&&◌, if◌then◌else◌, length, All, Bool-cases, inl, inr, Result, ok, fail,
  Status, io_error, ok_injective, failed_not_ok,
}
use eessh.Buffer.{Allocator}
use eessh.Base64.{allocated}
use eessh.Prelude.{out_of_memory}
use eessh.HostKeys.{
  HostData, StoreFile, absent, unreadable, present, found, key_line, is_whole, chunks, Verdict,
  next, stop, failed, AddState, read_key_file, FileSystem, copy_lines, finish_add, closed_file, add,
  check_server, host_data_of, host_data_create,
}
use eessh.HostKeys.Lines.{IsShortLine, chunks-IsChunk, flat}
use eessh.HostKeys.Tokens.{IsEntry, key_line-IsShortLine}
use eessh.HostKeys.Add.{texts, rewritten, replaces, is_failed, Copied, read_lines-Copied}
use eessh.HostKeys.Check.{
  first_match, new_lines, first_match-new_lines, first_match-frame, search-flat, search-first_match,
}

-- The lines of what stood under the name.
abbrev pub old_lines : StoreFile → List (List ℕ)
old_lines absent = []
old_lines unreadable = []
old_lines (present file) = texts (chunks (suc (length file)) file)

-- What a successful addition has done.
pub record Added (d : HostData) (old new : StoreFile) : Type 0 where
  pub file : new ≡ present (flat (new_lines d (old_lines old)))
  pub short : All IsShortLine (new_lines d (old_lines old))
  pub whole : All (λ t. is_whole t ≡ true) (old_lines old)

module _ (a : Allocator) (fs : FileSystem) where
  empty_copy :
      (d : HostData)
      → Copied d []
          (record { out = []; replaced = false })
          (next, record { out = []; replaced = false })
  empty_copy d = record { written = refl; replaced = refl; short = tt; whole = tt }

  copy_lines-Copied :
      (old : StoreFile) (d : HostData)
      → IsEntry d
      → is_failed (copy_lines a fs old d).0 ≡ false
      → Copied d (old_lines old) (record { out = []; replaced = false }) (copy_lines a fs old d)
  unfolding read_key_file
  copy_lines-Copied absent d e h = empty_copy d
  copy_lines-Copied unreadable d e h = cc
  copy_lines-Copied (present file) d e h =
      read_lines-Copied fs.write_fails fs.read_fails d (chunks (suc (length file)) file)
        (record { out = []; replaced = false }) e (chunks-IsChunk (suc (length file)) file) h

  flat-append : (xs ys : List (List ℕ)) → flat (xs ++ ys) ≡ flat xs ++ flat ys
  flat-append [] ys = refl
  flat-append (x ∷ xs) ys = rw (flat-append xs ys) (sym (append_assoc x (flat xs) (flat ys)))

  All-append :
      (xs ys : List (List ℕ)) → All IsShortLine xs → All IsShortLine ys → All IsShortLine (xs ++ ys)
  All-append [] ys h k = k
  All-append (x ∷ xs) ys h k = (h.0, All-append xs ys h.1 k)

  new_lines-flat :
      (d : HostData) (ts : List (List ℕ)) (out : List ℕ) (b : Bool)
      → out ≡ flat (rewritten d ts)
      → b ≡ replaces d ts
      → (if b then out else out ++ key_line d) ≡ flat (new_lines d ts)
  new_lines-flat d ts out true h r = rw (h, ← r) (sym (ap flat (append-nil (rewritten d ts))))
  new_lines-flat d ts out false h r =
      rw (h, ← r, flat-append (rewritten d ts) (key_line d ∷ []))
        (ap (λ ys. flat (rewritten d ts) ++ ys) (sym (append-nil (key_line d))))

  new_lines-short :
      (d : HostData) (ts : List (List ℕ))
      → IsEntry d
      → All IsShortLine (rewritten d ts)
      → All IsShortLine (new_lines d ts)
  new_lines-short d ts e h = All-append (rewritten d ts) _ h (rest (replaces d ts))
    where
      rest : (b : Bool) → All IsShortLine (if b then [] else key_line d ∷ [])
      rest true = tt
      rest false = (key_line-IsShortLine d e, tt)

  replaced_file :
      (refused : Bool) (old file : StoreFile) {new : StoreFile}
      → ◌≡◌ {A = Status × StoreFile}
          (if refused then (fail io_error, old) else (ok tt, file))
          (ok tt, new)
      → new ≡ file
  replaced_file true old file h = absurd (failed_not_ok h)
  replaced_file false old file h = sym (ap (λ (p : Status × StoreFile). p.1) h)

  Added-Copied :
      (d : HostData) (old : StoreFile) (v : Verdict) (s : AddState) {new : StoreFile}
      → IsEntry d
      → Copied d (old_lines old) (record { out = []; replaced = false }) (v, s)
      → new ≡ present (if s.replaced then s.out else s.out ++ key_line d)
      → Added d old new
  Added-Copied d old v s e c n = record {
    file = n ∙ ap present (new_lines-flat d (old_lines old) s.out s.replaced c.written c.replaced);
    short = new_lines-short d (old_lines old) e c.short;
    whole = c.whole;
  }

  written_out :
      {bytes : List ℕ} → fs.flushes ≡ true → present (closed_file a fs bytes) ≡ present bytes
  written_out w = rw w refl

  finish_add-Added :
      (d : HostData) (old : StoreFile) (v : Verdict) (s : AddState) {new : StoreFile}
      → IsEntry d
      → (is_failed v ≡ false
          → Copied d (old_lines old) (record { out = []; replaced = false }) (v, s))
      → fs.flushes ≡ true
      → finish_add a fs d old (v, s) ≡ (ok tt, new)
      → Added d old new
  finish_add-Added d old failed s e c w h = absurd (failed_not_ok h)
  finish_add-Added d old next s e c w h =
      Added-Copied d old next s e (c refl) (replaced_file _ old _ h ∙ written_out w)
  finish_add-Added d old stop s e c w h =
      Added-Copied d old stop s e (c refl) (replaced_file _ old _ h ∙ written_out w)

  pub add-Added :
      (hostname host_key : List ℕ) (old : StoreFile) (d : HostData) {new : StoreFile}
      → host_data_create a hostname host_key ≡ ok d
      → IsEntry d
      → fs.flushes ≡ true
      → add a fs hostname host_key old ≡ (ok tt, new)
      → Added d old new
  unfolding add
  add-Added hostname host_key old d k e w h = elim (Bool-cases (fs.name_fits && fs.creates)) [
    | inr refused ↦ absurd (failed_not_ok (rw refused at h))
    | inl opens ↦
        finish_add-Added d old (copy_lines a fs old d).0 (copy_lines a fs old d).1 e
          (copy_lines-Copied old d e) w (rw (opens, k) at h)
  ]

  -- A host that ssh_host_key_store_add has added with success is found by
  -- ssh_host_key_store_check_server in the file it has written, whatever stood there before: the key
  -- has replaced the host's older ones or was appended. The host's name, the key's type and the
  -- encoded key are words that fit into a line, the length of the key is a multiple of three, so that
  -- its text stays inside its allocation, `fclose` writes out the whole new file, and reading the file
  -- does not fail.
  pub check_server-add :
      (fs' : FileSystem) (hostname host_key : List ℕ) (old new : StoreFile) (d : HostData)
      → length host_key % 3 ≡ 0
      → host_data_create a hostname host_key ≡ ok d
      → IsEntry d
      → fs.flushes ≡ true
      → add a fs hostname host_key old ≡ (ok tt, new)
      → fs'.read_fails ≡ false
      → check_server a fs' hostname host_key new ≡ found
  unfolding check_server
  check_server-add fs' hostname host_key old new d inside k e w h r =
      let added = add-Added hostname host_key old d k e w h in
      rw (added.file, k, r)
        (search-flat d (new_lines d (old_lines old)) added.short
          ∙ first_match-new_lines d (old_lines old) e)

  add-unreadable :
      (hostname host_key : List ℕ) (d : HostData) {new : StoreFile}
      → host_data_create a hostname host_key ≡ ok d
      → add a fs hostname host_key unreadable ≡ (ok tt, new)
      → ⊥
  unfolding add
  add-unreadable hostname host_key d k h = elim (Bool-cases (fs.name_fits && fs.creates)) [
    | inr refused ↦ failed_not_ok (rw refused at h)
    | inl opens ↦ failed_not_ok (rw (opens, k) at h)
  ]

  host_data_of-hostname :
      (hostname host_key : List ℕ) (type : Result (List ℕ)) {d : HostData}
      → host_data_of a hostname host_key type ≡ ok d
      → d.hostname ≡ hostname
  host_data_of-hostname hostname host_key (fail e) h = cc
  host_data_of-hostname hostname host_key (ok key_type) {d} h =
      granted (a.grants (length key_type + 1) && a.grants (allocated (length host_key))) _ refl h
    where
      granted :
          (b : Bool) (made : HostData)
          → made.hostname ≡ hostname
          → ◌≡◌ {A = Result HostData} (if b then ok made else fail out_of_memory) (ok d)
          → d.hostname ≡ hostname
      granted true made e h = sym (ap (λ (x : HostData). x.hostname) (ok_injective h)) ∙ e
      granted false made e h = cc

  host_data_create-hostname :
      (hostname host_key : List ℕ) (d : HostData)
      → host_data_create a hostname host_key ≡ ok d
      → d.hostname ≡ hostname
  unfolding host_data_create
  host_data_create-hostname hostname host_key d h = host_data_of-hostname hostname host_key _ h

  same_answer :
      (fs' : FileSystem) (hostname host_key hostname' host_key' : List ℕ) (old new : StoreFile)
      (d d' : HostData)
      → host_data_create a hostname host_key ≡ ok d
      → IsEntry d
      → host_data_create a hostname' host_key' ≡ ok d'
      → hostname ≢ hostname'
      → fs.flushes ≡ true
      → add a fs hostname host_key old ≡ (ok tt, new)
      → fs'.read_fails ≡ false
      → check_server a fs' hostname' host_key' new ≡ first_match d' (old_lines old)
  unfolding check_server
  same_answer fs' hostname host_key hostname' host_key' old new d d' k e k' n w h r =
      let added = add-Added hostname host_key old d k e w h in
      rw (added.file, k', r)
        (search-flat d' (new_lines d (old_lines old)) added.short
          ∙ first_match-frame d d' (old_lines old) e (λ q. n (
              sym (host_data_create-hostname hostname host_key d k)
              ∙ q
              ∙ host_data_create-hostname hostname' host_key' d' k')))

  -- A successful addition changes no answer on another host: for each host of another name,
  -- ssh_host_key_store_check_server says of the new file what it said of the old one. The added data
  -- are words that fit into a line, the lengths of both keys are multiples of three, so that their
  -- texts stay inside their allocations, `fclose` writes out the whole new file, and reading the files
  -- does not fail.
  pub check_server-add_other :
      (fs' : FileSystem) (hostname host_key hostname' host_key' : List ℕ) (old new : StoreFile)
      (d d' : HostData)
      → length host_key % 3 ≡ 0
      → length host_key' % 3 ≡ 0
      → host_data_create a hostname host_key ≡ ok d
      → IsEntry d
      → host_data_create a hostname' host_key' ≡ ok d'
      → hostname ≢ hostname'
      → fs.flushes ≡ true
      → add a fs hostname host_key old ≡ (ok tt, new)
      → fs'.read_fails ≡ false
      → check_server a fs' hostname' host_key' new ≡ check_server a fs' hostname' host_key' old
  unfolding check_server read_key_file
  check_server-add_other fs' hostname host_key hostname' host_key' absent new d d' l l' k e k' n w h
        r =
      same_answer fs' hostname host_key hostname' host_key' absent new d d' k e k' n w h r
  check_server-add_other fs' hostname host_key hostname' host_key' unreadable new d d' l l' k e k' n
        w h r =
      absurd (add-unreadable hostname host_key d k h)
  check_server-add_other fs' hostname host_key hostname' host_key' (present file) new d d' l l' k e
        k' n w h r =
      let added = add-Added hostname host_key (present file) d k e w h in
      same_answer fs' hostname host_key hostname' host_key' (present file) new d d' k e k' n w h r
      ∙ rw (k', r) (sym (search-first_match d' (chunks (suc (length file)) file) added.whole))
