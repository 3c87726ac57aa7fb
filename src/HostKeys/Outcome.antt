-- ===== src/HostKeys/Outcome.antt =====
-- When a host is found, and when an addition succeeds.
use eessh.Prelude.{
  ℕ, suc, ◌≡◌, ◌≢◌, refl, List, [], ◌∷◌, Bool, true, false, not, ◌||◌, ◌&&◌, if◌then◌else◌, length,
  All, Bool-cases, inl, inr, ok, fail, Result-cases, Status, Error, io_error, ◌⊎◌,
}
use eessh.Buffer.{Allocator}
use eessh.HostKeys.{
  HostData, StoreFile, absent, unreadable, present, is_whole, chunks, Verdict, next, stop, failed,
  AddState, add_key_callback, read_lines, read_key_file, FileSystem, copy_lines, finish_add, add,
  host_data_create, strtok, is_comment,
}
use eessh.HostKeys.Add.{texts}
use eessh.HostKeys.Store.{old_lines}

-- A line with the host's name and the type of its key; a comment names nothing.
abbrev pub Names : HostData → List ℕ → Type 0
Names d t =
    (is_comment (strtok t).0 ≡ false)
    × ((strtok t).0 ≡ d.hostname)
    × ((strtok (strtok t).1).0 ≢ [])
    × ((strtok (strtok t).1).0 ≡ d.key_type)

-- The first line that names the host and the type of its key names its key.
abbrev pub FirstEntry : HostData → List (List ℕ) → Type 0
FirstEntry d [] = ⊥
FirstEntry d (t ∷ ts) =
    (((strtok t).0 ≡ d.hostname)
      × ((strtok (strtok t).1).0 ≡ d.key_type)
      × ((strtok (strtok (strtok t).1).1).0 ≡ d.host_key))
    ⊎ ((Names d t → ⊥) × FirstEntry d ts)

module _ (a : Allocator) (fs : FileSystem) where
  abbrev outcome : Bool → StoreFile → StoreFile → Status × StoreFile
  outcome refused old file = if refused then (fail io_error, old) else (ok tt, file)

  unchanged_if_refused :
      (refused : Bool) (old file : StoreFile) {e : Error}
      → (outcome refused old file).0 ≡ fail e
      → (outcome refused old file).1 ≡ old
  unchanged_if_refused true old file h = refl
  unchanged_if_refused false old file h = cc

  finish_add-fail :
      (d : HostData) (old : StoreFile) (v : Verdict) (s : AddState) {e : Error}
      → (finish_add a fs d old (v, s)).0 ≡ fail e
      → (finish_add a fs d old (v, s)).1 ≡ old
  finish_add-fail d old failed s h = refl
  finish_add-fail d old next s h =
      unchanged_if_refused (not s.replaced && fs.write_fails || not fs.renames) old _ h
  finish_add-fail d old stop s h =
      unchanged_if_refused (not s.replaced && fs.write_fails || not fs.renames) old _ h

  -- An addition that fails, whichever call of the file system or allocation was refused and however
  -- far the copy had come, leaves the file of keys as it was.
  pub add-fail :
      (hostname host_key : List ℕ) (old : StoreFile) (e : Error)
      → (add a fs hostname host_key old).0 ≡ fail e
      → (add a fs hostname host_key old).1 ≡ old
  unfolding add
  add-fail hostname host_key old e h = elim (Bool-cases (fs.name_fits && fs.creates)) [
    | inr refused ↦ rw refused refl
    | inl opens ↦ elim (Result-cases (host_data_create a hostname host_key)) [
      | inr (e', broken) ↦ rw (opens, broken) refl
      | inl (d, made) ↦
          rw (opens, made)
            (finish_add-fail d old (copy_lines a fs old d).0 (copy_lines a fs old d).1 {e = e}
              (rw (opens, made) at h))
    ]
  ]

  read_lines-ok :
      (d : HostData) (cs : List (List ℕ)) (s : AddState)
      → All (λ t. is_whole t ≡ true) (texts cs)
      → (read_lines (add_key_callback false d) false cs s).0 ≡ next
  unfolding read_lines add_key_callback
  read_lines-ok d [] s w = refl
  read_lines-ok d (c ∷ cs) s w = rw (w.0) (read_lines-ok d cs _ w.1)

  finish_add-ok :
      (d : HostData) (old : StoreFile) (v : Verdict) (s : AddState)
      → v ≡ next
      → fs.write_fails ≡ false
      → fs.renames ≡ true
      → (finish_add a fs d old (v, s)).0 ≡ ok tt
  finish_add-ok d old failed s e w r = cc
  finish_add-ok d old stop s e w r = cc
  finish_add-ok d old next s e w r = elim (Bool-cases s.replaced) [
    | inl b ↦ rw (b, r) refl
    | inr b ↦ rw (b, w, r) refl
  ]

  copy_lines-ok :
      (old : StoreFile) (d : HostData)
      → old ≢ unreadable
      → All (λ t. is_whole t ≡ true) (old_lines old)
      → fs.read_fails ≡ false
      → fs.write_fails ≡ false
      → (copy_lines a fs old d).0 ≡ next
  unfolding read_key_file
  copy_lines-ok absent d u l b w = refl
  copy_lines-ok unreadable d u l b w = absurd (u refl)
  copy_lines-ok (present file) d u l b w =
      rw (b, w)
        (read_lines-ok d (chunks (suc (length file)) file) (record { out = []; replaced = false })
          l)

  -- An addition succeeds if the calls of the file system do, memory is granted, the data on the host
  -- can be made of the key, and each line of the old file, if there is one, ends in a newline and
  -- fits into the line buffer.
  pub add-ok :
      (hostname host_key : List ℕ) (old : StoreFile) (d : HostData)
      → host_data_create a hostname host_key ≡ ok d
      → old ≢ unreadable
      → All (λ t. is_whole t ≡ true) (old_lines old)
      → fs.name_fits ≡ true
      → fs.creates ≡ true
      → fs.read_fails ≡ false
      → fs.write_fails ≡ false
      → fs.renames ≡ true
      → (add a fs hostname host_key old).0 ≡ ok tt
  unfolding add
  add-ok hostname host_key old d k u l n c b w r =
      rw (n, c, k)
        (finish_add-ok d old (copy_lines a fs old d).0 (copy_lines a fs old d).1
          (copy_lines-ok old d u l b w) w r)
