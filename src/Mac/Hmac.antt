-- ===== src/Mac/Hmac.antt =====
-- ssh/mac.c computes HMAC (RFC 2104) of the sequence number and the packet (RFC 4253, section 6.4).
use eessh.Prelude.{
  ℕ, ◌-◌, ◌≤◌, ◌≡◌, refl, sym, ◌∙◌, ap, ap₂, subst, List, [], ◌++◌, append_assoc, le→ltb-false,
  if◌then◌else◌, length, take, replicate, Option, none, some, Result, ok, fail, ok_injective,
  out_of_memory,
}
use eessh.Buffer.{Allocator}
use eessh.Buffer.Writes.{u32_bytes}
use eessh.Algorithms.{HashType, MacType, MacAlgo, get_mac_algo}
use eessh.Mac.{
  Hashing, MacCtx, xor, xor_all, and_then, mac_algo_of, block_size_of, fit_key, mac_set_key,
  mac_new, mac_compute,
}
use eessh.Mac.Xor.{xor_all-xor_all}

-- HMAC by its definition, over the hash of a whole text: `key` filled up to a block, under the
-- outer and the inner pad. `len` bytes of the inner hash are used.
abbrev pub hmac : (List ℕ → Result (List ℕ)) → ℕ → ℕ → List ℕ → List ℕ → Result (List ℕ)
hmac hash block_size len key text =
    let block = key ++ replicate (block_size - length key) 0 in
    and_then (hash (xor_all 0x36 block ++ text))
      (λ inner. hash (xor_all 0x5c block ++ take len inner))

-- How a hash function that is fed in pieces relates to one over a whole text: a context has a type
-- and the bytes it was fed.
pub record IsStreaming (h : Hashing) : Type 0 where
  pub type_of : h.Ctx → HashType
  pub fed : h.Ctx → List ℕ
  pub new : (t : HashType) (c : h.Ctx) → h.new t ≡ ok c → (type_of c ≡ t) × (fed c ≡ [])
  pub copy : (c c' : h.Ctx) → h.copy_ctx c ≡ ok c' → (type_of c' ≡ type_of c) × (fed c' ≡ fed c)
  pub update :
      (c c' : h.Ctx) (xs : List ℕ)
      → h.update c xs ≡ ok c'
      → (type_of c' ≡ type_of c) × (fed c' ≡ fed c ++ xs)
  pub final : (c : h.Ctx) (xs : List ℕ) → h.final c ≡ ok xs → h.single (type_of c) (fed c) ≡ ok xs

module _ {A B : Type 0} where
  -- Calls in a row that succeed begin with one that does.
  pub and_then-ok :
      (r : Result A) (f : A → Result B) {b : B}
      → and_then r f ≡ ok b
      → (x : A) × (r ≡ ok x) × (f x ≡ ok b)
  and_then-ok (ok x) f h = (x, refl, h)
  and_then-ok (fail e) f h = cc

module _ (a : Allocator) (h : Hashing) (s : IsStreaming h) where
  -- The two contexts hold the pads of the key.
  record IsKeyed (key : List ℕ) (mac : MacCtx a h) : Type 0 where
    inner_type : s.type_of mac.ictx ≡ mac.algo.hash
    outer_type : s.type_of mac.octx ≡ mac.algo.hash
    inner : s.fed mac.ictx ≡ xor_all 0x36 (key ++ replicate (mac.block_size - length key) 0)
    outer : s.fed mac.octx ≡ xor_all 0x5c (key ++ replicate (mac.block_size - length key) 0)
    type : h.block_size mac.algo.hash ≡ some mac.block_size

  mac_set_key-IsKeyed :
      (key : List ℕ) (algo : MacAlgo) (ictx octx : h.Ctx) (block_size : ℕ) (mac : MacCtx a h)
      → length key ≤ block_size
      → h.new algo.hash ≡ ok ictx
      → h.new algo.hash ≡ ok octx
      → h.block_size algo.hash ≡ some block_size
      → mac_set_key a h key
          (record { algo = algo; ictx = ictx; octx = octx; block_size = block_size })
        ≡ ok mac
      → IsKeyed key mac × (mac.algo ≡ algo)
  unfolding mac_set_key
  mac_set_key-IsKeyed key algo ictx octx block_size mac fits ni no_ bs e =
      let block = key ++ replicate (block_size - length key) 0 in
      let (key_data, e1, g1) = and_then-ok (fit_key a h algo block_size key) _ e in
      let whole = ok_injective (sym e1 ∙ rw (le→ltb-false block_size (length key) fits) refl) in
      let (i', e2, g2) = and_then-ok (h.update ictx (xor_all 0x36 key_data)) _ g1 in
      let (o', e3, g3) =
        and_then-ok (h.update octx (xor_all (xor 8 0x36 0x5c) (xor_all 0x36 key_data))) _ g2 in
      let fi = s.update ictx i' _ e2 in
      let fo = s.update octx o' _ e3 in
      let ui = s.new algo.hash ictx ni in
      let uo = s.new algo.hash octx no_ in
      (
        subst (IsKeyed key) (ok_injective g3) (record {
          inner_type = fi.0 ∙ ui.0;
          outer_type = fo.0 ∙ uo.0;
          inner = fi.1 ∙ ap (λ xs. xs ++ xor_all 0x36 key_data) ui.1 ∙ ap (xor_all 0x36) whole;
          outer =
              fo.1
              ∙ ap (λ xs. xs ++ xor_all (xor 8 0x36 0x5c) (xor_all 0x36 key_data)) uo.1
              ∙ xor_all-xor_all 0x36 0x5c key_data
              ∙ ap (xor_all 0x5c) whole;
          type = bs;
        }),
        ap (λ (m : MacCtx a h). m.algo) (sym (ok_injective g3)),
      )

  block_size_ok : (o : Option ℕ) {n : ℕ} → block_size_of o ≡ ok n → o ≡ some n
  block_size_ok none e = cc
  block_size_ok (some m) e = ap some (ok_injective e)

  mac_new-IsKeyed :
      (type : MacType) (key : List ℕ) (mac : MacCtx a h)
      → ((algo : MacAlgo) (n : ℕ) → h.block_size algo.hash ≡ some n → length key ≤ n)
      → mac_new a h type key ≡ ok mac
      → IsKeyed key mac × (mac_algo_of (get_mac_algo type) ≡ ok mac.algo)
  unfolding mac_new
  mac_new-IsKeyed type key mac fits e =
      let (algo, e1, g1) = and_then-ok (mac_algo_of (get_mac_algo type)) _ e in
      let (n, e2, g2) = and_then-ok (block_size_of (h.block_size algo.hash)) _ g1 in
      let (u, e3, g3) = and_then-ok (if a.grants 40 then ok tt else fail out_of_memory) _ g2 in
      let (c, e4, g4) = and_then-ok (h.new algo.hash) _ g3 in
      let (i, e5, g5) = and_then-ok (h.new algo.hash) _ g4 in
      let (o, e6, g6) = and_then-ok (h.new algo.hash) _ g5 in
      let sized = block_size_ok (h.block_size algo.hash) e2 in
      let keyed = mac_set_key-IsKeyed key algo i o n mac (fits algo n sized) e5 e6 sized g6 in
      (keyed.0, e1 ∙ ap ok (sym keyed.1))

  hmac_of :
      (hash : List ℕ → Result (List ℕ)) (n len : ℕ) (key text buf out : List ℕ)
      → hash (xor_all 0x36 (key ++ replicate (n - length key) 0) ++ text) ≡ ok buf
      → hash (xor_all 0x5c (key ++ replicate (n - length key) 0) ++ take len buf) ≡ ok out
      → hmac hash n len key text ≡ ok out
  hmac_of hash n len key text buf out e e' = rw (e, e') refl

  compute_lem :
      (key : List ℕ) (mac : MacCtx a h) (seq_num : ℕ) (bytes out : List ℕ)
      → IsKeyed key mac
      → mac_compute a h mac seq_num bytes ≡ ok out
      → hmac (h.single mac.algo.hash) mac.block_size mac.algo.len key (u32_bytes seq_num ++ bytes)
        ≡ ok out
  unfolding mac_compute
  compute_lem key mac seq_num bytes out k e =
      let (c, e1, g1) = and_then-ok (h.copy_ctx mac.ictx) _ e in
      let (c', e2, g2) = and_then-ok (h.update c (u32_bytes seq_num)) _ g1 in
      let (c'', e3, g3) = and_then-ok (h.update c' bytes) _ g2 in
      let (buf, e4, g4) = and_then-ok (h.final c'') _ g3 in
      let (o, e5, g5) = and_then-ok (h.copy_ctx mac.octx) _ g4 in
      let (o', e6, g6) = and_then-ok (h.update o (take mac.algo.len buf)) _ g5 in
      let fc = s.copy mac.ictx c e1 in
      let fc' = s.update c c' (u32_bytes seq_num) e2 in
      let fc'' = s.update c' c'' bytes e3 in
      let fo = s.copy mac.octx o e5 in
      let fo' = s.update o o' (take mac.algo.len buf) e6 in
      let inner_fed =
        fc''.1
        ∙ ap (λ xs. xs ++ bytes) (fc'.1 ∙ ap (λ xs. xs ++ u32_bytes seq_num) (fc.1 ∙ k.inner))
        ∙ append_assoc _ (u32_bytes seq_num) bytes in
      let outer_fed = fo'.1 ∙ ap (λ xs. xs ++ take mac.algo.len buf) (fo.1 ∙ k.outer) in
      hmac_of (h.single mac.algo.hash) mac.block_size mac.algo.len key (u32_bytes seq_num ++ bytes)
        buf out
        (sym (ap₂ h.single (fc''.0 ∙ fc'.0 ∙ fc.0 ∙ k.inner_type) inner_fed) ∙ s.final c'' buf e4)
        (sym (ap₂ h.single (fo'.0 ∙ fo.0 ∙ k.outer_type) outer_fed) ∙ s.final o' out g6)

  -- What ssh_mac_compute writes for a sequence number and a packet, with a context that ssh_mac_new
  -- has made of a key no longer than a block, is HMAC of the four bytes of the number and the
  -- packet, under the key and the hash of the table's row. A digest that is fed in pieces is the one
  -- of the whole text.
  pub mac_compute-hmac :
      (type : MacType) (key : List ℕ) (mac : MacCtx a h) (seq_num : ℕ) (bytes out : List ℕ)
      → ((algo : MacAlgo) (n : ℕ) → h.block_size algo.hash ≡ some n → length key ≤ n)
      → mac_new a h type key ≡ ok mac
      → mac_compute a h mac seq_num bytes ≡ ok out
      → (mac_algo_of (get_mac_algo type) ≡ ok mac.algo)
        × (h.block_size mac.algo.hash ≡ some mac.block_size)
        × (hmac
              (h.single mac.algo.hash)
              mac.block_size
              mac.algo.len
              key
              (u32_bytes seq_num ++ bytes)
            ≡ ok out)
  mac_compute-hmac type key mac seq_num bytes out fits made computed =
      let (keyed, algo) = mac_new-IsKeyed type key mac fits made in
      (algo, keyed.type, compute_lem key mac seq_num bytes out keyed computed)
