-- ===== src/Mac.antt =====
-- ssh/mac.c: the MAC of a packet. The hash functions of crypto are parameters; a context of theirs
-- is a value, which an update replaces.
pub mod Xor
pub mod Hmac
use eessh.Prelude.{
  ℕ, zero, suc, ◌+◌, ◌-◌, ◌*◌, ◌/◌, ◌%◌, List, [], ◌∷◌, ◌++◌, Bool, ltb, if◌then◌else◌, length,
  take, replicate, Option, none, some, Result, ok, fail, Status, bad_algorithm, out_of_memory,
}
use eessh.Buffer.{Allocator}
use eessh.Buffer.Writes.{u32_bytes}
use eessh.Algorithms.{Row, HashType, MacType, MacAlgo, get_mac_algo}

-- The functions that a row of the table points to, and ssh_hash_get_block_size
pub record Hashing : Type 1 where
  pub Ctx : Type 0
  pub single : HashType → List ℕ → Result (List ℕ)
  pub new : HashType → Result Ctx
  pub copy_ctx : Ctx → Result Ctx
  pub update : Ctx → List ℕ → Result Ctx
  pub final : Ctx → Result (List ℕ)
  pub block_size : HashType → Option ℕ

-- `^` on numbers of `n` bits
abbrev pub xor : ℕ → ℕ → ℕ → ℕ
xor zero a b = 0
xor (suc n) a b = (a % 2 + b % 2) % 2 + 2 * xor n (a / 2) (b / 2)

-- `^=` on each byte of a region
abbrev pub xor_all : ℕ → List ℕ → List ℕ
xor_all pad [] = []
xor_all pad (x ∷ xs) = xor 8 x pad ∷ xor_all pad xs

-- Calls in a row, the first of which to fail ends them
abbrev pub and_then : {A B : Type 0} → Result A → (A → Result B) → Result B
and_then (ok x) f = f x
and_then (fail e) f = fail e

abbrev pub mac_algo_of : Option (Row MacAlgo) → Result MacAlgo
mac_algo_of none = fail bad_algorithm
mac_algo_of (some r) = ok r.info

abbrev pub block_size_of : Option ℕ → Result ℕ
block_size_of none = fail bad_algorithm
block_size_of (some n) = ok n

module _ (a : Allocator) (h : Hashing) where
  -- struct SSH_MAC_CTX; its third context is overwritten by each use.
  pub record MacCtx : Type 0 where
    pub algo : MacAlgo
    pub ictx : h.Ctx
    pub octx : h.Ctx
    pub block_size : ℕ

  -- The key as a block: a long key is hashed, a short one is filled up with zeros. What stands
  -- behind the hash of a long key is not written.
  abbrev pub fit_key : MacAlgo → ℕ → List ℕ → Result (List ℕ)
  fit_key algo block_size key =
      if ltb block_size (length key)
      then and_then (h.single algo.hash key)
          (λ digest. ok (take block_size (digest ++ replicate block_size a.junk)))
      else ok (key ++ replicate (block_size - length key) 0)

  -- mac_set_key
  unfoldable pub mac_set_key : List ℕ → MacCtx → Result MacCtx
  mac_set_key key mac = and_then (fit_key mac.algo mac.block_size key) (λ key_data.
      let inner = xor_all 0x36 key_data in
      and_then (h.update mac.ictx inner) (λ ictx.
        and_then (h.update mac.octx (xor_all (xor 8 0x36 0x5c) inner))
          (λ octx. ok (record mac { ictx = ictx; octx = octx }))))

  -- ssh_mac_new
  unfoldable pub mac_new : MacType → List ℕ → Result MacCtx
  mac_new type key = and_then (mac_algo_of (get_mac_algo type)) (λ algo.
      and_then (block_size_of (h.block_size algo.hash)) (λ block_size.
        and_then (if a.grants 40 then ok tt else fail out_of_memory) (λ (_ : Unit {0}).
          and_then (h.new algo.hash) (λ ctx. and_then (h.new algo.hash) (λ ictx.
            and_then (h.new algo.hash) (λ octx.
              mac_set_key key
                (record { algo = algo; ictx = ictx; octx = octx; block_size = block_size })))))))

  -- ssh_mac_compute
  unfoldable pub mac_compute : MacCtx → ℕ → List ℕ → Result (List ℕ)
  mac_compute mac seq_num bytes = and_then (h.copy_ctx mac.ictx) (λ ctx.
      and_then (h.update ctx (u32_bytes seq_num)) (λ ctx'. and_then (h.update ctx' bytes) (λ ctx''.
        and_then (h.final ctx'') (λ buf.
          and_then (h.copy_ctx mac.octx)
            (λ out. and_then (h.update out (take mac.algo.len buf)) (λ out'. h.final out'))))))
