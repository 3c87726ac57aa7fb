-- ===== src/Tests/Macs.antt =====
-- The MAC of a packet over a toy hash.
use eessh.Prelude.{
  ℕ, ◌≤◌, ◌≡◌, refl, sym, ap, List, [], ◌∷◌, ◌++◌, length, replicate, true, Option, none, some, ok,
  ok_injective, arith,
}
use eessh.Buffer.{Allocator}
use eessh.Buffer.Writes.{u32_bytes}
use eessh.Algorithms.{HashType, MacAlgo, get_mac_algo, hmac_sha2_256}
use eessh.Mac.{Hashing, MacCtx, mac_algo_of, mac_set_key, mac_new, mac_compute}
use eessh.Mac.Hmac.{IsStreaming, hmac, mac_compute-hmac}

program : Unit {0}
unfolding get_mac_algo mac_set_key mac_new mac_compute
program = tt

abbrev heap : Allocator
heap = record { grants = λ _. true; junk = 0; overrun = λ xs. xs }

-- What was hashed, and for which type
pub record Fed : Type 0 where
  type : HashType
  bytes : List ℕ

-- The digest counts the bytes; a block has eight.
abbrev toy_hashing : Hashing
toy_hashing = record {
  Ctx = Fed;
  single = λ t xs. ok (replicate 32 (length xs));
  new = λ t. ok (record { type = t; bytes = [] });
  copy_ctx = λ c. ok c;
  update = λ c xs. ok (record { type = c.type; bytes = c.bytes ++ xs });
  final = λ c. ok (replicate 32 (length c.bytes));
  block_size = λ t. some 8;
}

toy_hashing-IsStreaming : IsStreaming toy_hashing
toy_hashing-IsStreaming = record {
  type_of = λ c. c.type;
  fed = λ c. c.bytes;
  new = λ t c e. (
    ap (λ (q : Fed). q.type) (sym (ok_injective e)),
    ap (λ (q : Fed). q.bytes) (sym (ok_injective e)),
  );
  copy = λ c c' e. (
    ap (λ (q : Fed). q.type) (sym (ok_injective e)),
    ap (λ (q : Fed). q.bytes) (sym (ok_injective e)),
  );
  update = λ c c' xs e. (
    ap (λ (q : Fed). q.type) (sym (ok_injective e)),
    ap (λ (q : Fed). q.bytes) (sym (ok_injective e)),
  );
  final = λ c xs e. e;
}

abbrev key : List ℕ
key = 1 ∷ 2 ∷ 3 ∷ []

abbrev context : MacCtx heap toy_hashing
context = record {
  algo = record { type = hmac_sha2_256; hash = eessh.Algorithms.sha2_256; len = 32 };
  ictx = record { type = eessh.Algorithms.sha2_256; bytes = 55 ∷ 52 ∷ 53 ∷ replicate 5 54 };
  octx = record { type = eessh.Algorithms.sha2_256; bytes = 93 ∷ 94 ∷ 95 ∷ replicate 5 92 };
  block_size = 8;
}

key_fits : (algo : MacAlgo) (n : ℕ) → toy_hashing.block_size algo.hash ≡ some n → length key ≤ n
key_fits algo n e = omega (arith, ap size e)
  where
    size : Option ℕ → ℕ
    size none = 0
    size (some m) = m

mac_compute-hmac_example :
    (mac_algo_of (get_mac_algo hmac_sha2_256) ≡ ok context.algo)
    × (toy_hashing.block_size context.algo.hash ≡ some context.block_size)
    × (hmac
          (toy_hashing.single context.algo.hash)
          context.block_size
          context.algo.len
          key
          (u32_bytes 5 ++ 9 ∷ [])
        ≡ ok (replicate 32 40))
unfolding program
mac_compute-hmac_example =
    mac_compute-hmac heap toy_hashing toy_hashing-IsStreaming hmac_sha2_256 key context 5 (9 ∷ [])
      (replicate 32 40) key_fits refl refl
