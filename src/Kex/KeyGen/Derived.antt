-- ===== src/Kex/KeyGen/Derived.antt =====
-- A generated key is the one of RFC 4253, section 7.2.
use eessh.Prelude.{
  ℕ, zero, suc, ◌+◌, ◌≤◌, ◌<◌, ◌≡◌, refl, sym, ◌∙◌, ap, subst, inl, inr, List, [], ◌∷◌, ◌++◌,
  append_assoc, ltb, Bool-cases, ltb-false→le, arith, length, length-append, take, take-take,
  Result, ok, fail, Act, gets, modify, ◌>>=◌, ◌>>◌, >>=-eq-ok, failed_not_ok, ok_injective,
}
use eessh.Buffer.{Buffer, Allocator, size_mod, contents, new, clear, grow, append_data, write_data}
use eessh.Buffer.Valid.{IsValid, Grown, grow_cases, new-IsValid}
use eessh.Buffer.Writes.{
  string_bytes, Wrote, put-IsValid, contents-put, length-contents, write_u8-Writes,
  append_data-Wrote, write_data-Writes,
}
use eessh.Buffer.Strings.{dup_string-same}
use eessh.Kex.KeyGen.{
  Work, key_of, on_data, on_hash, add_digest, hash_max_len, digest_data, first_block, next_block,
  more_blocks, gen_blocks, gen_key,
}

-- A hash that gives digests of some length, which fit its longest one.
abbrev pub IsHash : (List ℕ → Result (List ℕ)) → Type 0
IsHash h =
    (xs digest : List ℕ) → h xs ≡ ok digest → (0 < length digest) × (length digest ≤ hash_max_len)

-- K1 || K2 || ..., where K1 is the hash of a prefix and the parameters of the key, and each next one
-- the hash of the prefix and all the ones before
pub data IsStream (h : List ℕ → Result (List ℕ)) (prefix params : List ℕ) : List ℕ → Type 0 where
  one : (digest : List ℕ) → h (prefix ++ params) ≡ ok digest → IsStream h prefix params digest
  more :
      (ks digest : List ℕ)
      → IsStream h prefix params ks
      → h (prefix ++ ks) ≡ ok digest
      → IsStream h prefix params (ks ++ digest)

add_digest-contents :
    (digest : List ℕ) {b b' : Buffer}
    → length digest ≤ hash_max_len
    → Grown hash_max_len b b'
    → IsValid (add_digest digest b') × (contents (add_digest digest b') ≡ contents b ++ digest)
add_digest-contents digest {b} {b'} h g = (
  put-IsValid digest b' g.valid (omega (arith, g.same_len, g.room)),
  contents-put digest b' g.valid (omega (arith, g.same_len, g.room))
      ∙ ap (λ ys. ys ++ digest) (ap (λ n. take n b'.mem) g.same_len ∙ g.same),
)

clear-IsValid : (b : Buffer) → IsValid b → IsValid (clear b)
unfolding clear
clear-IsValid b v = record { allocated = v.allocated; within = omega arith; sized = v.sized }

longer_by :
    (digest : List ℕ) {n : ℕ} {b b' : Buffer}
    → IsValid b
    → IsValid b'
    → n ≤ b.len
    → 0 < length digest
    → contents b' ≡ contents b ++ digest
    → suc n ≤ b'.len
longer_by digest {n} {b} {b'} v v' l d e =
    omega
      (arith, length-contents v, length-contents v', ap length e, length-append (contents b) digest)

-- What a step on the data buffer has left
record Fed (xs : List ℕ) (s t : Work) : Type 0 where
  same : s.hash ≡ t.hash
  valid : IsValid t.input
  held : contents t.input ≡ contents s.input ++ xs

module _ (a : Allocator) where
  then-Fed :
      {xs : List ℕ} {m : Act Buffer Unit} (w : (b : Buffer) → IsValid b → Wrote xs b (m b))
      (f : Unit {0} → Act Work Unit) (s : Work) {s' : Work}
      → IsValid s.input
      → (on_data m >>= f) s ≡ (ok tt, s')
      → (t : Work) × Fed xs s t × (f tt t ≡ (ok tt, s'))
  then-Fed {xs} {m} w f s v h =
      let (u, t, e, g) = >>=-eq-ok (on_data m) f h in
      let wrote = w s.input v in
      let there = ap (λ (p : Result Unit × Work). p.1.input) e in
      (
        t,
        record {
          same = ap (λ (p : Result Unit × Work). p.1.hash) e;
          valid = subst IsValid there wrote.valid;
          held = ap contents (sym there) ∙ wrote.appends (ap (λ (p : Result Unit × Work). p.0) e);
        },
        g,
      )

  module _ (hash_compute : List ℕ → Result (List ℕ)) (secret exchange : List ℕ)
      (good : IsHash hash_compute) (secret_fits : length secret < size_mod)
      (exchange_fits : length exchange < size_mod) where
    -- What digest_data has put behind the hash buffer
    record Digested (bytes : List ℕ) (b : Buffer) (s' : Work) : Type 0 where
      digest : List ℕ
      made : hash_compute bytes ≡ ok digest
      valid : IsValid s'.hash
      held : contents s'.hash ≡ contents b ++ digest
      input_valid : IsValid s'.input

    digest-Digested :
        (s s' : Work)
        → IsValid s.hash
        → IsValid s.input
        → digest_data a hash_compute secret exchange s ≡ (ok tt, s')
        → Digested (contents s.input) s.hash s'
    unfolding digest_data
    digest-Digested s s' v vi h =
        let (u, t, e, g) = >>=-eq-ok (on_hash (grow a hash_max_len)) _ h in
        let (digest, t', e', g') =
          >>=-eq-ok (λ (w : Work). (hash_compute (contents w.input), w)) _ g in
        let input_same : s.input ≡ t.input = ap (λ (p : Result Unit × Work). p.1.input) e in
        let made : hash_compute (contents s.input) ≡ ok digest =
          ap (λ b. hash_compute (contents b)) input_same
          ∙ ap (λ (p : Result (List ℕ) × Work). p.0) e' in
        elim (grow_cases a hash_max_len s.hash v (omega arith)) [
          | inr (x, bad) ↦
              absurd (failed_not_ok (sym bad ∙ ap (λ (p : Result Unit × Work). (p.0, p.1.hash)) e))
          | inl (b, fine, grown) ↦
              let there : b ≡ t'.hash =
                ap (λ (p : Result Unit × Buffer). p.1) (sym fine)
                ∙ ap (λ (p : Result Unit × Work). p.1.hash) e
                ∙ ap (λ (p : Result (List ℕ) × Work). p.1.hash) e' in
              let last : add_digest digest b ≡ s'.hash =
                ap (add_digest digest) there ∙ ap (λ (p : Result Unit × Work). p.1.hash) g' in
              let (valid, held) =
                add_digest-contents digest {b = s.hash} {b' = b}
                  (good (contents s.input) digest made).1 grown in
              record {
                digest = digest;
                made = made;
                valid = subst IsValid last valid;
                held = ap contents (sym last) ∙ held;
                input_valid =
                    subst IsValid
                      (input_same
                        ∙ ap (λ (p : Result (List ℕ) × Work). p.1.input) e'
                        ∙ ap (λ (p : Result Unit × Work). p.1.input) g')
                      vi;
              }
        ]

    abbrev prefix : List ℕ
    prefix = string_bytes secret ++ exchange

    -- Behind a turn: the hash buffer holds the stream so far.
    record Turned (params : List ℕ) (least : ℕ) (s : Work) : Type 0 where
      valid : IsValid s.hash
      input_valid : IsValid s.input
      stream : IsStream hash_compute prefix params (contents s.hash)
      longer : least ≤ s.hash.len

    first-Turned :
        (key_id : ℕ) (session_id : List ℕ) (s' : Work)
        → length session_id < size_mod
        → first_block a hash_compute secret exchange key_id session_id
            (record { input = new; hash = new })
          ≡ (ok tt, s')
        → Turned (key_id ∷ session_id) 1 s'
    unfolding first_block
    first-Turned key_id session_id s' fits h =
        let (t1, f1, g1) =
          then-Fed (write_data-Writes a secret secret_fits).step _
            (record { input = new; hash = new }) new-IsValid h in
        let (t2, f2, g2) = then-Fed (append_data-Wrote a exchange exchange_fits) _ t1 f1.valid g1 in
        let (t3, f3, g3) = then-Fed (write_u8-Writes a key_id).step _ t2 f2.valid g2 in
        let (t4, f4, g4) = then-Fed (append_data-Wrote a session_id fits) _ t3 f3.valid g3 in
        let same : new ≡ t4.hash = f1.same ∙ f2.same ∙ f3.same ∙ f4.same in
        let d = digest-Digested t4 s' (subst IsValid same new-IsValid) f4.valid g4 in
        let bytes : contents t4.input ≡ prefix ++ key_id ∷ session_id =
          f4.held
          ∙ ap (λ ys. ys ++ session_id)
              (f3.held ∙ ap (λ ys. ys ++ key_id ∷ []) (f2.held ∙ ap (λ ys. ys ++ exchange) f1.held))
          ∙ append_assoc prefix (key_id ∷ []) session_id in
        let whole : contents s'.hash ≡ d.digest =
          d.held ∙ ap (λ b. contents b ++ d.digest) (sym same) in
        record {
          valid = d.valid;
          input_valid = d.input_valid;
          stream =
              subst (IsStream hash_compute prefix (key_id ∷ session_id)) (sym whole)
                (IsStream.one d.digest (ap hash_compute (sym bytes) ∙ d.made));
          longer = omega (
            arith,
            length-contents d.valid,
            ap length whole,
            good (contents t4.input) d.digest d.made,
          );
        }

    abbrev so_far_first : List ℕ → Act Work Unit
    so_far_first so_far =
        on_data (append_data a so_far) >> digest_data a hash_compute secret exchange

    -- The rest of next_block, behind the reset of the data buffer.
    abbrev secret_first : Act Work Unit
    secret_first =
        on_data (write_data a secret)
        >> (on_data (append_data a exchange) >> (gets (λ s. contents s.hash) >>= so_far_first))

    next-Turned :
        (params : List ℕ) (n : ℕ) (s s' : Work)
        → Turned params n s
        → next_block a hash_compute secret exchange s ≡ (ok tt, s')
        → Turned params (suc n) s'
    unfolding next_block clear
    next-Turned params n s s' at h =
        let (u, t0, e0, g0) = >>=-eq-ok (on_data (modify clear)) (λ _. secret_first) {s = s} h in
        let cleared = ap (λ (p : Result Unit × Work). p.1.input) e0 in
        let v0 = subst IsValid cleared (clear-IsValid s.input at.input_valid) in
        let (t1, f1, g1) = then-Fed (write_data-Writes a secret secret_fits).step _ t0 v0 g0 in
        let (t2, f2, g2) = then-Fed (append_data-Wrote a exchange exchange_fits) _ t1 f1.valid g1 in
        let kept : s.hash ≡ t2.hash =
          ap (λ (p : Result Unit × Work). p.1.hash) e0 ∙ f1.same ∙ f2.same in
        let (so_far, t3, e3, g3) =
          >>=-eq-ok (gets (λ (w : Work). contents w.hash)) so_far_first {s = t2} g2 in
        let same3 = ap (λ (p : Result (List ℕ) × Work). p.1) e3 in
        let read : contents s.hash ≡ so_far =
          ap contents kept ∙ ok_injective (ap (λ (p : Result (List ℕ) × Work). p.0) e3) in
        let (t4, f4, g4) =
          then-Fed
            (append_data-Wrote a so_far (
              omega
                (arith, ap length read, length-contents at.valid, at.valid.within, at.valid.sized)))
            _ t3 (subst (λ (w : Work). IsValid w.input) same3 f2.valid) g3 in
        let same : s.hash ≡ t4.hash = kept ∙ ap (λ (w : Work). w.hash) same3 ∙ f4.same in
        let d = digest-Digested t4 s' (subst IsValid same at.valid) f4.valid g4 in
        let bytes : contents t4.input ≡ prefix ++ contents s.hash =
          f4.held
          ∙ ap (λ ys. ys ++ so_far)
              (ap (λ (w : Work). contents w.input) (sym same3)
                ∙ f2.held
                ∙ ap (λ ys. ys ++ exchange)
                    (f1.held ∙ ap (λ b. contents b ++ string_bytes secret) (sym cleared)))
          ∙ ap (λ ys. prefix ++ ys) (sym read) in
        let whole : contents s'.hash ≡ contents s.hash ++ d.digest =
          d.held ∙ ap (λ b. contents b ++ d.digest) (sym same) in
        record {
          valid = d.valid;
          input_valid = d.input_valid;
          stream = subst (IsStream hash_compute prefix params) (sym whole) (
              IsStream.more (contents s.hash) d.digest at.stream
                (ap hash_compute (sym bytes) ∙ d.made));
          longer =
              longer_by d.digest at.valid d.valid at.longer
                (good (contents t4.input) d.digest d.made).0 whole;
        }

    -- Each turn adds a byte at least, so that the fuel is enough.
    more-Turned :
        (params : List ℕ) (fuel n least : ℕ) (s s' : Work)
        → Turned params least s
        → n ≤ least + fuel
        → more_blocks a hash_compute secret exchange fuel n s ≡ (ok tt, s')
        → Turned params n s'
    unfolding more_blocks
    more-Turned params zero n least s s' at h e =
        subst (Turned params n) (ap (λ (p : Result Unit × Work). p.1) e) (record {
          valid = at.valid;
          input_valid = at.input_valid;
          stream = at.stream;
          longer = omega (arith, h, at.longer);
        })
    more-Turned params (suc fuel) n least s s' at h e = elim (Bool-cases (ltb s.hash.len n)) [
      | inr enough ↦
          subst (Turned params n) (ap (λ (p : Result Unit × Work). p.1) (rw enough at e)) (record {
            valid = at.valid;
            input_valid = at.input_valid;
            stream = at.stream;
            longer = ltb-false→le _ _ enough;
          })
      | inl short ↦
          let (u, t, e', g) =
            >>=-eq-ok (next_block a hash_compute secret exchange) _ (rw short at e) in
          more-Turned params fuel n (suc least) t s' (next-Turned params least s t at e')
            (omega (arith, h)) g
    ]

    blocks-Turned :
        (n key_id : ℕ) (session_id : List ℕ) (s' : Work)
        → length session_id < size_mod
        → gen_blocks a hash_compute secret exchange n key_id session_id
            (record { input = new; hash = new })
          ≡ (ok tt, s')
        → Turned (key_id ∷ session_id) n s'
    unfolding gen_blocks
    blocks-Turned n key_id session_id s' fits h =
        let (u, t, e, g) =
          >>=-eq-ok (first_block a hash_compute secret exchange key_id session_id) _ h in
        more-Turned (key_id ∷ session_id) n n 1 t s' (first-Turned key_id session_id t fits e)
          (omega arith) g

    -- A key of `n` bytes is the front of the stream of digests.
    pub record Derived (n : ℕ) (params key : List ℕ) : Type 0 where
      pub stream : List ℕ
      pub made : IsStream hash_compute (string_bytes secret ++ exchange) params stream
      pub enough : n ≤ length stream
      pub front : key ≡ take n stream

    key_of-Derived :
        (n : ℕ) (params : List ℕ) (r : Result (Unit {0})) (s : Work) {key : List ℕ}
        → (r ≡ ok tt → Turned params n s)
        → key_of a n r s ≡ ok key
        → Derived n params key
    key_of-Derived n params (ok u) s {key} turned h =
        let at = turned refl in
        record {
          stream = contents s.hash;
          made = at.stream;
          enough = omega (arith, at.longer, length-contents at.valid);
          front =
              sym (dup_string-same a (take n s.hash.mem) key h)
              ∙ sym (take-take n s.hash.len s.hash.mem at.longer);
        }
    key_of-Derived n params (fail e) s turned h = cc h

    abbrev blocks : ℕ → ℕ → List ℕ → Result (Unit {0}) × Work
    blocks n key_id session_id =
        gen_blocks a hash_compute secret exchange n key_id session_id
          (record { input = new; hash = new })

    -- A key that gen_key returns is the one of RFC 4253, section 7.2: the first bytes, as many as
    -- were asked for, of K1 || K2 || ..., where K1 is the hash of the secret as a string, the
    -- exchange hash, the key's letter and the session id, and each next one the hash of the secret
    -- as a string, the exchange hash and all the ones before; there are digests enough. Digests are
    -- not empty and have 256 bytes at most, and the secret, the exchange hash and the session id
    -- are shorter than 2 ^ 64 bytes.
    pub gen_key-Derived :
        (n key_id : ℕ) (session_id key : List ℕ)
        → length session_id < size_mod
        → gen_key a hash_compute secret exchange n key_id session_id ≡ ok key
        → Derived n (key_id ∷ session_id) key
    unfolding gen_key
    gen_key-Derived n key_id session_id key fits h =
        key_of-Derived n (key_id ∷ session_id) (blocks n key_id session_id).0
          (blocks n key_id session_id).1
          (λ fine.
            blocks-Turned n key_id session_id _ fits
              (λ i. (fine i, (blocks n key_id session_id).1)))
          h
