-- ===== src/Stream/Accept.antt =====
-- What is known of a packet that `ssh_stream_recv_packet` returns.
use eessh.Prelude.{
  failed_not_ok, Status, Result-cases, subst, ◌||◌, Bool-cases, inl, inr, Error, ℕ, ◌+◌, ◌%◌, ◌^◌,
  ◌≡◌, refl, sym, ◌∙◌, ap, List, Bool, true, false, Option, none, some, ok, fail, Act, pure, raise,
  gets, modify, ◌>>=◌, ◌>>◌, proceed, Result, if◌then◌else◌, >>=-eq-ok, same_bytes→eq, take, drop,
  ltb,
}
use eessh.Buffer.{Buffer, Allocator, contents}
use eessh.Reader.{get_u32}
use eessh.Stream.{Crypto, Stream, on_pack, on_buf, on_enc, crypt_with, crypt_bytes, max_packet_len}
use eessh.Stream.Receive.{
  on_net, on_side, consume_from, read_in, read_more, decrypt, copy_plain, consume, fill_buffer,
  padding_ok, mac_matches, verify_read_packet, verify_mac, check_digest, take_packet, recv_header,
  accept, recv_body, recv_packet,
}

module _ (k : Crypto) (a : Allocator) where
  -- What receiving never changes before the packet is accepted.
  abbrev pub Settings : Type 0
  Settings = record { seq_num : ℕ; mac : Option (k.MacCtx); mac_len : ℕ; block_len : ℕ }

  abbrev pub settings : Stream k → Settings
  settings s = record {
    seq_num = s.seq_num;
    mac = s.mac;
    mac_len = s.mac_len;
    block_len = s.cipher_block_len;
  }

  record Keeps {A : Type 0} (m : Act (Stream k) A) : Type 0 where
    at : (s : Stream k) → settings (m s).1 ≡ settings s

  proceed-Keeps :
      {A B : Type 0} (f : A → Act (Stream k) B)
      → ((x : A) → Keeps (f x))
      → (r : Result A) (t : Stream k) → settings (proceed r t f).1 ≡ settings t
  proceed-Keeps f kf (ok x) t = (kf x).at t
  proceed-Keeps f kf (fail e) t = refl

  Keeps-bind :
      {A B : Type 0} (m : Act (Stream k) A) (f : A → Act (Stream k) B)
      → Keeps m
      → ((x : A) → Keeps (f x))
      → Keeps (m >>= f)
  unfolding ◌>>=◌
  Keeps-bind m f km kf = record { at = λ s. proceed-Keeps f kf (m s).0 (m s).1 ∙ km.at s }

  Keeps-pack : {A : Type 0} (m : Act Buffer A) → Keeps (on_pack k a m)
  Keeps-pack m = record { at = λ s. refl }

  Keeps-buf : {A : Type 0} (m : Act Buffer A) → Keeps (on_buf k a m)
  Keeps-buf m = record { at = λ s. refl }

  Keeps-enc : {A : Type 0} (m : Act Buffer A) → Keeps (on_enc k a m)
  Keeps-enc m = record { at = λ s. refl }

  Keeps-gets : {A : Type 0} (f : Stream k → A) → Keeps (gets f)
  Keeps-gets f = record { at = λ s. refl }

  Keeps-modify :
      (f : Stream k → Stream k) → ((s : Stream k) → settings (f s) ≡ settings s) → Keeps (modify f)
  Keeps-modify f h = record { at = h }

  Keeps-if :
      {A : Type 0} (b : Bool) (m n : Act (Stream k) A)
      → Keeps m
      → Keeps n
      → Keeps (if b then m else n)
  Keeps-if true m n km kn = km
  Keeps-if false m n km kn = kn

  Keeps-pure : {A : Type 0} (x : A) → Keeps (pure x)
  Keeps-pure x = record { at = λ s. refl }

  Keeps-raise : {A : Type 0} (e : Error) → Keeps (raise {A = A} e)
  Keeps-raise e = record { at = λ s. refl }

  Keeps-net : {A : Type 0} (m : Act Buffer A) → Keeps (on_net k a m)
  Keeps-net m = record { at = λ s. by_side s.cipher s }
    where
      by_side :
          (c : Option (k.CipherCtx)) (s : Stream k) → settings (on_side k a c m s).1 ≡ settings s
      by_side none s = refl
      by_side (some _) s = refl

  Keeps-crypt : (xs : List ℕ) → Keeps (crypt_bytes k a xs)
  Keeps-crypt xs = record { at = λ s. by_cipher s.cipher s }
    where
      by_cipher :
          (c : Option (k.CipherCtx)) (s : Stream k)
          → settings (crypt_with k a c xs s).1 ≡ settings s
      by_cipher none s = refl
      by_cipher (some _) s = refl

  Keeps-read_in : (n : ℕ) → Keeps (read_in k a n)
  unfolding read_in
  Keeps-read_in n = record { at = λ s. refl }

  ruleset keeps_rules = (
    Keeps-bind, Keeps-pack, Keeps-buf, Keeps-enc, Keeps-gets, Keeps-if, Keeps-pure, Keeps-raise,
    Keeps-net, Keeps-crypt, Keeps-read_in,
  )

  Keeps-read_more : (n : ℕ) → Keeps (read_more k a n)
  unfolding read_more
  Keeps-read_more n = search keeps_rules

  Keeps-decrypt : (n : ℕ) → Keeps (decrypt k a n)
  unfolding decrypt
  Keeps-decrypt n = search keeps_rules

  Keeps-copy_plain : (e n : ℕ) → Keeps (copy_plain k a e n)
  unfolding copy_plain
  Keeps-copy_plain e n = search keeps_rules

  Keeps-consume : (n m : ℕ) → Keeps (consume k a n m)
  unfolding consume
  Keeps-consume n m = search (keeps_rules, Keeps-decrypt, Keeps-copy_plain)

  Keeps-consume_from : (c : Option (k.CipherCtx)) (x y z : ℕ) → Keeps (consume_from k a c x y z)
  Keeps-consume_from none x y z = search keeps_rules
  Keeps-consume_from (some _) x y z = search (keeps_rules, Keeps-consume)

  Keeps-fill_buffer : (n m : ℕ) → Keeps (fill_buffer k a n m)
  unfolding fill_buffer
  Keeps-fill_buffer n m = search (keeps_rules, Keeps-read_more, Keeps-consume_from)

  Keeps-recv_header : Keeps (recv_header k a)
  unfolding recv_header
  Keeps-recv_header = search (keeps_rules, Keeps-fill_buffer)

  Keeps-take_packet : (n : ℕ) → Keeps (take_packet k a n)
  unfolding take_packet
  Keeps-take_packet n = search keeps_rules depth 12

  -- What `ssh_stream_recv_packet` has made sure of when it returns 0 under some settings.
  pub record Accepted (q : Settings) (s' : Stream k) : Type 0 where
    pub counted : s'.seq_num ≡ (q.seq_num + 1) % 2 ^ 32
    pub padded : padding_ok k a s'.pack q.block_len ≡ true
    pub authentic :
        (key : k.MacCtx)
        → q.mac ≡ some key
        → (digest : List ℕ) × (k.mac_compute key q.seq_num (contents s'.pack) ≡ ok digest)
          × (take q.mac_len digest ≡ take q.mac_len (drop s'.pack.len s'.pack.mem))

  verified :
      (t : Stream k)
      → verify_read_packet k a t ≡ ok tt
      → (padding_ok k a t.pack t.cipher_block_len ≡ true) × (verify_mac k a t t.mac ≡ ok tt)
  unfolding verify_read_packet
  verified t e = elim (Bool-cases (padding_ok k a t.pack t.cipher_block_len)) [
    | inl good ↦ (good, rw good at e)
    | inr bad ↦ cc (rw bad at e)
  ]

  matched :
      (t : Stream k) (r : Result (List ℕ))
      → check_digest k a t r ≡ ok tt
      → (digest : List ℕ) × (r ≡ ok digest)
        × (take t.mac_len digest ≡ take t.mac_len (drop t.pack.len t.pack.mem))
  matched t (fail e) h = cc
  matched t (ok digest) h = elim (Bool-cases (mac_matches k a t digest)) [
    | inl same ↦ (digest, refl, same_bytes→eq _ _ same)
    | inr differ ↦ cc (rw differ at h)
  ]

  kept :
      {A : Type 0} {m : Act (Stream k) A} {s t : Stream k} {r : Result A}
      → Keeps m
      → m s ≡ (r, t)
      → settings t ≡ settings s
  kept {s = s} keeps e = ap (λ (p : Result _ × Stream k). settings p.1) (sym e) ∙ keeps.at s

  -- The state after `accept`: the next sequence number.
  abbrev count : Stream k → Stream k
  count t = record t { seq_num = (t.seq_num + 1) % 2 ^ 32 }

  counted-Accepted :
      (t : Stream k) → verify_read_packet k a t ≡ ok tt → Accepted (settings t) (count t)
  counted-Accepted t good = record {
    counted = refl;
    padded = (verified t good).0;
    authentic = λ key e.
        matched t (k.mac_compute key t.seq_num (contents t.pack))
          (ap (verify_mac k a t) (sym e) ∙ (verified t good).1);
  }

  accept-Accepted : (t s' : Stream k) → accept k a t ≡ (ok tt, s') → Accepted (settings t) s'
  unfolding accept ◌>>=◌
  accept-Accepted t s' h = elim (Result-cases (verify_read_packet k a t)) [
    | inr (e, bad) ↦ absurd (failed_not_ok (rw bad at h))
    | inl (u, good) ↦
        subst (Accepted (settings t)) (ap (λ (p : Status × Stream k). p.1) (rw good at h))
          (counted-Accepted t good)
  ]

  recv_body-Accepted :
      (n : ℕ) (s s' : Stream k) → recv_body k a n s ≡ (ok tt, s') → Accepted (settings s) s'
  unfolding recv_body ◌>>=◌
  recv_body-Accepted n s s' h =
      let (u, s1, e1, h1) =
        >>=-eq-ok (fill_buffer k a n s.mac_len) (λ _. take_packet k a n >> accept k a) h in
      let (v, s2, e2, h2) = >>=-eq-ok (take_packet k a n) (λ _. accept k a) h1 in
      subst (λ q. Accepted q s')
        (kept (Keeps-take_packet n) e2 ∙ kept (Keeps-fill_buffer n s.mac_len) e1)
        (accept-Accepted s2 s' h2)

  -- A packet that `ssh_stream_recv_packet` returns has the right padding and, once a MAC is set,
  -- carries the MAC of the sequence number and its bytes; the sequence number goes up by one.
  pub recv_packet-Accepted :
      (s s' : Stream k) → recv_packet k a s ≡ (ok tt, s') → Accepted (settings s) s'
  unfolding recv_packet ◌>>=◌
  recv_packet-Accepted s s' h =
      let (u, s1, e1, h1) = >>=-eq-ok (recv_header k a) _ h in
      let n = get_u32 s1.buf.mem 0 in
      elim (Bool-cases (ltb n 12 || ltb max_packet_len n)) [
        | inl bad ↦ absurd (failed_not_ok (rw bad at h1))
        | inr good ↦
            subst (λ q. Accepted q s') (kept Keeps-recv_header e1)
              (recv_body-Accepted (n + 4) s1 s' (rw good at h1))
      ]
