-- ===== src/Kex/Dh/Finish.antt =====
-- What ssh_kex_finish leaves of an exchange.
use eessh.Prelude.{
  ℕ, ◌≡◌, ◌≢◌, refl, sym, ◌∙◌, ap, subst, arith, ==→eq, List, [], ◌∷◌, Bool, true, false, ◌==◌,
  if◌then◌else◌, length, Bool-cases, inl, inr, Result, ok, fail, Status, Error, Act, pure, raise,
  lift, gets, ◌>>=◌, ◌>>◌, >>=-eq-ok, failed_not_ok, proceed, unexpected_packet,
}
use eessh.Buffer.{Allocator}
use eessh.Stream.{Crypto, Stream}
use eessh.Connection.{Peer}
use eessh.Kex.Exchange.{
  Primitives, Kex, Exchange, on_peer, set_session_id, exchange_newkeys_msg, generate_keys, finish,
  derive, on_output_stream, on_input_stream,
}
use eessh.Kex.Dh.{Identity}

module _ (k : Crypto) (a : Allocator) (p : Primitives k) (fuel beyond : ℕ) (id : Identity) where
  -- An action that leaves the exchange's record and the session id alone.
  pub record IsFrame {A : Type 0} (m : Act (Exchange k) A) : Type 0 where
    pub keeps : (s : Exchange k) → ((m s).1.kex ≡ s.kex) × ((m s).1.session_id ≡ s.session_id)

  pub proceed-IsFrame :
      {A B : Type 0} (r : Result A) (f : A → Act (Exchange k) B) (s t : Exchange k)
      → (t.kex ≡ s.kex) × (t.session_id ≡ s.session_id)
      → ((x : A) → IsFrame (f x))
      → ((proceed r t f).1.kex ≡ s.kex) × ((proceed r t f).1.session_id ≡ s.session_id)
  proceed-IsFrame (ok x) f s t h hf = (((hf x).keeps t).0 ∙ h.0, ((hf x).keeps t).1 ∙ h.1)
  proceed-IsFrame (fail e) f s t h hf = h

  pub >>=-IsFrame :
      {A B : Type 0} (m : Act (Exchange k) A) (f : A → Act (Exchange k) B)
      → IsFrame m
      → ((x : A) → IsFrame (f x))
      → IsFrame (m >>= f)
  unfolding ◌>>=◌
  >>=-IsFrame m f hm hf = record {
    keeps = λ s. proceed-IsFrame (m s).0 f s (m s).1 (hm.keeps s) hf;
  }

  pub gets-IsFrame : {A : Type 0} (f : Exchange k → A) → IsFrame (gets f)
  gets-IsFrame f = record { keeps = λ s. (refl, refl) }

  pub lift-IsFrame : {A : Type 0} (r : Result A) → IsFrame (lift r)
  lift-IsFrame r = record { keeps = λ s. (refl, refl) }

  pub raise-IsFrame : {A : Type 0} (e : Error) → IsFrame (raise {A = A} e)
  raise-IsFrame e = record { keeps = λ s. (refl, refl) }

  pub on_peer-IsFrame : {A : Type 0} (m : Act (Peer k) A) → IsFrame (on_peer k a p fuel m)
  on_peer-IsFrame m = record { keeps = λ s. (refl, refl) }

  on_output_stream-IsFrame :
      {A : Type 0} (m : Act (Stream k) A) → IsFrame (on_output_stream k a p fuel m)
  on_output_stream-IsFrame m = record { keeps = λ s. (refl, refl) }

  on_input_stream-IsFrame :
      {A : Type 0} (m : Act (Stream k) A) → IsFrame (on_input_stream k a p fuel m)
  on_input_stream-IsFrame m = record { keeps = λ s. (refl, refl) }

  derive-IsFrame : (len key_id : ℕ) → IsFrame (derive k a p fuel len key_id)
  derive-IsFrame len key_id = record { keeps = λ s. (refl, refl) }

  newkeys_answer : (b : Bool) → IsFrame (if b then pure tt else raise unexpected_packet)
  newkeys_answer true = record { keeps = λ s. (refl, refl) }
  newkeys_answer false = raise-IsFrame unexpected_packet

  newkeys-IsFrame : IsFrame (exchange_newkeys_msg k a p fuel)
  unfolding exchange_newkeys_msg
  newkeys-IsFrame = search (>>=-IsFrame, on_peer-IsFrame, newkeys_answer) depth 8

  keys-IsFrame : IsFrame (generate_keys k a p fuel)
  unfolding generate_keys
  keys-IsFrame =
      search
        (
          >>=-IsFrame, gets-IsFrame, lift-IsFrame, derive-IsFrame, on_output_stream-IsFrame,
          on_input_stream-IsFrame,
        )
        depth 24

  -- The session id is set once: it stays if there is one, and else it becomes the exchange hash.
  abbrev pub IsSetOnce : List ℕ → List ℕ → List ℕ → Type 0
  IsSetOnce exchange_hash before after =
      (before ≡ [] → after ≡ exchange_hash) × (before ≢ [] → after ≡ before)

  nothing_left : (xs : List ℕ) → (length xs == 0) ≡ true → xs ≡ []
  nothing_left [] h = refl
  nothing_left (x ∷ xs) h = absurd (omega (arith, ==→eq (length (x ∷ xs)) 0 h))

  set_session_id-IsSetOnce :
      (exchange_hash : List ℕ) (s : Exchange k) {x : Unit {0}} {t : Exchange k}
      → set_session_id k a p fuel exchange_hash s ≡ (ok x, t)
      → (t.kex ≡ s.kex) × IsSetOnce exchange_hash s.session_id t.session_id
  set_session_id-IsSetOnce exchange_hash s h = elim (Bool-cases (length s.session_id == 0)) [
    | inr later ↦ (
      ap (λ (q : Exchange k). q.kex) (sym (left_of (rw later at h))),
      (
        λ e. cc (ap (λ xs. length xs == 0) e, later),
        λ n. ap (λ (q : Exchange k). q.session_id) (sym (left_of (rw later at h))),
      ),
    )
    | inl first ↦ elim (Bool-cases (a.grants (length exchange_hash))) [
      | inr refused ↦ absurd (failed_not_ok (rw (first, refused) at h))
      | inl granted ↦ (
        ap (λ (q : Exchange k). q.kex) (sym (left_of (rw (first, granted) at h))),
        (
          λ e. ap (λ (q : Exchange k). q.session_id) (sym (left_of (rw (first, granted) at h))),
          λ n. absurd (n (nothing_left s.session_id first)),
        ),
      )
    ]
  ]
    where
      left_of :
          {u v : Exchange k} {x y : Unit {0}}
          → ◌≡◌ {A = Status × Exchange k} (ok x, u) (ok y, v)
          → u ≡ v
      left_of e = ap (λ (q : Status × Exchange k). q.1) e

  end-IsFrame : IsFrame (exchange_newkeys_msg k a p fuel >> generate_keys k a p fuel)
  end-IsFrame = >>=-IsFrame _ _ newkeys-IsFrame (λ _. keys-IsFrame)

  -- What ssh_kex_finish leaves when it succeeds
  pub finish-stored :
      (shared_secret exchange_hash : List ℕ) (s : Exchange k) {s' : Exchange k}
      → finish k a p fuel shared_secret exchange_hash s ≡ (ok tt, s')
      → (s'.kex ≡ record s.kex { shared_secret = shared_secret; exchange_hash = exchange_hash })
        × IsSetOnce exchange_hash s.session_id s'.session_id
  unfolding finish ◌>>=◌
  finish-stored shared_secret exchange_hash s {s'} h =
      let (x, t, e, g) = >>=-eq-ok (set_session_id k a p fuel exchange_hash) _ h in
      let first = set_session_id-IsSetOnce exchange_hash s e in
      let u = record t {
        kex = record t.kex { shared_secret = shared_secret; exchange_hash = exchange_hash };
      } in
      let kept = end-IsFrame.keeps u in
      let last = ap (λ (q : Status × Exchange k). q.1) g in
      (
        ap (λ (q : Exchange k). q.kex) (sym last)
            ∙ kept.0
            ∙ ap
                (λ (q : Kex). record q {
                  shared_secret = shared_secret;
                  exchange_hash = exchange_hash;
                })
                first.0,
        subst (IsSetOnce exchange_hash s.session_id)
            (sym (ap (λ (q : Exchange k). q.session_id) (sym last) ∙ kept.1)) first.1,
      )
