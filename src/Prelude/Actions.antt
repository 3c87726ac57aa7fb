-- ===== src/Prelude/Actions.antt =====
-- Functions that change a structure through a pointer and may return -1. What was written before
-- the failure stays written, so the structure comes back beside the error too.
use mathlib.Core.Path.{◌≡◌, refl, ap}
use mathlib.Core.Logic.{◌⊎◌, inl, inr}

-- The message that `ssh_set_error` leaves, or the `errno` that a caller tests.
pub data Error : Type 0 where
  too_large : Error
  read_too_large : Error
  past_end : Error
  bad_seek : Error
  bad_remove : Error
  out_of_memory : Error
  no_shared_algorithms : Error
  bad_algorithm : Error
  bad_packet_size : Error
  bad_padding : Error
  bad_mac : Error
  would_block : Error
  net_failure : Error
  crypto_failure : Error
  unexpected_packet : Error
  disconnected : Error
  bad_version : Error
  line_too_long : Error
  unknown_channel : Error
  too_many_fds : Error
  callback_failed : Error
  auth_failure : Error
  io_error : Error
  bad_signature : Error
  bad_identity_error : Error

pub data Result {ℓ} (A : Type ℓ) : Type ℓ where
  ok : A → Result A
  fail : Error → Result A

abbrev pub Act {ℓ} : Type ℓ → Type ℓ → Type ℓ
Act S A = S → Result A × S

module _ {ℓ} {S A : Type ℓ} where
  abbrev pub pure : A → Act S A
  pure a s = (ok a, s)

  abbrev pub raise : Error → Act S A
  raise e s = (fail e, s)

  abbrev pub lift : Result A → Act S A
  lift r s = (r, s)

  abbrev pub gets : (S → A) → Act S A
  gets f s = (ok (f s), s)

abbrev pub modify {ℓ} : {S : Type ℓ} → (S → S) → Act S (Unit {ℓ})
modify f s = (ok tt, f s)

module _ {ℓ} {S A B : Type ℓ} where
  -- What follows a call that has returned: nothing more after a failure.
  abbrev pub proceed : Result A → S → (A → Act S B) → Result B × S
  proceed (ok a) s f = f a s
  proceed (fail e) s f = (fail e, s)

  infixl 5 ◌>>=◌ ◌>>◌
  unfoldable pub ◌>>=◌ : Act S A → (A → Act S B) → Act S B
  ◌>>=◌ m f s = let (r, s') = m s in proceed r s' f

  abbrev pub ◌>>◌ : Act S A → Act S B → Act S B
  m >> n = m >>= λ _. n

pub Result-cases {ℓ} :
    {A : Type ℓ} (r : Result A) → ((a : A) × (r ≡ ok a)) ⊎ ((e : Error) × (r ≡ fail e))
Result-cases (ok a) = inl (a, refl)
Result-cases (fail e) = inr (e, refl)

-- The result of a function that returns 0 or -1.
abbrev pub Status : Type 0
Status = Result (Unit {0})

pub ok_injective {ℓ} : {A : Type ℓ} {a b : A} → ok a ≡ ok b → a ≡ b
ok_injective e = cc

-- A chain that succeeds has a first call that succeeds, and the rest succeeds on what it left.
module _ {ℓ} {S A B : Type ℓ} where
  pub proceed-ok :
      (r : Result A) (s : S) (f : A → Act S B) {b : B} {s' : S}
      → proceed r s f ≡ (ok b, s')
      → (a : A) × (r ≡ ok a) × (f a s ≡ (ok b, s'))
  proceed-ok (ok a) s f h = (a, refl, h)
  proceed-ok (fail e) s f h = absurd (fail≢ok (ap (λ (p : Result B × S). p.0) h))
    where
      fail≢ok : {b : B} → fail e ≡ ok b → ⊥
      fail≢ok q = cc

  pub >>=-eq-ok :
      (m : Act S A) (f : A → Act S B) {s : S} {b : B} {s' : S}
      → (m >>= f) s ≡ (ok b, s')
      → (a : A) × (t : S) × (m s ≡ (ok a, t)) × (f a t ≡ (ok b, s'))
  unfolding ◌>>=◌
  >>=-eq-ok m f {s} h =
      let (a, e, g) = proceed-ok (m s).0 (m s).1 f h in (a, (m s).1, (λ i. (e i, (m s).1)), g)

-- The same for calls that leave the structure as it is.
module _ {ℓ} {S A B : Type ℓ} where
  pub lift-step :
      (r : Result A) (f : A → Act S B) (s : S) {b : B} {s' : S}
      → (lift r >>= f) s ≡ (ok b, s')
      → (x : A) × (r ≡ ok x) × (f x s ≡ (ok b, s'))
  unfolding ◌>>=◌
  lift-step r f s h = proceed-ok _ _ f h

  pub gets-step :
      (g : S → A) (f : A → Act S B) (s : S) {b : B} {s' : S}
      → (gets g >>= f) s ≡ (ok b, s')
      → f (g s) s ≡ (ok b, s')
  unfolding ◌>>=◌
  gets-step g f s h = h

module _ {S B : Type 0} where
  pub check-step :
      (r : Status) (n : Act S B) (s : S) {b : B} {s' : S}
      → (lift r >> n) s ≡ (ok b, s')
      → (r ≡ ok tt) × (n s ≡ (ok b, s'))
  unfolding ◌>>=◌
  check-step r n s h = let (x, e, g) = proceed-ok _ _ _ h in (e, g)

pub failed_not_ok {ℓ} :
    {S A : Type ℓ} {e : Error} {a : A} {s t : S} → ◌≡◌ {A = Result A × S} (fail e, s) (ok a, t) → ⊥
failed_not_ok {S} {A} {e} {a} h = not_ok (ap (λ (p : Result A × S). p.0) h)
  where
    not_ok : ◌≡◌ {A = Result A} (fail e) (ok a) → ⊥
    not_ok q = cc

-- What holds after each success of an action; a chain that succeeds ends with a call that does.
pub record Ensures {S A : Type 0} (P : A → S → Type 0) (m : Act S A) : Type 0 where
  pub after : (s s' : S) (x : A) → m s ≡ (ok x, s') → P x s'

pub >>=-Ensures :
    {S A B : Type 0} {P : B → S → Type 0} (m : Act S A) (f : A → Act S B)
    → ((x : A) → Ensures P (f x))
    → Ensures P (m >>= f)
>>=-Ensures m f h = record {
  after = λ s s' b e. let (x, t, e', g) = >>=-eq-ok m f e in (h x).after t s' b g;
}
