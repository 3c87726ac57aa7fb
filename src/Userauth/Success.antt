-- ===== src/Userauth/Success.antt =====
-- When user authentication succeeds.
use eessh.Prelude.{
  ℕ, zero, suc, ◌+◌, ◌≡◌, refl, sym, ◌∙◌, ap, subst, List, true, false, ◌==◌, ==→eq, Bool-cases,
  inl, inr, Option, none, some, Option-cases, Result, ok, fail, >>=-eq-ok, failed_not_ok,
}
use eessh.Buffer.{Allocator}
use eessh.Reader.{Reader, read_u8}
use eessh.Stream.{Crypto, Stream}
use eessh.Stream.Receive.{recv_packet}
use eessh.Connection.{
  Peer, packet_type, last_packet, receive, is_ignored, receive_skip_ignore, on_input, send,
}
use eessh.Constants.{msg_disconnect, msg_userauth_success, msg_userauth_failure}
use eessh.Userauth.{
  AuthResult, failure, is_success, failure_of, init, read_response, try_password, try_passwords,
  method_password, method_none, run_none, run_with, run, max_password_tries,
}

module _ {S A : Type 0} where
  -- An action that succeeded returned this value in this state.
  pure_ok : {x y : A} {s t : S} → ◌≡◌ {A = Result A × S} (ok x, s) (ok y, t) → (x ≡ y) × (s ≡ t)
  pure_ok {x} {y} {s} {t} h =
      (value_of (ap (λ (p : Result A × S). p.0) h), ap (λ (p : Result A × S). p.1) h)
    where
      value_of : ◌≡◌ {A = Result A} (ok x) (ok y) → x ≡ y
      value_of q = cc

module _ (k : Crypto) (a : Allocator) (fuel : ℕ) where
  receive-last :
      (s s' : Stream k) (r : Reader) → receive k a s ≡ (ok r, s') → r ≡ last_packet k a s'
  unfolding receive
  receive-last s s' r h =
      let (u, t, e, g) = >>=-eq-ok (recv_packet k a) _ h in
      sym (pure_ok g).0 ∙ ap (last_packet k a) (pure_ok g).1

  skip-last :
      (n : ℕ) (s s' : Stream k) (r : Reader)
      → receive_skip_ignore k a n s ≡ (ok r, s')
      → r ≡ last_packet k a s'
  unfolding receive_skip_ignore
  skip-last zero s s' r h = absurd (failed_not_ok h)
  skip-last (suc n) s s' r h =
      let (q, t, e, g) = >>=-eq-ok (receive k a) _ h in
      elim (Bool-cases (is_ignored k a (packet_type q))) [
        | inl ignored ↦ skip-last n t s' r (rw ignored at g)
        | inr kept ↦ elim (Bool-cases (packet_type q == msg_disconnect)) [
          | inl gone ↦ absurd (failed_not_ok (rw (kept, gone) at g))
          | inr good ↦
              let p = pure_ok (rw (kept, good) at g) in
              sym p.0 ∙ receive-last s t q e ∙ ap (last_packet k a) p.1
        ]
      ]

  -- The last packet that came is SSH_MSG_USERAUTH_SUCCESS.
  abbrev pub IsGranted : Peer k → Type 0
  IsGranted s = packet_type (last_packet k a s.input) ≡ msg_userauth_success

  not_success :
      (r : Result ℕ) {s t : Peer k} {q : AuthResult}
      → ◌≡◌ {A = Result AuthResult × Peer k} (failure_of r, s) (ok q, t)
      → is_success q ≡ false
  not_success (fail e) h = absurd (failed_not_ok h)
  not_success (ok n) h = elim (Bool-cases (n == 0)) [
    | inl zero_byte ↦ ap is_success (sym (pure_ok (rw zero_byte at h)).0)
    | inr other ↦ ap is_success (sym (pure_ok (rw other at h)).0)
  ]

module _ (k : Crypto) (a : Allocator) (fuel : ℕ) (username : List ℕ) where
  response-IsGranted :
      (s s' : Peer k) (q : AuthResult)
      → read_response k a fuel username s ≡ (ok q, s')
      → is_success q ≡ true
      → IsGranted k a fuel s'
  unfolding read_response
  response-IsGranted s s' q h good =
      let (r, t, e, g) = >>=-eq-ok (on_input k a (receive_skip_ignore k a fuel)) _ h in
      let last =
        skip-last k a fuel fuel s.input t.input r
          (ap (λ (p : Result Reader × Peer k). (p.0, p.1.input)) e) in
      elim (Bool-cases (packet_type r == msg_userauth_success)) [
        | inl is_granted ↦
            let p = pure_ok (rw is_granted at g) in
            ap (λ (u : Peer k). packet_type (last_packet k a u.input)) (sym p.1)
            ∙ ap packet_type (sym last)
            ∙ ==→eq _ _ is_granted
        | inr is_not ↦ elim (Bool-cases (packet_type r == msg_userauth_failure)) [
          | inl failed ↦ cc (not_success k a fuel (read_u8 r).0 (rw (is_not, failed) at g), good)
          | inr other ↦ absurd (failed_not_ok (rw (is_not, other) at g))
        ]
      ]

  try_password-IsGranted :
      (password : List ℕ) (s s' : Peer k) (q : AuthResult)
      → try_password k a fuel username password s ≡ (ok q, s')
      → is_success q ≡ true
      → IsGranted k a fuel s'
  unfolding try_password
  try_password-IsGranted password s s' q h good =
      let (u, t, e, g) = >>=-eq-ok (send k a _) _ h in response-IsGranted t s' q g good

  tries-IsGranted :
      (reader : ℕ → Option (List ℕ)) (left num_tries : ℕ) (result : AuthResult) (s s' : Peer k)
      (q : AuthResult)
      → is_success result ≡ false
      → try_passwords k a fuel username reader left num_tries result s ≡ (ok q, s')
      → is_success q ≡ true
      → IsGranted k a fuel s'
  unfolding try_passwords
  tries-IsGranted reader zero num_tries result s s' q bad h good =
      cc (ap is_success (pure_ok h).0, bad, good)
  tries-IsGranted reader (suc left) num_tries result s s' q bad h good =
      elim (Option-cases (reader num_tries)) [
        | inl stop ↦ cc (ap is_success (pure_ok (rw (stop, try_passwords) at h)).0, good)
        | inr (password, given) ↦
            let (q', t, e, g) =
              >>=-eq-ok (try_password k a fuel username password) _
                (rw (given, try_passwords) at h) in
            elim (Bool-cases (is_success q')) [
              | inl granted ↦
                  subst (IsGranted k a fuel) (pure_ok (rw granted at g)).1
                    (try_password-IsGranted password s t q' e granted)
              | inr denied ↦
                  tries-IsGranted reader left (num_tries + 1) q' t s' q denied (rw denied at g) good
            ]
      ]

  none-IsGranted :
      (s s' : Peer k) → run_none k a fuel username s ≡ (ok tt, s') → IsGranted k a fuel s'
  unfolding run_none method_none
  none-IsGranted s s' h =
      let (q, t, e, g) = >>=-eq-ok (method_none k a fuel username) _ h in
      let (u, t', e', g') = >>=-eq-ok (send k a _) _ e in
      elim (Bool-cases (is_success q)) [
        | inl granted ↦
            subst (IsGranted k a fuel) (pure_ok (rw granted at g)).1
              (response-IsGranted t' t q g' granted)
        | inr denied ↦ absurd (failed_not_ok (rw denied at g))
      ]

  with-IsGranted :
      (reader : Option (ℕ → Option (List ℕ))) (s s' : Peer k)
      → run_with k a fuel username reader s ≡ (ok tt, s')
      → IsGranted k a fuel s'
  unfolding method_password
  with-IsGranted none s s' h = none-IsGranted s s' h
  with-IsGranted (some reader) s s' h =
      let (q, t, e, g) = >>=-eq-ok (method_password k a fuel username reader) _ h in
      elim (Bool-cases (is_success q)) [
        | inl granted ↦
            subst (IsGranted k a fuel) (pure_ok (rw granted at g)).1
              (tries-IsGranted reader max_password_tries 0 failure s t q refl e granted)
        | inr denied ↦ none-IsGranted t s' (rw denied at g)
      ]

  -- ssh_userauth_run succeeds only if the last packet from the server, beside those that are
  -- skipped, is SSH_MSG_USERAUTH_SUCCESS.
  pub run-IsGranted :
      (reader : Option (ℕ → Option (List ℕ))) (s s' : Peer k)
      → run k a fuel username reader s ≡ (ok tt, s')
      → IsGranted k a fuel s'
  unfolding run
  run-IsGranted reader s s' h =
      let (u, t, e, g) = >>=-eq-ok (init k a fuel username) _ h in with-IsGranted reader t s' g
