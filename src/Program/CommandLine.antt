-- ===== src/Program/CommandLine.antt =====
-- The first argument of the command line.
use eessh.Prelude.{
  ℕ, ◌+◌, ◌≤◌, ◌≡◌, ◌≢◌, refl, ap, List, [], ◌∷◌, ◌++◌, ◌⊎◌, inl, inr, Bool-cases, Option, none,
  some, ltb, ltb-false→le, ==→eq, ==-false→ne, ◌==◌, length, All, ok, ok_injective, fail,
  line_too_long, if◌then◌else◌, subst,
}
use eessh.Program.{
  Login, split_name, with_current_user, with_named_user, get_cmdline_username_server,
}

-- Where the first '@' stands
abbrev pub Split : List ℕ → Option (List ℕ × List ℕ) → Type 0
Split arg none = All (λ c. c ≢ b'@') arg
Split arg (some (user, host)) = (arg ≡ user ++ b'@' ∷ host) × All (λ c. c ≢ b'@') user

split_name-Split : (arg : List ℕ) → Split arg (split_name arg)
split_name-Split [] = tt
split_name-Split (c ∷ cs) = elim (Bool-cases (c == b'@')) [
  | inl at ↦ rw at (ap (λ x. x ∷ cs) (==→eq c b'@' at), tt)
  | inr other ↦ rw other (later (split_name cs) (split_name-Split cs) (==-false→ne c b'@' other))
]
  where
    later :
        (o : Option (List ℕ × List ℕ))
        → Split cs o
        → c ≢ b'@'
        → Split (c ∷ cs) (elim o [ none ↦ none | some (user, host) ↦ some (c ∷ user, host) ])
    later none h n = (n, h)
    later (some (user, host)) h n = (ap (λ xs. c ∷ xs) h.0, (n, h.1))

-- What the arrays hold when the argument was taken apart.
pub record Named (username_len server_len : ℕ) (pw_name : Option (List ℕ)) (arg : List ℕ)
    (login : Login) : Type 0 where
  pub fits : (length login.username + 1 ≤ username_len) × (length login.server + 1 ≤ server_len)
  pub parts :
      ((arg ≡ login.username ++ b'@' ∷ login.server) × All (λ c. c ≢ b'@') login.username)
      ⊎ (All (λ c. c ≢ b'@') arg × (pw_name ≡ some login.username) × (login.server ≡ arg))

module _ (username_len server_len : ℕ) where
  checked :
      (user server : List ℕ) {login : Login}
      → (if ltb username_len (length user + 1)
          then fail line_too_long
          else if ltb server_len (length server + 1)
          then fail line_too_long
          else ok (record { username = user; server = server }))
        ≡ ok login
      → ((length user + 1 ≤ username_len) × (length server + 1 ≤ server_len))
        × (record { username = user; server = server } ≡ login)
  checked user server h = elim (Bool-cases (ltb username_len (length user + 1))) [
    | inl long ↦ cc (rw long at h)
    | inr short ↦ elim (Bool-cases (ltb server_len (length server + 1))) [
      | inl long ↦ cc (rw (short, long) at h)
      | inr also ↦
          ((ltb-false→le _ _ short, ltb-false→le _ _ also), ok_injective (rw (short, also) at h))
    ]
  ]

  current-Named :
      (pw_name : Option (List ℕ)) (arg : List ℕ) {login : Login}
      → All (λ c. c ≢ b'@') arg
      → with_current_user username_len server_len pw_name arg ≡ ok login
      → Named username_len server_len pw_name arg login
  current-Named none arg n h = cc
  current-Named (some pw_name) arg n h =
      let (fits, e) = checked pw_name arg h in
      subst (Named username_len server_len (some pw_name) arg) e
        (record { fits = fits; parts = inr (n, refl, refl) })

  -- When get_cmdline_username_server succeeds, both names fit into their arrays with a terminator;
  -- they are what stands in front of the argument's first '@' and behind it, or, if there is none,
  -- the current user's name and the whole argument.
  pub get_cmdline_username_server-Named :
      (pw_name : Option (List ℕ)) (arg : List ℕ) (login : Login)
      → get_cmdline_username_server username_len server_len pw_name arg ≡ ok login
      → Named username_len server_len pw_name arg login
  unfolding get_cmdline_username_server
  get_cmdline_username_server-Named pw_name arg login h =
      by_split (split_name arg) (split_name-Split arg) h
    where
      by_split :
          (o : Option (List ℕ × List ℕ))
          → Split arg o
          → elim o [
            | none ↦ with_current_user username_len server_len pw_name arg
            | some (user, host) ↦ with_named_user username_len server_len user host
          ]
            ≡ ok login
          → Named username_len server_len pw_name arg login
      by_split none n e = current-Named pw_name arg n e
      by_split (some (user, host)) s e =
          let (fits, same) = checked user host e in
          subst (Named username_len server_len pw_name arg) same
            (record { fits = fits; parts = inl s })
