-- ===== src/Channel/Number.antt =====
-- The number that chan_new gives to a channel, and the fuel that its search needs.
use eessh.Prelude.{
  ℕ, suc, ◌<◌, ◌≡◌, List, [], ◌∷◌, drop, Bool, true, false, leb, ◌==◌, ◌||◌, if◌then◌else◌,
}
use eessh.Channel.{Chan}

-- Is there a channel with this number?
abbrev pub has : ℕ → List Chan → Bool
has n [] = false
has n (c ∷ cs) = let rest = has n cs in c.local_num == n || rest

-- How many channels have this number or a larger one
abbrev above : ℕ → List Chan → ℕ
above n [] = 0
above n (c ∷ cs) = let rest = above n cs in if leb n c.local_num then suc rest else rest

-- The number of a new channel: no channel behind the first has it, and all smaller ones are taken.
pub record Fits (all : List Chan) (n : ℕ) : Type 0 where
  pub free : has n (drop 1 all) ≡ false
  pub least : (m : ℕ) → m < n → has m all ≡ true

-- The search with the channels `todo` in front of it
record Searches (all todo : List Chan) (n : ℕ) : Type 0 where
  seen : has n (drop 1 all) ≡ true → has n todo ≡ true
  inside : (m : ℕ) → has m todo ≡ true → has m all ≡ true
  below : (m : ℕ) → m < n → has m all ≡ true
