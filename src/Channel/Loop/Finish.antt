-- ===== src/Channel/Loop/Finish.antt =====
-- How the loop over the channels ends.
use eessh.Prelude.{
  ℕ, ◌≡◌, refl, Bool, List, [], ◌∷◌, true, false, Bool-cases, inl, inr, Option, none, some, ok,
  fail, Status, modify, All,
}
use eessh.Buffer.{Allocator}
use eessh.Network.Connect.{Flags, set_sock_blocking}
use eessh.Stream.{Crypto, Stream}
use eessh.Channel.{Chan, is_closed, is_open, Seat}
use eessh.Channel.Dispatch.{Client, Conn, remove_closed_channels, close}
use eessh.Channel.Loop.{
  Turn, turn, remove_closed, after_turn, unless_done, loop, each_channel, close_all_channels,
  close_after, add_channels, run_connection,
}

module _ (k : Crypto) (a : Allocator) (fuel : ℕ) where
  -- An end of the loop without an error is one without channels.
  abbrev pub IsFinished : Option Status × Conn k → Type 0
  IsFinished (none, s) = Unit
  IsFinished (some (fail e), s) = Unit
  IsFinished (some (ok _), s) = s.channels ≡ []

  unless_done-IsFinished :
      (cs : List (Chan × Client k)) (s : Conn k) (next : Option Status × Conn k)
      → s.channels ≡ cs
      → IsFinished next
      → IsFinished (unless_done k a fuel cs s next)
  unless_done-IsFinished [] s next e n = e
  unless_done-IsFinished (c ∷ cs) s next e n = n

  after_turn-IsFinished :
      (r : Status) (s : Conn k) (go : Conn k → Option Status × Conn k)
      → IsFinished (go s)
      → IsFinished (after_turn k a fuel (r, s) go)
  after_turn-IsFinished (ok _) s go g = g
  after_turn-IsFinished (fail e) s go g = tt

  -- chan_loop returns success only when no channel is left, whatever signals, files and packets
  -- come; until then it waits or fails.
  pub loop-IsFinished :
      (sock : ℕ) (ts : List Turn) (s : Conn k) → IsFinished (loop k a fuel sock ts s)
  unfolding loop
  loop-IsFinished sock [] s = unless_done-IsFinished _ (remove_closed k a fuel s) _ refl tt
  loop-IsFinished sock (t ∷ ts) s =
      let (r, s') = turn k a fuel sock t (remove_closed k a fuel s) in
      unless_done-IsFinished _ (remove_closed k a fuel s) _ refl
        (after_turn-IsFinished r s' (loop k a fuel sock ts) (loop-IsFinished sock ts s'))

  abbrev AllClosed : List (Chan × Client k) → Type 0
  AllClosed cs = All (λ (p : Chan × Client k). is_closed p.0.status ≡ true) cs

  remove_closed-nil : (cs : List (Chan × Client k)) → AllClosed cs → remove_closed_channels cs ≡ []
  unfolding remove_closed_channels
  remove_closed-nil [] h = refl
  remove_closed-nil ((c, f) ∷ cs) h = rw (h.0) (remove_closed-nil cs h.1)

  -- chan_loop ends with success, at its next test and without another `poll`, once all channels
  -- are closed.
  pub loop_ends :
      (sock : ℕ) (ts : List Turn) (s : Conn k)
      → AllClosed s.channels
      → loop k a fuel sock ts s ≡ (some (ok tt), record s { channels = [] })
  unfolding loop
  loop_ends sock [] s h = rw (remove_closed-nil s.channels h) refl
  loop_ends sock (t ∷ ts) s h = rw (remove_closed-nil s.channels h) refl

  close-not_open : (f : Client k) (s : Seat k) → is_open (close k a f s).chan.status ≡ false
  unfolding close
  close-not_open f s = elim (Bool-cases (is_open s.chan.status)) [
    | inl open_ ↦ rw open_ refl
    | inr e ↦ rw (e, e) refl
  ]

  abbrev pub NoneOpen : List (Chan × Client k) → Type 0
  NoneOpen cs = All (λ (p : Chan × Client k). is_open p.0.status ≡ false) cs

  each_channel-NoneOpen :
      (cs : List (Chan × Client k)) (out : Stream k)
      → NoneOpen (each_channel k a fuel (λ f. modify (close k a f)) cs out).1
  unfolding each_channel
  each_channel-NoneOpen [] out = tt
  each_channel-NoneOpen ((c, f) ∷ cs) out =
      let s = close k a f (record { chan = c; out = out }) in
      (close-not_open f (record { chan = c; out = out }), each_channel-NoneOpen cs s.out)

  -- Neither open nor closed
  abbrev pub NoneActive : List (Chan × Client k) → Type 0
  NoneActive cs =
      All (λ (p : Chan × Client k). (is_open p.0.status ≡ false) × (is_closed p.0.status ≡ false))
        cs

  remove_closed-NoneActive :
      (cs : List (Chan × Client k)) → NoneOpen cs → NoneActive (remove_closed_channels cs)
  unfolding remove_closed_channels
  remove_closed-NoneActive [] h = tt
  remove_closed-NoneActive ((c, f) ∷ cs) h = elim (Bool-cases (is_closed c.status)) [
    | inl gone ↦ rw gone (remove_closed-NoneActive cs h.1)
    | inr live ↦ rw live ((h.0, live), remove_closed-NoneActive cs h.1)
  ]

  close_all-NoneActive : (s : Conn k) → NoneActive (close_all_channels k a fuel s).channels
  unfolding close_all_channels
  close_all-NoneActive s = remove_closed-NoneActive _ (each_channel-NoneOpen s.channels s.output)

  abbrev pub IsEnded : Option Status × Conn k → Type 0
  IsEnded (none, s) = Unit
  IsEnded (some r, s) = NoneActive s.channels

  close_after-IsEnded : (o : Option Status) (s : Conn k) → IsEnded (close_after k a fuel (o, s))
  close_after-IsEnded none s = tt
  close_after-IsEnded (some r) s = close_all-NoneActive s

  -- Once the socket does not block and the channels were requested, ssh_chan_run_connection leaves no channel open when it
  -- returns, with an error or without: a channel that is left in the table was never opened.
  pub run_connection-IsEnded :
      (chan_size sock : ℕ) (readable writable : Bool) (flags : Flags) (clients : List (Client k))
      (turns : List Turn) (s : Conn k)
      → (set_sock_blocking readable writable false flags).0 ≡ ok tt
      → (add_channels k a fuel chan_size clients s).0 ≡ ok tt
      → IsEnded (run_connection k a fuel chan_size sock readable writable flags clients turns s)
  unfolding run_connection
  run_connection-IsEnded chan_size sock readable writable flags clients turns s unblocked h =
      rw (unblocked, h)
        (let (o, c) = loop k a fuel sock turns (add_channels k a fuel chan_size clients s).1 in
          close_after-IsEnded o c)
