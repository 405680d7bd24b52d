-- ===== src/EventLoop/Rounds.antt =====
-- What one round of `EventLoop::wait_next_event` does with its rules.
use cpp_tcp.Common.{
  ℕ, ◌≡◌, refl, ap, Bool, Result, true, false, ◌&&◌, not, List, [], ◌∷◌, Option, none, some, map,
  if◌then◌else◌, ok, err, Error, ◌>>=◌,
}
use cpp_tcp.EventLoop.{
  Direction, inward, outward, FdState, Request, Revents, Polled, broken, LoopResult, success, ready,
  asked, no_events, Rule, Prepared, prepare, serve, keep, dispatch, wait_next_event,
}

module _ (World : Type 0) (state_of : World → ℕ → FdState) where
  -- The rules of the entries.
  abbrev pub rules_of : List (Rule World state_of × Request) → List (Rule World state_of)
  rules_of entries = map (λ (e : Rule World state_of × Request). e.0) entries

  -- The descriptor hung up, and the event that was asked for cannot come.
  abbrev pub hung_up : Request → Revents → Bool
  hung_up asks now = now.hup && asked asks.events && not (ready asks.events now)

  -- The rules that a round keeps: all but those whose descriptors hung up.
  abbrev pub survivors :
      List (Rule World state_of × Request) → List Revents → List (Rule World state_of)
  survivors [] found = []
  survivors (entry ∷ entries) [] = []
  survivors ((r, asks) ∷ entries) (now ∷ found) =
      let rest = survivors entries found in if hung_up asks now then rest else r ∷ rest

  -- What one rule does in a round: an error throws, a rule whose descriptor hung up is cancelled, one
  -- that is ready is served once, and any other is left alone.
  abbrev pub effect : Rule World state_of → Request → Revents → World → Result World
  effect r asks now w =
      let served = serve World state_of w r in
      let other = if ready asks.events now then served else ok w in
      let cancelled = r.cancel w in
      if now.failed then err Error.runtime_error else if hung_up asks now then cancelled else other

  -- The effects of the rules, one after the other.
  abbrev pub effects : List (Rule World state_of × Request) → List Revents → World → Result World
  effects [] found w = ok w
  effects (entry ∷ entries) [] w = err Error.undefined
  effects ((r, asks) ∷ entries) (now ∷ found) w = effect r asks now w >>= effects entries found

  abbrev answered :
      World × List (Rule World state_of) → Result (LoopResult × World × List (Rule World state_of))
  answered out = ok (success, out.0, out.1)

  ready-quiet : (events : Option Direction) → ready events no_events ≡ false
  ready-quiet none = refl
  ready-quiet (some inward) = refl
  ready-quiet (some outward) = refl

  dispatch-quiet :
      (w : World) (entries : List (Rule World state_of × Request))
      → dispatch World state_of w entries
          (map (λ (e : Rule World state_of × Request). no_events) entries)
        ≡ ok (w, rules_of entries)
  unfolding dispatch
  dispatch-quiet w [] = refl
  dispatch-quiet w ((r, asks) ∷ entries) =
      simp (ready-quiet asks.events)
        (ap (λ m. m >>= λ out. ok (keep World state_of r out)) (dispatch-quiet w entries))

  -- An error of `poll` other than a signal is lost: the round then returns `success`, having called no
  -- callback.
  pub poll_error_lost :
      (w : World) (rules : List (Rule World state_of)) (p : Prepared World state_of)
      (poll : List Request → Polled)
      → prepare World state_of w rules ≡ ok p
      → p.something_to_poll ≡ true
      → poll (map (λ (e : Rule World state_of × Request). e.1) p.rules) ≡ broken
      → wait_next_event World state_of w rules poll ≡ ok (success, p.world, rules_of p.rules)
  unfolding wait_next_event
  poll_error_lost w rules p poll prepared some_rule error = rw prepared (
      simp (some_rule, error)
        (ap (λ m. m >>= λ out. ok (success, out.0, out.1)) (dispatch-quiet p.world p.rules)))
