-- ===== src/EventLoop/Quiet.antt =====
-- When a round of the event loop comes back with `Exit`: no rule is interested, or a signal came.
use cpp_tcp.Common.{
  ℕ, ◌≡◌, ◌≢◌, refl, ap, Bool, true, false, ◌||◌, ◌&&◌, ◌==◌, ◌>>=◌, err, Error, not, List, [], ◌∷◌,
  ◌++◌, map, some, none, if◌then◌else◌, ok, All, IfReturns, IfReturns-bind, Bool-cases, inl, inr,
}
use cpp_tcp.EventLoop.{
  FdState, Request, Polled, timed_out, interrupted, broken, events_of, Revents, outward, LoopResult,
  success, exit, is_exit, asked, Rule, Prepared, defunct, request, prepare, dispatch, after_poll,
  wait_next_event,
}
use cpp_tcp.EventLoop.Rounds.{rules_of}

-- `poll` finds that everything can be written to, and nothing else.
abbrev pub can_write : Revents
can_write = record { readable = false; writable = true; failed = false; hup = false }

abbrev pub writable_only : List Request → Polled
writable_only asks = events_of (map (λ (a : Request). can_write) asks)

module _ (World : Type 0) (state_of : World → ℕ → FdState) where
  -- Some rule is interested.
  abbrev pub some_interest : World → List (Rule World state_of) → Bool
  some_interest w [] = false
  some_interest w (r ∷ rules) = r.interest w || some_interest w rules

  -- The rule is not cancelled.
  abbrev pub IsLive : World → Rule World state_of → Type 0
  IsLive w r = defunct World state_of w r ≡ false

  abbrev entries : World → List (Rule World state_of) → List (Rule World state_of × Request)
  entries w rules = map (λ (r : Rule World state_of). (r, request World state_of w r)) rules

  rules_of-entries :
      (w : World) (rules : List (Rule World state_of))
      → rules_of World state_of (entries w rules) ≡ rules
  rules_of-entries w [] = refl
  rules_of-entries w (r ∷ rules) = ap (λ rs. r ∷ rs) (rules_of-entries w rules)

  asked-request :
      (w : World) (r : Rule World state_of)
      → asked (request World state_of w r).events ≡ r.interest w
  asked-request w r = interested (r.interest w)
    where
      interested : (b : Bool) → asked (if b then some r.direction else none) ≡ b
      interested true = refl
      interested false = refl

  abbrev all_kept : World → List (Rule World state_of) → Prepared World state_of
  all_kept w rules = record {
    world = w;
    rules = entries w rules;
    something_to_poll = some_interest w rules;
  }

  -- The first loop leaves out no rule that is live.
  prepare_live :
      (w : World) (rules : List (Rule World state_of))
      → All (IsLive w) rules
      → prepare World state_of w rules ≡ ok (all_kept w rules)
  unfolding prepare
  prepare_live w [] live = refl
  prepare_live w (r ∷ rules) live = rw (live.0, prepare_live w rules live.1, asked-request w r) refl

  -- With live rules of which none is interested, a round exits without a call of `poll`.
  pub quiet_exits :
      (w : World) (rules : List (Rule World state_of)) (poll : List Request → Polled)
      → All (IsLive w) rules
      → some_interest w rules ≡ false
      → wait_next_event World state_of w rules poll ≡ ok (exit, w, rules)
  unfolding wait_next_event
  quiet_exits w rules poll live quiet =
      rw (prepare_live w rules live, quiet, rules_of-entries w rules) refl

  pub unwanted :
      (w : World) (rules : List (Rule World state_of))
      → All (λ (r : Rule World state_of). r.interest w ≡ false) rules
      → some_interest w rules ≡ false
  unwanted w [] none_wants = refl
  unwanted w (r ∷ rules) none_wants = rw (none_wants.0) (unwanted w rules none_wants.1)

  -- How a round ends if it exits just when no rule is interested.
  abbrev pub ExitsUnless : Bool → LoopResult × World × List (Rule World state_of) → Type 0
  ExitsUnless wanted out = is_exit out.0 ≡ not wanted

  after_poll-GoesOn :
      (p : Prepared World state_of) (answer : Polled)
      → answer ≢ interrupted
      → IfReturns (ExitsUnless true) (after_poll World state_of p answer)
  after_poll-GoesOn p timed_out ne = refl
  after_poll-GoesOn p interrupted ne = absurd (ne refl)
  after_poll-GoesOn p broken ne =
      IfReturns-bind (ExitsUnless true) (dispatch World state_of p.world p.rules _) _ λ out. refl
  after_poll-GoesOn p (events_of found) ne =
      IfReturns-bind (ExitsUnless true) (dispatch World state_of p.world p.rules found) _
        λ out. refl

  -- With live rules and no signal, a round that returns comes back with `Exit` exactly when no rule is
  -- interested.
  pub wait_next_event-ExitsUnless :
      (w : World) (rules : List (Rule World state_of)) (poll : List Request → Polled)
      → All (IsLive w) rules
      → ((asks : List Request) → poll asks ≢ interrupted)
      → IfReturns
          (ExitsUnless (some_interest w rules))
          (wait_next_event World state_of w rules poll)
  unfolding wait_next_event
  wait_next_event-ExitsUnless w rules poll live no_signal =
      elim (Bool-cases (some_interest w rules)) [
        | inl wanted ↦
            rw (prepare_live w rules live, wanted)
              (after_poll-GoesOn (all_kept w rules) _ (no_signal _))
        | inr quiet ↦ rw (quiet_exits w rules poll live quiet, quiet) refl
      ]

  dispatch_last :
      (w w' : World) (rules : List (Rule World state_of)) (r : Rule World state_of)
      → All (λ (r : Rule World state_of). r.interest w ≡ false) rules
      → r.interest w ≡ true
      → r.direction ≡ outward
      → r.callback w ≡ ok w'
      → r.interest w' ≡ false
      → dispatch World state_of w (entries w (rules ++ r ∷ [])) (
          map
            (λ (a : Request). can_write)
            (map (λ (e : Rule World state_of × Request). e.1) (entries w (rules ++ r ∷ []))))
        ≡ ok (w', rules ++ r ∷ [])
  unfolding dispatch
  dispatch_last w w' [] r none_wants wants out calls settled =
      rw (wants, out, calls, settled)
        (ap (λ m. m >>= λ w''. ok (w'', record r { direction = outward } ∷ []))
          (never ((state_of w r.fd).write_count == (state_of w' r.fd).write_count)))
    where
      never : (b : Bool) → (if b && false then err Error.runtime_error else ok w') ≡ ok w'
      never true = refl
      never false = refl
  dispatch_last w w' (q ∷ rules) r none_wants wants out calls settled =
      rw (none_wants.0, dispatch_last w w' rules r none_wants.1 wants out calls settled) refl

  -- With live rules of which the last alone is interested, and wants to write, a round in which it can
  -- calls that rule and no other.
  pub serves_last :
      (w w' : World) (rules : List (Rule World state_of)) (r : Rule World state_of)
      → All (IsLive w) (rules ++ r ∷ [])
      → All (λ (r : Rule World state_of). r.interest w ≡ false) rules
      → r.interest w ≡ true
      → r.direction ≡ outward
      → r.callback w ≡ ok w'
      → r.interest w' ≡ false
      → wait_next_event World state_of w (rules ++ r ∷ []) writable_only
        ≡ ok (success, w', rules ++ r ∷ [])
  unfolding wait_next_event
  serves_last w w' rules r live none_wants wants out calls settled =
      rw
        (
          prepare_live w (rules ++ r ∷ []) live,
          wanted_last rules,
          dispatch_last w w' rules r none_wants wants out calls settled,
        )
        refl
    where
      wanted_last : (qs : List (Rule World state_of)) → some_interest w (qs ++ r ∷ []) ≡ true
      wanted_last [] = rw wants refl
      wanted_last (q ∷ qs) = rw (wanted_last qs) (or_true (q.interest w))
        where
          or_true : (b : Bool) → (b || true) ≡ true
          or_true true = refl
          or_true false = refl
