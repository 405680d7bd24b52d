-- ===== src/EventLoop/Keeping.antt =====
-- What the callbacks keep, the event loop keeps.
use cpp_tcp.Common.{
  ℕ, ◌&&◌, not, ◌==◌, List, [], ◌∷◌, map, if◌then◌else◌, if-both, ok, err, Error, ◌>>=◌, All,
  IfReturns, IfReturns-step,
}
use cpp_tcp.EventLoop.{
  FdState, Request, Revents, Polled, timed_out, interrupted, broken, events_of, LoopResult, exit,
  ready, asked, Rule, Prepared, defunct, request, add_entry, prepare, serve, keep, dispatch,
  after_poll, wait_next_event, service_count,
}
use cpp_tcp.EventLoop.Rounds.{rules_of}

module _ (World : Type 0) (state_of : World → ℕ → FdState) (P : World → Type 0) where
  -- The callbacks of a rule keep `P` when they return.
  pub record Keeps (r : Rule World state_of) : Type 0 where
    pub callback : (w : World) → P w → IfReturns P (r.callback w)
    pub cancel : (w : World) → P w → IfReturns P (r.cancel w)

  abbrev Ready : Prepared World state_of → Type 0
  Ready p = P p.world × All Keeps (rules_of World state_of p.rules)

  prepare-Keeps :
      (w : World) (rules : List (Rule World state_of))
      → P w
      → All Keeps rules
      → IfReturns Ready (prepare World state_of w rules)
  unfolding prepare
  prepare-Keeps w [] h ks = (h, tt)
  prepare-Keeps w (r ∷ rules) h ks =
      if-both (IfReturns Ready) (defunct World state_of w r)
        (r.cancel w >>= λ w'. prepare World state_of w' rules)
        (prepare World state_of w rules >>= λ p.
          ok (add_entry World state_of (r, request World state_of w r) p))
        (λ _.
          IfReturns-step P Ready (r.cancel w) _ (ks.0.cancel w h)
            λ w' h'. prepare-Keeps w' rules h' ks.1)
        (λ _.
          IfReturns-step Ready Ready (prepare World state_of w rules) _
            (prepare-Keeps w rules h ks.1) λ p q. (q.0, (ks.0, q.1)))

  serve-Keeps :
      (w : World) (r : Rule World state_of) → P w → Keeps r → IfReturns P (serve World state_of w r)
  serve-Keeps w r h k = IfReturns-step P P (r.callback w) _ (k.callback w h) λ w' h'.
      if-both (IfReturns P)
        (service_count World state_of w r == service_count World state_of w' r && r.interest w')
        (err Error.runtime_error) (ok w') (λ _. tt) (λ _. h')

  abbrev Served : World × List (Rule World state_of) → Type 0
  Served out = P out.0 × All Keeps out.1

  dispatch-Keeps :
      (w : World) (entries : List (Rule World state_of × Request)) (found : List Revents)
      → P w
      → All Keeps (rules_of World state_of entries)
      → IfReturns Served (dispatch World state_of w entries found)
  unfolding dispatch
  dispatch-Keeps w [] found h ks = (h, tt)
  dispatch-Keeps w (entry ∷ entries) [] h ks = tt
  dispatch-Keeps w ((r, asks) ∷ entries) (now ∷ found) h ks =
      let go = dispatch World state_of in
      let passed = go w entries found >>= λ out. ok (keep World state_of r out) in
      let served = serve World state_of w r >>= λ w'.
      go w' entries found >>= λ out. ok (keep World state_of r out) in
      let dropped = r.cancel w >>= λ w'. go w' entries found in
      let kept = λ (w' : World) (h' : P w').
        IfReturns-step Served Served (go w' entries found) (λ out. ok (keep World state_of r out))
          (dispatch-Keeps w' entries found h' ks.1) λ out q. (q.0, (ks.0, q.1)) in
      if-both (IfReturns Served) now.failed (err Error.runtime_error) _ (λ _. tt)
        λ _.
          if-both (IfReturns Served) (now.hup && asked asks.events && not (ready asks.events now))
            dropped (if ready asks.events now then served else passed)
            (λ _.
              IfReturns-step P Served (r.cancel w) _ (ks.0.cancel w h)
                λ w' h'. dispatch-Keeps w' entries found h' ks.1)
            (λ _.
              if-both (IfReturns Served) (ready asks.events now) served passed
                (λ _.
                  IfReturns-step P Served (serve World state_of w r) _ (serve-Keeps w r h ks.0)
                    kept)
                (λ _. kept w h))

  -- What a round of the loop comes back with.
  abbrev pub After : LoopResult × World × List (Rule World state_of) → Type 0
  After out = P out.1 × All Keeps out.2

  -- A round keeps what every callback keeps, whatever `poll` finds, and the rules left still keep it.
  pub wait_next_event-Keeps :
      (w : World) (rules : List (Rule World state_of)) (poll : List Request → Polled)
      → P w
      → All Keeps rules
      → IfReturns After (wait_next_event World state_of w rules poll)
  unfolding wait_next_event
  wait_next_event-Keeps w rules poll h ks =
      IfReturns-step Ready After (prepare World state_of w rules) _ (prepare-Keeps w rules h ks)
        λ p q.
          if-both (IfReturns After) (not p.something_to_poll)
            (ok (exit, p.world, rules_of World state_of p.rules)) _ (λ _. q)
            (λ _. polled p q (poll (map (λ (e : Rule World state_of × Request). e.1) p.rules)))
    where
      polled :
          (p : Prepared World state_of)
          → Ready p
          → (answer : Polled) → IfReturns After (after_poll World state_of p answer)
      polled p q timed_out = q
      polled p q interrupted = q
      polled p q broken =
          IfReturns-step Served After (dispatch World state_of p.world p.rules _) _
            (dispatch-Keeps p.world p.rules _ q.0 q.1) λ out r. r
      polled p q (events_of found) =
          IfReturns-step Served After (dispatch World state_of p.world p.rules found) _
            (dispatch-Keeps p.world p.rules found q.0 q.1) λ out r. r
