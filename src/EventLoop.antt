-- ===== src/EventLoop.antt =====
-- libsponge/util/eventloop.hh and eventloop.cc: rules on file descriptors, and one round of polling.
-- What `poll` finds is an argument. The callbacks act on a world of the client's choice, which also
-- says how the descriptors stand: descriptors that were duplicated share one state there.
pub mod Rounds
pub mod Keeping
pub mod Quiet
use cpp_tcp.Common.{
  ℕ, Bool, true, false, ◌&&◌, ◌||◌, not, ◌==◌, List, [], ◌∷◌, Option, none, some, map,
  if◌then◌else◌, Result, ok, err, Error, ◌>>=◌,
}

-- `EventLoop::Direction`
pub data Direction : Type 0 where
  inward outward : Direction

abbrev pub is_inward : Direction → Bool
is_inward inward = true
is_inward outward = false

-- What a `FileDescriptor` tells of itself.
pub record FdState : Type 0 where
  pub eof : Bool
  pub closed : Bool
  pub read_count : ℕ
  pub write_count : ℕ

-- `pollfd::fd` and `pollfd::events`: a direction, or nothing but errors.
pub record Request : Type 0 where
  pub fd : ℕ
  pub events : Option Direction

-- `pollfd::revents`; `failed` stands for POLLERR and POLLNVAL.
pub record Revents : Type 0 where
  pub readable : Bool
  pub writable : Bool
  pub failed : Bool
  pub hup : Bool

-- How `poll` comes back: after the timeout, by a signal, with another error, or with the events.
pub data Polled : Type 0 where
  timed_out interrupted broken : Polled
  events_of : List Revents → Polled

-- `EventLoop::Result`
pub data LoopResult : Type 0 where
  success timeout exit : LoopResult

abbrev pub is_exit : LoopResult → Bool
is_exit exit = true
is_exit _ = false

-- `this_pollfd.revents & this_pollfd.events`
abbrev pub ready : Option Direction → Revents → Bool
ready none found = false
ready (some inward) found = found.readable
ready (some outward) found = found.writable

abbrev pub asked : Option Direction → Bool
asked none = false
asked (some d) = true

abbrev pub no_events : Revents
no_events = record { readable = false; writable = false; failed = false; hup = false }

module _ (World : Type 0) (state_of : World → ℕ → FdState) where
  -- `EventLoop::Rule`; `fd` names the state that the descriptor shares with its duplicates.
  pub record Rule : Type 0 where
    pub fd : ℕ
    pub direction : Direction
    pub callback : World → Result World
    pub interest : World → Bool
    pub cancel : World → Result World

  -- `Rule::service_count`
  abbrev pub service_count : World → Rule → ℕ
  service_count w r =
      let fd = state_of w r.fd in if is_inward r.direction then fd.read_count else fd.write_count

  -- `add_rule`
  abbrev pub add_rule : List Rule → Rule → List Rule
  add_rule [] new = new ∷ []
  add_rule (r ∷ rules) new = r ∷ add_rule rules new

  -- A rule that the first loop of `wait_next_event` cancels.
  abbrev pub defunct : World → Rule → Bool
  defunct w r = let fd = state_of w r.fd in is_inward r.direction && fd.eof || fd.closed

  abbrev pub request : World → Rule → Request
  request w r = record { fd = r.fd; events = if r.interest w then some r.direction else none }

  -- What the first loop leaves: the rules with their entries of `pollfds`, and `something_to_poll`.
  pub record Prepared : Type 0 where
    pub world : World
    pub rules : List (Rule × Request)
    pub something_to_poll : Bool

  abbrev pub add_entry : Rule × Request → Prepared → Prepared
  add_entry entry p = record p {
    rules = entry ∷ p.rules;
    something_to_poll = asked entry.1.events || p.something_to_poll;
  }

  -- The first loop of `wait_next_event`.
  unfoldable pub prepare : World → List Rule → Result Prepared
  prepare w [] = ok (record { world = w; rules = []; something_to_poll = false })
  prepare w (r ∷ rules) =
      let kept = prepare w rules >>= λ p. ok (add_entry (r, request w r) p) in
      if defunct w r then (r.cancel w >>= λ w'. prepare w' rules) else kept

  -- What the last loop does with a rule that is ready.
  abbrev pub serve : World → Rule → Result World
  serve w r = r.callback w >>= λ w'.
      if service_count w r == service_count w' r && r.interest w'
      then err Error.runtime_error
      else ok w'

  abbrev pub keep : Rule → World × List Rule → World × List Rule
  keep r (w, rules) = (w, r ∷ rules)

  -- The last loop of `wait_next_event`, over the rules, their entries and what `poll` found.
  unfoldable pub dispatch :
      World → List (Rule × Request) → List Revents → Result (World × List Rule)
  dispatch w [] found = ok (w, [])
  dispatch w (entry ∷ entries) [] = err Error.undefined
  dispatch w ((r, asks) ∷ entries) (now ∷ found) =
      let passed = dispatch w entries found >>= λ out. ok (keep r out) in
      if now.failed
      then err Error.runtime_error
      else if now.hup && asked asks.events && not (ready asks.events now)
      then (r.cancel w >>= λ w'. dispatch w' entries found)
      else if ready asks.events now
      then (serve w r >>= λ w'. dispatch w' entries found >>= λ out. ok (keep r out))
      else passed

  -- The part of `wait_next_event` after `poll`.
  abbrev pub after_poll : Prepared → Polled → Result (LoopResult × World × List Rule)
  after_poll p timed_out = ok (timeout, p.world, map (λ (e : Rule × Request). e.0) p.rules)
  after_poll p interrupted = ok (exit, p.world, map (λ (e : Rule × Request). e.0) p.rules)
  after_poll p broken =
      dispatch p.world p.rules (map (λ (e : Rule × Request). no_events) p.rules) >>= λ out.
      ok (success, out.0, out.1)
  after_poll p (events_of found) =
      dispatch p.world p.rules found >>= λ out. ok (success, out.0, out.1)

  -- `poll` is asked only if some rule is interested.
  unfoldable pub wait_next_event :
      World → List Rule → (List Request → Polled) → Result (LoopResult × World × List Rule)
  wait_next_event w rules poll = prepare w rules >>= λ p.
      if not p.something_to_poll
      then ok (exit, p.world, map (λ (e : Rule × Request). e.0) p.rules)
      else after_poll p (poll (map (λ (e : Rule × Request). e.1) p.rules))
