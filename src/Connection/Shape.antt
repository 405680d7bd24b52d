-- ===== src/Connection/Shape.antt =====
-- The connection as a whole: how it comes to an end.
use mathlib.Core.Path.{subst}
use cpp_tcp.Common.{
  ℕ, ◌*◌, ◌≤◌, ◌<◌, ◌≡◌, inl, inr, refl, sym, ap, ◌∙◌, Bool, true, false, arith, leb, ltb,
  if◌then◌else◌, add64, Bool-cases, Returns, ok,
}
use cpp_tcp.Sender
use cpp_tcp.State
use cpp_tcp.State.{State, TcpState, of_state, equals}
use cpp_tcp.State.Agree.{equals_iff}
use cpp_tcp.Connection.{
  TcpConnection, state, is_in, tick, tick_sender, stop_lingering, sends_on_tick, max_retx_attempts,
}

stop_lingering-sender :
    (st : TcpState) (c : TcpConnection) → (stop_lingering st c).sender ≡ c.sender
unfolding stop_lingering
stop_lingering-sender st c = ground arith

stop_lingering-segments_out :
    (st : TcpState) (c : TcpConnection) → (stop_lingering st c).segments_out ≡ c.segments_out
unfolding stop_lingering
stop_lingering-segments_out st c = ground arith

ltb-true : (a b : ℕ) → a < b → ltb a b ≡ true
ltb-true a b lt = ground arith

ltb-false : (a b : ℕ) → b ≤ a → ltb a b ≡ false
ltb-false a b le = ground arith

pub stay_quiet :
    (st : TcpState) (c : TcpConnection) (ms : ℕ)
    → Sender.consecutive_retransmissions (Sender.tick c.sender ms) ≤ max_retx_attempts
    → sends_on_tick st ≡ false
    → tick_sender st c ms ≡ ok (record c { sender = Sender.tick c.sender ms })
unfolding tick_sender
stay_quiet st c ms few silent = rw (ltb-false _ _ few, silent) refl

pub time_wait-sends_on_tick : sends_on_tick (of_state State.time_wait) ≡ false
unfolding equals of_state
time_wait-sends_on_tick = refl

-- The wait goes on until ten times the timeout has passed, and nothing is sent.
abbrev pub Waited : TcpConnection → ℕ → TcpConnection → Type 0
Waited c ms c' =
    (c'.active ≡ ltb (add64 c.time_since_last_segment_received ms) (10 * c.cfg.rt_timeout))
    × (c'.segments_out ≡ c.segments_out)

linger-active :
    (active linger : Bool)
    → (if active then linger else false) ≡ true
    → (active ≡ true) × (linger ≡ true)
linger-active true linger e = (refl, e)
linger-active false linger e = absurd (ground (arith, e))

state_later :
    (c : TcpConnection) (t : ℕ)
    → is_in (state (record c { time_since_last_segment_received = t })) State.time_wait
      ≡ is_in (state c) State.time_wait
unfolding state
state_later c t = refl

time_wait-lingers :
    (c : TcpConnection)
    → state c ≡ of_state State.time_wait
    → (c.active ≡ true) × (c.linger_after_streams_finish ≡ true)
unfolding state State.summarize of_state
time_wait-lingers c e =
    linger-active c.active c.linger_after_streams_finish (ap (λ (s : TcpState). s.linger) e)

stop_lingering-active :
    (st : TcpState) (c : TcpConnection)
    → is_in st State.time_wait ≡ true
    → (c.active ≡ true) × (c.linger_after_streams_finish ≡ true)
    → (stop_lingering st c).active ≡ ltb c.time_since_last_segment_received (10 * c.cfg.rt_timeout)
unfolding stop_lingering
stop_lingering-active st c wait lingers =
    elim (Bool-cases (leb (10 * c.cfg.rt_timeout) c.time_since_last_segment_received)) [
      | inl out ↦ rw (wait, lingers.1, out) (sym (ltb-false _ _ (ground (arith, out))))
      | inr on ↦ rw (wait, lingers.1, on) (lingers.0 ∙ sym (ltb-true _ _ (ground (arith, on))))
    ]

-- In TIME_WAIT, while nothing is left to retransmit, `tick` sends nothing and ends the connection
-- exactly when ten times the retransmission timeout has passed since the last segment.
pub time_wait_lingers :
    (c : TcpConnection) (ms : ℕ)
    → is_in (state c) State.time_wait ≡ true
    → Sender.consecutive_retransmissions (Sender.tick c.sender ms) ≤ max_retx_attempts
    → Returns (Waited c ms) (tick c ms)
unfolding tick
time_wait_lingers c ms wait few =
    let c' = record c {
      time_since_last_segment_received = add64 c.time_since_last_segment_received ms;
    } in
    let known : state c' ≡ of_state State.time_wait =
      (equals_iff (state c') (of_state State.time_wait)).0 (state_later c _ ∙ wait) in
    subst (Returns (Waited c ms))
      (sym (
        stay_quiet (state c') (stop_lingering (state c') c') ms
          (subst (λ s. Sender.consecutive_retransmissions (Sender.tick s ms) ≤ max_retx_attempts)
            (sym (stop_lingering-sender (state c') c')) few)
          (ap sends_on_tick known ∙ time_wait-sends_on_tick)))
      (
        stop_lingering-active (state c') c' (state_later c _ ∙ wait) (time_wait-lingers c' known),
        stop_lingering-segments_out (state c') c',
      )
