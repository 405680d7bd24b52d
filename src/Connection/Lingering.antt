-- ===== src/Connection/Lingering.antt =====
-- The wait of a connection whose streams are over in both directions.
use cpp_tcp.Common.{
  ℕ, ◌+◌, ◌*◌, ◌^◌, ◌≤◌, ◌<◌, ◌≡◌, refl, sym, ap, ap₂, ◌∙◌, Bool, true, false, arith, List, [], ◌∷◌,
  ltb, add64, Bool-cases, Returns, Returns-bind, Returns-map, map,
}
use cpp_tcp.Sender
use cpp_tcp.Sender.{TcpSender}
use cpp_tcp.Window
use cpp_tcp.Window.{SegmentForSender}
use cpp_tcp.State
use cpp_tcp.State.{
  State, TcpState, SenderSummary, ReceiverSummary, sender_summary, receiver_summary, official,
  of_state, equals,
}
use cpp_tcp.Connection.{
  TcpConfig, TcpConnection, state, is_in, tick, stop_lingering, sends_on_tick, max_retx_attempts,
}
use cpp_tcp.Connection.Over.{Event, passes, handle_all, handle}
use cpp_tcp.Connection.Shape.{stay_quiet}

-- Both streams are over and acknowledged, nothing is left to send again, and the connection is open
-- exactly until ten timeouts have passed since the last segment.
pub record Finishing (c : TcpConnection) : Type 0 where
  pub sent : sender_summary c.sender ≡ SenderSummary.fin_acked
  pub received : receiver_summary c.receiver ≡ ReceiverSummary.fin_recv
  pub nothing_kept : c.sender.window.buffer ≡ []
  pub few : Sender.consecutive_retransmissions c.sender ≤ max_retx_attempts
  pub open_until : c.active ≡ ltb c.time_since_last_segment_received (10 * c.cfg.rt_timeout)
  pub lingers : c.linger_after_streams_finish ≡ c.active

-- With no entries the sender's tick changes nothing.
tick_without_entries : (s : TcpSender) (ms : ℕ) → s.window.buffer ≡ [] → Sender.tick s ms ≡ s
unfolding Sender.tick Window.tick Window.tick_entries Sender.retransmit
tick_without_entries s ms empty =
    ap
      (λ (entries : List SegmentForSender).
        Sender.tick (record s { window = record s.window { buffer = entries } }) ms)
      empty
    ∙ ap
        (λ (entries : List SegmentForSender). record s {
          window = record s.window { buffer = entries };
        })
        (sym empty)

-- The state of such a connection: TIME_WAIT, or CLOSED.
abbrev over_or_waiting : Bool → TcpState
over_or_waiting a = official SenderSummary.fin_acked ReceiverSummary.fin_recv a a

silent : (a : Bool) → sends_on_tick (over_or_waiting a) ≡ false
unfolding equals of_state
silent true = refl
silent false = refl

waits : (a : Bool) → is_in (over_or_waiting a) State.time_wait ≡ a
unfolding equals of_state
waits true = refl
waits false = refl

-- What the end of the wait leaves alone.
record Kept (c c' : TcpConnection) : Type 0 where
  cfg : c'.cfg ≡ c.cfg
  sender : c'.sender ≡ c.sender
  receiver : c'.receiver ≡ c.receiver
  queue : c'.segments_out ≡ c.segments_out
  time : c'.time_since_last_segment_received ≡ c.time_since_last_segment_received

stop_lingering-Kept : (st : TcpState) (c : TcpConnection) → Kept c (stop_lingering st c)
unfolding stop_lingering
stop_lingering-Kept st c = ground arith

stop_lingering_open :
    (a : Bool) (c : TcpConnection)
    → c.active ≡ a
    → c.linger_after_streams_finish ≡ a
    → (a ≡ false → 10 * c.cfg.rt_timeout ≤ c.time_since_last_segment_received)
    → ((stop_lingering (over_or_waiting a) c).active
        ≡ ltb c.time_since_last_segment_received (10 * c.cfg.rt_timeout))
      × ((stop_lingering (over_or_waiting a) c).linger_after_streams_finish
          ≡ (stop_lingering (over_or_waiting a) c).active)
unfolding stop_lingering
stop_lingering_open a c is_open lingers late = ground (arith, waits a, late)

state_of_Finishing : {c : TcpConnection} → Finishing c → state c ≡ over_or_waiting c.active
unfolding state State.summarize
state_of_Finishing {c} f = rw (f.sent, f.received, f.lingers) (ground (arith, Bool-cases c.active))

state_later :
    (c : TcpConnection) (t : ℕ)
    → state (record c { time_since_last_segment_received = t }) ≡ state c
unfolding state
state_later c t = refl

-- What one tick does.
abbrev Ticked : TcpConnection → ℕ → TcpConnection → Type 0
Ticked c ms c' =
    Finishing c'
    × (c'.segments_out ≡ c.segments_out)
    × (c'.time_since_last_segment_received ≡ c.time_since_last_segment_received + ms)
    × (c'.cfg ≡ c.cfg)

tick-Finishing :
    (c : TcpConnection) (ms : ℕ)
    → Finishing c
    → c.time_since_last_segment_received + ms < 2 ^ 64
    → Returns (Ticked c ms) (tick c ms)
unfolding tick
tick-Finishing c ms f small =
    let c₁ = record c {
      time_since_last_segment_received = add64 c.time_since_last_segment_received ms;
    } in
    let c₂ = stop_lingering (over_or_waiting c.active) c₁ in
    let k = stop_lingering-Kept (over_or_waiting c.active) c₁ in
    let o =
      stop_lingering_open c.active c₁ refl f.lingers
        (λ shut. ground (arith, f.open_until, small)) in
    let same = tick_without_entries c.sender ms f.nothing_kept in
    let same' : Sender.tick c₂.sender ms ≡ c.sender =
      ap (λ (s : TcpSender). Sender.tick s ms) k.sender ∙ same in
    rw (state_later c c₁.time_since_last_segment_received ∙ state_of_Finishing f) (
      rw (stay_quiet (over_or_waiting c.active) c₂ ms (rw same' f.few) (silent c.active)) (
        record {
          sent = ap sender_summary same' ∙ f.sent;
          received = ap receiver_summary k.receiver ∙ f.received;
          nothing_kept = ap (λ (s : TcpSender). s.window.buffer) same' ∙ f.nothing_kept;
          few = rw same' f.few;
          open_until =
              o.0 ∙ ap₂ (λ t (g : TcpConfig). ltb t (10 * g.rt_timeout)) (sym k.time) (sym k.cfg);
          lingers = o.1;
        },
        k.queue,
        omega (arith, k.time, small),
        k.cfg,
      ))

-- The ticks of a list of times, one after the other.
abbrev pub ticks : List ℕ → List Event
ticks = map passes

abbrev pub sum : List ℕ → ℕ
sum [] = 0
sum (ms ∷ rest) = ms + sum rest

-- The connection is open exactly if the whole time is below ten timeouts, and has sent nothing.
abbrev pub OverAfter : TcpConnection → ℕ → TcpConnection → Type 0
OverAfter c ms c' =
    (c'.active ≡ ltb (c.time_since_last_segment_received + ms) (10 * c.cfg.rt_timeout))
    × (c'.segments_out ≡ c.segments_out)

-- The wait ends. Let both streams be over and acknowledged in both directions, with nothing kept to
-- send again and at most eight retransmissions counted, at an endpoint that has to linger since its
-- peer did not end first: it is open, in TIME_WAIT, exactly while less than ten timeouts have passed
-- since the last segment. Then any sequence of ticks returns, sends nothing, and leaves the connection
-- open exactly if all their time together, with the time that had passed since the last segment, is
-- less than ten timeouts (as long as it fits 64 bits).
pub ticks_end_wait :
    (times : List ℕ) (c : TcpConnection)
    → Finishing c
    → c.time_since_last_segment_received + sum times < 2 ^ 64
    → Returns (OverAfter c (sum times)) (handle_all (ticks times) c)
unfolding handle_all handle
ticks_end_wait [] c f small =
    (f.open_until ∙ ap (λ t. ltb t (10 * c.cfg.rt_timeout)) (omega arith), refl)
ticks_end_wait (ms ∷ times) c f small =
    Returns-bind (Ticked c ms) (OverAfter c (ms + sum times)) (tick c ms) (handle_all (ticks times))
      (tick-Finishing c ms f (omega (arith, small)))
      λ c' (f', queue, time, cfg).
        Returns-map (OverAfter c' (sum times)) (OverAfter c (ms + sum times))
          (handle_all (ticks times) c')
          (λ d (o, q). (
            o ∙ ap₂ (λ t (g : TcpConfig). ltb t (10 * g.rt_timeout)) (omega (arith, time)) cfg,
            q ∙ queue,
          ))
          (ticks_end_wait times c' f' (omega (arith, time, small)))
