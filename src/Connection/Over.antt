-- ===== src/Connection/Over.antt =====
-- A connection that is over stays over.
use mathlib.Core.Path.{subst}
use cpp_tcp.Common.{
  ℕ, ◌≡◌, inl, inr, refl, sym, ap, ◌∙◌, Bool, true, false, arith, List, [], ◌∷◌, ltb, if◌then◌else◌,
  Bool-cases, Result, ok, ◌>>=◌, IfReturns, IfReturns-bind, IfReturns-step, none, some, ◌&&◌, ◌==◌,
}
use cpp_tcp.Wrapping.{minus}
use cpp_tcp.ByteStream
use cpp_tcp.Segment.{TcpSegment, length_in_sequence_space}
use cpp_tcp.Receiver
use cpp_tcp.Sender
use cpp_tcp.State
use cpp_tcp.State.{State, TcpState, of_state, equals}
use cpp_tcp.Connection.{
  TcpConnection, state, dispatch, segment_received, reset_received, answer_keep_alive, collect,
  stamp, tick, write, end_input_stream, tick_sender, stop_lingering, unclean_shutdown,
  sends_on_tick, max_retx_attempts,
}

-- The connection is over.
abbrev pub Inactive : TcpConnection → Type 0
Inactive c = c.active ≡ false

collect_keeps : (c : TcpConnection) → Inactive c → IfReturns Inactive (collect c)
unfolding collect
collect_keeps c dead =
    IfReturns-bind Inactive (Sender.fill_window c.sender) _
      λ s. IfReturns-bind Inactive (stamp c.receiver s.segments_out) _ λ segs. dead

-- What the environment does to a connection.
pub data Event : Type 0 where
  arrives : TcpSegment → Event
  passes : ℕ → Event
  writes : List ℕ → Event
  ends : Event

unfoldable pub handle : Event → TcpConnection → Result TcpConnection
handle (arrives seg) c = segment_received c seg
handle (passes ms) c = tick c ms
handle (writes bytes) c = write c bytes >>= λ r. ok r.1
handle ends c = end_input_stream c

unfoldable pub handle_all : List Event → TcpConnection → Result TcpConnection
handle_all [] c = ok c
handle_all (e ∷ es) c = handle e c >>= λ c'. handle_all es c'

-- No handler of a state applies to a connection that is over.
dispatch_inactive :
    (st : TcpState) (c : TcpConnection) (seg : TcpSegment)
    → st.active ≡ false
    → dispatch st c seg ≡ ok c
unfolding dispatch equals of_state
dispatch_inactive st c seg dead = rw dead refl

state-active : (c : TcpConnection) → (state c).active ≡ c.active
unfolding state State.summarize
state-active c = refl

pub segment_received_no_rst :
    (c : TcpConnection) (seg : TcpSegment)
    → seg.header.rst ≡ false
    → let c₀ = record c { time_since_last_segment_received = 0 } in
      segment_received c seg ≡ (dispatch (state c₀) c₀ seg >>= λ c₁. answer_keep_alive c₁ seg)
unfolding segment_received
segment_received_no_rst c seg no_rst =
    let c₀ = record c { time_since_last_segment_received = 0 } in
    ap
      (λ b.
        if b
        then ok (reset_received c₀)
        else (dispatch (state c₀) c₀ seg >>= λ c₁. answer_keep_alive c₁ seg))
      no_rst

-- A connection that is over handles a segment without RST as a keep-alive at most: the receiver, and
-- with it what the application can read, stays as it is.
pub over_ignores :
    (c : TcpConnection) (seg : TcpSegment)
    → Inactive c
    → seg.header.rst ≡ false
    → segment_received c seg
      ≡ answer_keep_alive (record c { time_since_last_segment_received = 0 }) seg
over_ignores c seg dead no_rst =
    let c₀ = record c { time_since_last_segment_received = 0 } in
    segment_received_no_rst c seg no_rst
    ∙ ap (λ m. m >>= λ c₁. answer_keep_alive c₁ seg)
        (dispatch_inactive (state c₀) c₀ seg (state-active c₀ ∙ dead))

-- IfReturns of a choice
either :
    {A : Type 0} (P : A → Type 0) (b : Bool) (m n : Result A)
    → IfReturns P m
    → IfReturns P n
    → IfReturns P (if b then m else n)
either P true m n h k = h
either P false m n h k = k

answer_keep_alive-Inactive :
    (c : TcpConnection) (seg : TcpSegment)
    → Inactive c
    → IfReturns Inactive (answer_keep_alive c seg)
unfolding answer_keep_alive
answer_keep_alive-Inactive c seg dead =
    let sent = record c { sender = Sender.send_empty_segment c.sender } in
    elim (Receiver.ackno c.receiver)
      as (λ o. IfReturns Inactive (elim o [
        | none ↦ ok c
        | some n ↦
            if length_in_sequence_space seg == 0 && seg.header.seqno == minus n 1
            then collect sent
            else ok c
      ])) [
        | none ↦ dead
        | some n ↦
            either Inactive (length_in_sequence_space seg == 0 && seg.header.seqno == minus n 1)
              (collect sent) (ok c) (collect_keeps sent dead) dead
      ]

segment_received_rst :
    (c : TcpConnection) (seg : TcpSegment)
    → seg.header.rst ≡ true
    → segment_received c seg
      ≡ ok (reset_received (record c { time_since_last_segment_received = 0 }))
unfolding segment_received
segment_received_rst c seg rst = rw rst refl

segment_received-Inactive :
    (c : TcpConnection) (seg : TcpSegment)
    → Inactive c
    → IfReturns Inactive (segment_received c seg)
unfolding reset_received
segment_received-Inactive c seg dead = elim (Bool-cases seg.header.rst) [
  | inl rst ↦ subst (IfReturns Inactive) (sym (segment_received_rst c seg rst)) refl
  | inr no_rst ↦
      subst (IfReturns Inactive) (sym (over_ignores c seg dead no_rst))
        (answer_keep_alive-Inactive _ seg dead)
]

stop_lingering-Inactive :
    (st : TcpState) (c : TcpConnection) → Inactive c → Inactive (stop_lingering st c)
unfolding stop_lingering
stop_lingering-Inactive st c dead = ground (arith, dead)

tick_sender-Inactive :
    (st : TcpState) (c : TcpConnection) (ms : ℕ)
    → Inactive c
    → IfReturns Inactive (tick_sender st c ms)
unfolding tick_sender unclean_shutdown
tick_sender-Inactive st c ms dead =
    let c' = record c { sender = Sender.tick c.sender ms } in
    either Inactive (ltb max_retx_attempts (Sender.consecutive_retransmissions c'.sender))
      (ok (unclean_shutdown c')) (if sends_on_tick st then collect c' else ok c') refl
      (either Inactive (sends_on_tick st) (collect c') (ok c') (collect_keeps c' dead) dead)

tick-Inactive : (c : TcpConnection) (ms : ℕ) → Inactive c → IfReturns Inactive (tick c ms)
unfolding tick
tick-Inactive c ms dead = tick_sender-Inactive _ _ ms (stop_lingering-Inactive _ _ dead)

handle-Inactive : (e : Event) (c : TcpConnection) → Inactive c → IfReturns Inactive (handle e c)
unfolding handle write end_input_stream
handle-Inactive (arrives seg) c dead = segment_received-Inactive c seg dead
handle-Inactive (passes ms) c dead = tick-Inactive c ms dead
handle-Inactive (writes bytes) c dead =
    let c' = record c {
      sender = record c.sender { stream = (ByteStream.write c.sender.stream bytes).0 };
    } in
    IfReturns-step (λ (r : ℕ × TcpConnection). Inactive r.1) Inactive (write c bytes) _
      (IfReturns-step Inactive (λ (r : ℕ × TcpConnection). Inactive r.1) (collect c') _
        (collect_keeps c' dead) λ a h. h)
      λ a h. h
handle-Inactive ends c dead = collect_keeps _ dead

-- Once a connection is over, no sequence of segments, ticks, writes and ends of input whose calls
-- return opens it again.
pub stays_over :
    (es : List Event) (c : TcpConnection) → Inactive c → IfReturns Inactive (handle_all es c)
unfolding handle_all
stays_over [] c dead = dead
stays_over (e ∷ es) c dead =
    IfReturns-step Inactive Inactive (handle e c) (handle_all es) (handle-Inactive e c dead)
      (stays_over es)
