-- ===== src/Sender/Fill.antt =====
-- `fill_window`: it returns, and sends the bytes of the stream in order within the window.
pub mod Rule
use cpp_tcp.Common.{
  ℕ, zero, suc, ◌+◌, ◌-◌, ◌≤◌, ◌<◌, ◌≡◌, ◌≢◌, inl, inr, refl, sym, ap, ◌∙◌, true, false, ◌&&◌, List,
  [], ◌∷◌, ◌++◌, arith, ltb, ok, Returns, Returns-map, min, length, take-append-drop, to_u32,
  Bool-cases, ℕ_discrete, append_assoc, append-nil,
}
use cpp_tcp.ByteStream
use cpp_tcp.ByteStream.{ByteStream, buffer_size, buffer_empty, pop_output}
use cpp_tcp.ByteStream.Invariant.{sizes_lem}
use cpp_tcp.ByteStream.Window.{contents}
use cpp_tcp.ByteStream.Refine.{pop_output-Popped}
use cpp_tcp.Segment.{TcpSegment, default_segment, set_syn, set_seqno, length_in_sequence_space}
use cpp_tcp.Window
use cpp_tcp.Window.{TcpSendingWindow, full, space}
use cpp_tcp.Window.Shape
use cpp_tcp.Window.Shape.{add_segment-IsValid}
use cpp_tcp.Sender.{
  TcpSender, state, may_send, payload_size, next_segment, add_and_send, fill_loop, fill_window,
  fill_fuel, open_connection, next_seqno,
}
use cpp_tcp.Sender.Shape.{
  IsValid, InStep, after_round, round_lem, round_length, round_start, round_fields,
  next_segment_fields, may_send_room, space-pos,
}
use cpp_tcp.Sender.Round.{round_pos, round_within, round_bytes, rounds, rounds_fall}
use cpp_tcp.Sender.Syn.{syn_segment, opened, open_connection_closed, open_connection_open}

-- The payloads of some segments, one behind the other.
abbrev pub payloads : List TcpSegment → List ℕ
payloads [] = []
payloads (seg ∷ segs) = seg.payload ++ payloads segs

pub payloads-append : (xs ys : List TcpSegment) → payloads (xs ++ ys) ≡ payloads xs ++ payloads ys
payloads-append [] ys = refl
payloads-append (x ∷ xs) ys = rw (payloads-append xs ys, append_assoc)

-- What was sent between two states, and how the window stands.
pub record Filled (s s' : TcpSender) : Type 0 where
  pub valid : IsValid s'
  pub sent : List TcpSegment
  pub queued : s'.segments_out ≡ s.segments_out ++ sent
  pub bytes : contents s.stream ≡ payloads sent ++ contents s'.stream
  pub window_size : s'.window.window_size ≡ s.window.window_size
  pub first_seqno : s'.window.first_seqno ≡ s.window.first_seqno
  pub within :
      s.window.next_seqno ≤ s.window.first_seqno + s.window.window_size
      → s'.window.next_seqno ≤ s'.window.first_seqno + s'.window.window_size
  pub rto : s'.rto ≡ s.rto
  pub retransmissions : s'.consecutive_retransmission_count ≡ s.consecutive_retransmission_count
  pub done : may_send s' ≡ false

Filled-here : {s : TcpSender} → IsValid s → may_send s ≡ false → Filled s s
Filled-here {s} v e = record {
  valid = v;
  sent = [];
  queued = sym (append-nil s.segments_out);
  bytes = refl;
  window_size = refl;
  first_seqno = refl;
  within = λ h. h;
  rto = refl;
  retransmissions = refl;
  done = e;
}

Filled-next :
    {s s' : TcpSender}
    → IsValid s
    → 1 ≤ s.window.next_seqno
    → may_send s ≡ true
    → Filled (after_round s) s'
    → Filled s s'
Filled-next {s} {s'} v begun e f = record {
  valid = f.valid;
  sent = (next_segment s).0 ∷ f.sent;
  queued = f.queued ∙ append_assoc s.segments_out ((next_segment s).0 ∷ []) f.sent;
  bytes =
      round_bytes v
      ∙ ap (λ ys. (next_segment s).0.payload ++ ys) f.bytes
      ∙ sym (append_assoc (next_segment s).0.payload (payloads f.sent) (contents s'.stream));
  window_size = f.window_size;
  first_seqno = f.first_seqno;
  within = λ le. f.within (round_within v le);
  rto = f.rto;
  retransmissions = f.retransmissions;
  done = f.done;
}

pub fill_loop_stop : (fuel : ℕ) (s : TcpSender) → may_send s ≡ false → fill_loop (suc fuel) s ≡ ok s
unfolding fill_loop
fill_loop_stop fuel s e = rw e

fill_loop_next :
    (fuel : ℕ) {s : TcpSender}
    → IsValid s
    → 1 ≤ s.window.next_seqno
    → may_send s ≡ true
    → fill_loop (suc fuel) s ≡ fill_loop fuel (after_round s)
unfolding fill_loop
fill_loop_next fuel {s} v begun e =
    let pos = round_pos v e in ground (arith, pos, round_lem v begun e pos)

fill_loop-Filled :
    (fuel : ℕ) {s : TcpSender}
    → IsValid s
    → 1 ≤ s.window.next_seqno
    → rounds s < fuel
    → Returns (Filled s) (fill_loop fuel s)
fill_loop-Filled zero v begun h = absurd (omega arith)
fill_loop-Filled (suc fuel) {s} v begun h = elim (Bool-cases (may_send s)) [
  | inl e ↦ rw (fill_loop_next fuel v begun e) (
      Returns-map (Filled (after_round s)) (Filled s) (fill_loop fuel (after_round s))
        (λ s'. Filled-next v begun e)
        (fill_loop-Filled fuel (round_lem v begun e (round_pos v e)).1 (omega arith)
          (omega (arith, rounds_fall v begun e))))
  | inr e ↦ rw (fill_loop_stop fuel s e) (Filled-here v e)
]

Filled-opened :
    {s s' : TcpSender} → IsValid s → s.window.next_seqno ≡ 0 → Filled (opened s) s' → Filled s s'
Filled-opened {s} v e f = record {
  valid = f.valid;
  sent = syn_segment s ∷ f.sent;
  queued = f.queued ∙ append_assoc s.segments_out (syn_segment s ∷ []) f.sent;
  bytes = f.bytes;
  window_size = f.window_size;
  first_seqno = f.first_seqno;
  within = λ le. f.within (omega (arith, v.usable));
  rto = f.rto;
  retransmissions = f.retransmissions;
  done = f.done;
}

enough_rounds : (s : TcpSender) → s.window.next_seqno ≢ 0 → InStep s → rounds s < fill_fuel s
enough_rounds s ne (inl start) = absurd (ne start.0)
enough_rounds s ne (inr (inl sent)) = omega arith
enough_rounds s ne (inr (inr sent)) = omega arith

-- `fill_window` returns on every valid sender. It sends the next bytes of the stream in order, sends
-- nothing beyond a window that held what was in flight, keeps the invariant, and stops only when the
-- loop has no more to send or no room: its bound on the rounds is never met.
pub fill_window-Filled : {s : TcpSender} → IsValid s → Returns (Filled s) (fill_window s)
unfolding fill_window
fill_window-Filled {s} v = elim (ℕ_discrete s.window.next_seqno 0) [
  | yes e ↦
      let (opens, kept) = open_connection_closed v e in
      rw opens (
        Returns-map (Filled (opened s)) (Filled s) _ (λ s'. Filled-opened v e)
          (fill_loop-Filled (fill_fuel (opened s)) kept (omega arith)
            (omega (arith, kept.in_step))))
  | no ne ↦
      rw (open_connection_open v ne)
        (fill_loop-Filled (fill_fuel s) v (omega arith) (enough_rounds s ne v.in_step))
]
