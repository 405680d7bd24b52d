-- ===== src/Sender/Syn.antt =====
-- The SYN, by which `fill_window` opens the connection.
use cpp_tcp.Common.{
  ◌+◌, ◌≤◌, ◌≡◌, ◌≢◌, inl, inr, refl, true, false, [], ◌∷◌, ◌++◌, arith, ok, to_u32,
}
use cpp_tcp.Segment.{TcpSegment, default_segment, set_syn, set_seqno}
use cpp_tcp.Window
use cpp_tcp.Window.{TcpSendingWindow, full, space}
use cpp_tcp.Window.Shape
use cpp_tcp.Window.Shape.{add_segment-IsValid}
use cpp_tcp.Sender.{TcpSender, state, add_and_send, open_connection, next_seqno}
use cpp_tcp.Sender.Shape.{IsValid, InStep}

-- The state after the SYN is sent.
abbrev pub syn_segment : TcpSender → TcpSegment
syn_segment s = set_seqno (set_syn default_segment true) (next_seqno s)

abbrev pub opened : TcpSender → TcpSender
opened s = record s {
  segments_out = s.segments_out ++ syn_segment s ∷ [];
  window = record s.window {
    buffer =
        s.window.buffer ++ record { segment = syn_segment s; remaining_rto = to_u32 s.rto } ∷ [];
    next_seqno = s.window.next_seqno + 1;
  };
}

-- An unopened window is empty.
unopened :
    {w : TcpSendingWindow} → Shape.IsValid w → w.next_seqno ≡ 0 → 1 ≤ w.window_size → full w ≡ false
unfolding full space Window.bytes_in_flight
unopened {w} v e usable = ground (arith, v.covers, v.first_le)

pub open_connection_closed :
    {s : TcpSender}
    → IsValid s
    → s.window.next_seqno ≡ 0
    → (open_connection s ≡ ok (opened s)) × IsValid (opened s)
unfolding open_connection add_and_send state
open_connection_closed {s} v e =
    let (added, kept) =
      add_segment-IsValid v.window (syn_segment s) s.rto (unopened v.window e v.usable) refl
        (omega arith) (omega arith) (omega arith) in
    let bounded = v.bounded in
    (
      ground (arith, added, v.sound),
      record {
        stream = v.stream;
        window = kept;
        in_step = inr (inl (opened_in_step v.in_step));
        sound = v.sound;
        usable = v.usable;
        bounded = bounded;
        syn_first = λ z. (omega (arith, e), (v.syn_first z).1);
      },
    )
  where
    opened_in_step : InStep s → s.window.next_seqno + 1 ≡ s.stream.read_count + 1
    opened_in_step (inl start) = omega arith
    opened_in_step (inr (inl sent)) = absurd (omega arith)
    opened_in_step (inr (inr sent)) = absurd (omega arith)

pub open_connection_open :
    {s : TcpSender} → IsValid s → s.window.next_seqno ≢ 0 → open_connection s ≡ ok s
unfolding open_connection state
open_connection_open {s} v ne = ground (arith, v.sound)
