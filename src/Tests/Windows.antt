-- ===== src/Tests/Windows.antt =====
-- The sending window and the states of a connection at concrete inputs.
use cpp_tcp.Common.{◌^◌, ◌≤◌, ◌≡◌, refl, true, false, arith, [], ◌∷◌, ok, none}
use cpp_tcp.Wrapping.{wrap}
use cpp_tcp.Segment.{TcpSegment, default_segment, set_syn, set_seqno, set_payload}
use cpp_tcp.Window
use cpp_tcp.Window.{TcpSendingWindow, add_segment, ack_received, full, space, tick}
use cpp_tcp.Window.Shape
use cpp_tcp.Window.Shape.{
  create-IsValid, acks, acked, add_segment-IsValid, ack_received_new, ack_received_repeated,
}
use cpp_tcp.Window.Timers.{shrunk_window_not_full}
use cpp_tcp.Sender

-- The SYN of a sender whose initial sequence number is 7.
abbrev pub syn_7 : TcpSegment
syn_7 = set_seqno (set_syn default_segment true) 7

-- The window with the SYN in flight.
abbrev pub syn_sent : TcpSendingWindow
syn_sent = record {
  buffer = record { segment = syn_7; remaining_rto = 1000 } ∷ [];
  isn = 7;
  first_seqno = 0;
  window_size = 1;
  next_seqno = 1;
}

pub syn_sent-IsValid : Shape.IsValid syn_sent
unfolding wrap
syn_sent-IsValid = record {
  front = 0;
  isn_word = omega arith;
  small = omega arith;
  window_word = omega arith;
  near = omega arith;
  front_le = omega arith;
  first_le = omega arith;
  covers = (refl, omega arith, refl);
  ends_behind = omega arith;
}

ack_received_new_example :
    (ack_received syn_sent (acks syn_sent 1) 500
      ≡ ok (true, acked syn_sent syn_sent-IsValid.front 1 500))
    × Shape.IsValid (acked syn_sent syn_sent-IsValid.front 1 500)
ack_received_new_example =
    ack_received_new {w = syn_sent} syn_sent-IsValid 1 500 (omega arith) (omega arith) (omega arith)

-- Nothing is left in flight.
ack_empties : (acked syn_sent 0 1 500).buffer ≡ []
unfolding Window.Covers.unacked
ack_empties = refl

-- Ten bytes in flight, and a peer that shrank its window to 3.
abbrev shrunk : TcpSendingWindow
shrunk = record {
  buffer =
      record {
        segment =
            set_seqno (set_payload default_segment (1 ∷ 2 ∷ 3 ∷ 4 ∷ 5 ∷ 6 ∷ 7 ∷ 8 ∷ 9 ∷ 10 ∷ [])) 8;
        remaining_rto = 1000;
      }
      ∷ [];
  isn = 7;
  first_seqno = 1;
  window_size = 3;
  next_seqno = 11;
}

shrunk_window_not_full_example : (full shrunk ≡ false) × (2 ^ 63 ≤ space shrunk)
shrunk_window_not_full_example =
    shrunk_window_not_full shrunk (λ e. absurd (ground (arith, e)))
      (λ e. absurd (ground (arith, e))) (omega arith) (omega arith) (omega arith)

abbrev pub new_sender : Sender.TcpSender
new_sender = Sender.create 10 1000 none 7
