-- ===== src/Tests/Senders.antt =====
-- The sender at concrete inputs.
use cpp_tcp.Common.{◌≤◌, ◌<◌, ◌≡◌, inl, inr, refl, arith, [], ◌∷◌, Returns}
use cpp_tcp.ByteStream
use cpp_tcp.ByteStream.Invariant
use cpp_tcp.Window
use cpp_tcp.Window.{SegmentForSender}
use cpp_tcp.Window.Shape
use cpp_tcp.Window.Shape.{acks}
use cpp_tcp.Sender.{TcpSender, create, fill_window, ack_received, tick}
use cpp_tcp.Sender.Shape.{IsValid}
use cpp_tcp.Sender.Fill.{Filled, fill_window-Filled}
use cpp_tcp.Sender.Acks.{ack_received_new_data}
use cpp_tcp.Sender.Timers.{tick_oldest}
use cpp_tcp.Tests.Windows.{new_sender, syn_7, syn_sent, syn_sent-IsValid}

new_sender-IsValid : IsValid new_sender
unfolding create ByteStream.create Window.create ByteStream.buffer_size
new_sender-IsValid = record {
  stream = (Invariant.create-IsValid 10 (omega arith)).0;
  window = Shape.create-IsValid 7 1 (omega arith) (omega arith);
  in_step = inl (refl, refl);
  sound = refl;
  usable = omega arith;
  bounded = omega arith;
  syn_first = λ e. (omega arith, omega arith);
}

fill_window-Filled_example : Returns (Filled new_sender) (fill_window new_sender)
fill_window-Filled_example = fill_window-Filled {s = new_sender} new_sender-IsValid

-- After the SYN.
abbrev waiting : TcpSender
waiting = record new_sender { window = syn_sent }

waiting-IsValid : IsValid waiting
unfolding create ByteStream.create ByteStream.buffer_size
waiting-IsValid = record {
  stream = (Invariant.create-IsValid 10 (omega arith)).0;
  window = syn_sent-IsValid;
  in_step = inr (inl refl);
  sound = refl;
  usable = omega arith;
  bounded = omega arith;
  syn_first = λ e. (omega arith, omega arith);
}

ack_received_new_data_example :
    Returns
      (λ s'.
        IsValid s'
        × (s'.window.first_seqno ≡ 1)
        × (s'.window.window_size ≡ 500)
        × (s'.rto ≡ 1000)
        × (s'.consecutive_retransmission_count ≡ 0))
      (ack_received waiting (acks syn_sent 1) 500)
unfolding create
ack_received_new_data_example =
    ack_received_new_data {s = waiting} waiting-IsValid 1 500 (omega arith) (omega arith)
      (omega arith)

tick_oldest_example :
    (400 < 1000 → (tick waiting 400).segments_out ≡ [])
    × (1000 ≤ 400 → (tick waiting 400).segments_out ≡ syn_7 ∷ [])
unfolding create
tick_oldest_example =
    tick_oldest waiting 400 record { segment = syn_7; remaining_rto = 1000 } []
      (omega arith, omega arith) refl
