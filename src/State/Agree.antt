-- ===== src/State/Agree.antt =====
-- The summaries of `TCPState` against the states that sender and receiver report themselves.
use cpp_tcp.Common.{
  ◌+◌, ◌-◌, ◌^◌, ◌≤◌, ◌<◌, ◌≡◌, ◌↔◌, refl, ap, Bool, true, false, arith, Option, none, some,
}
use cpp_tcp.ByteStream
use cpp_tcp.Receiver
use cpp_tcp.Receiver.{TcpReceiver, ReceiverState}
use cpp_tcp.Sender
use cpp_tcp.Sender.{TcpSender, SenderState}
use cpp_tcp.Window
use cpp_tcp.State.{
  State, TcpState, SenderSummary, ReceiverSummary, of_state, equals, sender_summary,
  receiver_summary, sender_code, receiver_code,
}

sender_code-injective : (a b : SenderSummary) → sender_code a ≡ sender_code b → a ≡ b
sender_code-injective a b e = ground arith

receiver_code-injective : (a b : ReceiverSummary) → receiver_code a ≡ receiver_code b → a ≡ b
receiver_code-injective a b e = ground arith

-- `operator==` holds of two states exactly when they are equal.
pub equals_iff : (s t : TcpState) → (equals s t ≡ true) ↔ (s ≡ t)
unfolding equals
equals_iff s t = (
  λ e. ground (
    arith,
    sender_code-injective s.sender t.sender,
    receiver_code-injective s.receiver t.receiver,
  ),
  λ e. ground arith,
)

name_of : TcpState → Option State
name_of s = names s.sender s.receiver s.linger
  where
    names : SenderSummary → ReceiverSummary → Bool → Option State
    names SenderSummary.closed r b = some State.listen
    names SenderSummary.error r b = some State.reset
    names SenderSummary.syn_sent ReceiverSummary.syn_recv b = some State.syn_rcvd
    names SenderSummary.syn_sent ReceiverSummary.listen b = some State.syn_sent
    names SenderSummary.syn_acked ReceiverSummary.syn_recv b = some State.established
    names SenderSummary.syn_acked ReceiverSummary.fin_recv b = some State.close_wait
    names SenderSummary.fin_sent ReceiverSummary.syn_recv b = some State.fin_wait_1
    names SenderSummary.fin_sent ReceiverSummary.fin_recv true = some State.closing
    names SenderSummary.fin_sent ReceiverSummary.fin_recv false = some State.last_ack
    names SenderSummary.fin_acked ReceiverSummary.syn_recv b = some State.fin_wait_2
    names SenderSummary.fin_acked ReceiverSummary.fin_recv true = some State.time_wait
    names SenderSummary.fin_acked ReceiverSummary.fin_recv false = some State.closed
    names s r b = none

name_of_lem : (a : State) → name_of (of_state a) ≡ some a
unfolding name_of of_state
name_of_lem State.listen = refl
name_of_lem State.syn_rcvd = refl
name_of_lem _ = refl

-- The twelve official states are told apart: `operator==` holds between two of them only if they
-- are the same.
pub of_state-injective : (a b : State) → equals (of_state a) (of_state b) ≡ true → a ≡ b
of_state-injective a b e =
    cc (name_of_lem a, name_of_lem b, ap name_of ((equals_iff (of_state a) (of_state b)).0 e))

abbrev pub of_receiver : ReceiverState → ReceiverSummary
of_receiver ReceiverState.error = ReceiverSummary.error
of_receiver ReceiverState.listen = ReceiverSummary.listen
of_receiver ReceiverState.syn_recv = ReceiverSummary.syn_recv
of_receiver ReceiverState.fin_recv = ReceiverSummary.fin_recv

-- The summary of a receiver is the state that `TCPReceiver::state` reports.
pub receiver_summary-state : (r : TcpReceiver) → receiver_summary r ≡ of_receiver (Receiver.state r)
unfolding receiver_summary Receiver.state
receiver_summary-state r = ground arith

-- ESTABLISHED is never reported; it would count as an ongoing stream.
abbrev pub of_sender : SenderState → SenderSummary
of_sender SenderState.error = SenderSummary.error
of_sender SenderState.closed = SenderSummary.closed
of_sender SenderState.syn_sent = SenderSummary.syn_sent
of_sender SenderState.syn_acked = SenderSummary.syn_acked
of_sender SenderState.established = SenderSummary.syn_acked
of_sender SenderState.fin_sent = SenderSummary.fin_sent
of_sender SenderState.fin_acked = SenderSummary.fin_acked

-- The summary of a sender is the state that `TCPSender::state` reports, if the window begins by its
-- next number and the FIN is not sent twice.
pub sender_summary-state :
    (s : TcpSender)
    → s.window.first_seqno ≤ s.window.next_seqno
    → s.window.next_seqno < 2 ^ 64
    → s.stream.written_count < 2 ^ 64 - 2
    → (ByteStream.eof s.stream ≡ true → s.window.next_seqno ≤ s.stream.written_count + 2)
    → sender_summary s ≡ of_sender (Sender.state s)
unfolding sender_summary Sender.state Window.bytes_in_flight
sender_summary-state s le small fits once = ground arith
