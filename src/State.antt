-- ===== src/State.antt =====
-- libsponge/tcp_helpers/tcp_state.hh and tcp_state.cc. The summary strings of a sender or receiver
-- differ from one another, so each stands as a constructor of its own.
pub mod Agree
use cpp_tcp.Common.{
  ℕ, ◌+◌, Bool, true, false, ◌&&◌, not, ◌==◌, ltb, Option, none, some, if◌then◌else◌, add64,
}
use cpp_tcp.ByteStream
use cpp_tcp.Receiver
use cpp_tcp.Receiver.{TcpReceiver}
use cpp_tcp.Sender
use cpp_tcp.Sender.{TcpSender}

-- `TCPSenderStateSummary`
pub data SenderSummary : Type 0 where
  error closed syn_sent syn_acked fin_sent fin_acked : SenderSummary

-- `TCPReceiverStateSummary`
pub data ReceiverSummary : Type 0 where
  error listen syn_recv fin_recv : ReceiverSummary

pub record TcpState : Type 0 where
  pub sender : SenderSummary
  pub receiver : ReceiverSummary
  pub active : Bool
  pub linger : Bool

-- `TCPState::State`
pub data State : Type 0 where
  listen syn_rcvd syn_sent established close_wait last_ack : State
  fin_wait_1 fin_wait_2 closing time_wait closed reset : State

abbrev pub official : SenderSummary → ReceiverSummary → Bool → Bool → TcpState
official s r active linger = record { sender = s; receiver = r; active = active; linger = linger }

-- `TCPState::TCPState(const TCPState::State)`
unfoldable pub of_state : State → TcpState
of_state State.listen = official SenderSummary.closed ReceiverSummary.listen true true
of_state State.syn_rcvd = official SenderSummary.syn_sent ReceiverSummary.syn_recv true true
of_state State.syn_sent = official SenderSummary.syn_sent ReceiverSummary.listen true true
of_state State.established = official SenderSummary.syn_acked ReceiverSummary.syn_recv true true
of_state State.close_wait = official SenderSummary.syn_acked ReceiverSummary.fin_recv true false
of_state State.last_ack = official SenderSummary.fin_sent ReceiverSummary.fin_recv true false
of_state State.closing = official SenderSummary.fin_sent ReceiverSummary.fin_recv true true
of_state State.fin_wait_1 = official SenderSummary.fin_sent ReceiverSummary.syn_recv true true
of_state State.fin_wait_2 = official SenderSummary.fin_acked ReceiverSummary.syn_recv true true
of_state State.time_wait = official SenderSummary.fin_acked ReceiverSummary.fin_recv true true
of_state State.reset = official SenderSummary.error ReceiverSummary.error false false
of_state State.closed = official SenderSummary.fin_acked ReceiverSummary.fin_recv false false

abbrev pub sender_code : SenderSummary → ℕ
sender_code SenderSummary.error = 0
sender_code SenderSummary.closed = 1
sender_code SenderSummary.syn_sent = 2
sender_code SenderSummary.syn_acked = 3
sender_code SenderSummary.fin_sent = 4
sender_code SenderSummary.fin_acked = 5

abbrev pub receiver_code : ReceiverSummary → ℕ
receiver_code ReceiverSummary.error = 0
receiver_code ReceiverSummary.listen = 1
receiver_code ReceiverSummary.syn_recv = 2
receiver_code ReceiverSummary.fin_recv = 3

abbrev pub bool_eq : Bool → Bool → Bool
bool_eq true b = b
bool_eq false b = not b

-- `TCPState::operator==`
unfoldable pub equals : TcpState → TcpState → Bool
equals s t =
    bool_eq s.active t.active
    && bool_eq s.linger t.linger
    && sender_code s.sender == sender_code t.sender
    && receiver_code s.receiver == receiver_code t.receiver

-- `TCPState::state_summary(const TCPReceiver &)`
unfoldable pub receiver_summary : TcpReceiver → ReceiverSummary
receiver_summary r =
    if ByteStream.error (Receiver.stream_out r)
    then ReceiverSummary.error
    else (elim (Receiver.ackno r) [
      | none ↦ ReceiverSummary.listen
      | some _ ↦
          if ByteStream.input_ended (Receiver.stream_out r)
          then ReceiverSummary.fin_recv
          else ReceiverSummary.syn_recv
    ])

-- `TCPState::state_summary(const TCPSender &)`
unfoldable pub sender_summary : TcpSender → SenderSummary
sender_summary s =
    let next = Sender.next_seqno_absolute s in
    let in_flight = Sender.bytes_in_flight s in
    if ByteStream.error s.stream
    then SenderSummary.error
    else (if next == 0
        then SenderSummary.closed
        else (if next == in_flight
            then SenderSummary.syn_sent
            else (if not (ByteStream.eof s.stream)
                then SenderSummary.syn_acked
                else (if ltb next (add64 (ByteStream.bytes_written s.stream) 2)
                    then SenderSummary.syn_acked
                    else (if not (in_flight == 0)
                        then SenderSummary.fin_sent
                        else SenderSummary.fin_acked)))))

-- `TCPState::TCPState(const TCPSender &, const TCPReceiver &, bool, bool)`
unfoldable pub summarize : TcpSender → TcpReceiver → Bool → Bool → TcpState
summarize s r active linger =
    official (sender_summary s) (receiver_summary r) active (if active then linger else false)
