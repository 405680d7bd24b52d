-- ===== src/Network.antt =====
-- A sender and a receiver joined by a network that loses, repeats and reorders: the calls that
-- tcp_connection.cc makes of the two halves, in every order.
pub mod Genuine
pub mod Sending
pub mod Hearing
pub mod Ticking
pub mod Writing
pub mod Receiving
pub mod Fronts
pub mod Invariant
pub mod Calls
pub mod Delivery
pub mod EndToEnd
use cpp_tcp.Common.{ℕ, List, [], ◌∷◌, ◌++◌, some, ◌≡◌, ok, get_elem?, take, to_u16}
use cpp_tcp.Wrapping.{WrappingInt32}
use cpp_tcp.ByteStream
use cpp_tcp.Segment.{TcpSegment}
use cpp_tcp.Receiver
use cpp_tcp.Receiver.{TcpReceiver}
use cpp_tcp.Sender
use cpp_tcp.Sender.{TcpSender}

-- `sent` are the segments that ever entered the network, `acks` the acknowledgment numbers and
-- windows that ever left the receiver, `written` the bytes that the sending stream has accepted, and
-- `got` the bytes that the receiving application has read.
pub record System : Type 0 where
  pub sender : TcpSender
  pub receiver : TcpReceiver
  pub sent : List TcpSegment
  pub acks : List (WrappingInt32 × ℕ)
  pub written : List ℕ
  pub got : List ℕ

-- The receiver with another output stream.
abbrev pub with_stream : TcpReceiver → ByteStream.ByteStream → TcpReceiver
with_stream r out = record r { reassembler = record r.reassembler { output = out } }

pub data Step (s : System) : System → Type 0 where
  writes :
      (bytes : List ℕ)
      → Step s (record s {
        sender = record s.sender { stream = (ByteStream.write s.sender.stream bytes).0 };
        written = s.written ++ take (ByteStream.write s.sender.stream bytes).1 bytes;
      })
  ends :
      Step s
        (record s { sender = record s.sender { stream = ByteStream.end_input s.sender.stream } })
  fills :
      {sender : TcpSender}
      → Sender.fill_window s.sender ≡ ok sender
      → Step s (record s { sender = sender })
  ticks : (ms : ℕ) → Step s (record s { sender = Sender.tick s.sender ms })
  probes : Step s (record s { sender = Sender.send_empty_segment s.sender })
  transmits : Step s (record s {
    sender = record s.sender { segments_out = [] };
    sent = s.sent ++ s.sender.segments_out;
  })
  delivers :
      (i : ℕ) (seg : TcpSegment) {receiver : TcpReceiver}
      → get_elem? s.sent i ≡ some seg
      → Receiver.segment_received s.receiver seg ≡ ok receiver
      → Step s (record s { receiver = receiver })
  reads :
      (len : ℕ)
      → Step s (record s {
        receiver = with_stream s.receiver (ByteStream.read (Receiver.stream_out s.receiver) len).1;
        got = s.got ++ (ByteStream.read (Receiver.stream_out s.receiver) len).0;
      })
  acknowledges :
      (ackno : WrappingInt32)
      → Receiver.ackno s.receiver ≡ some ackno
      → Step s
          (record s { acks = s.acks ++ (ackno, to_u16 (Receiver.window_size s.receiver)) ∷ [] })
  hears :
      (i : ℕ) (ackno : WrappingInt32) (win : ℕ) {sender : TcpSender}
      → get_elem? s.acks i ≡ some (ackno, win)
      → Sender.ack_received s.sender ackno win ≡ ok sender
      → Step s (record s { sender = sender })

-- Both ends as they are made; the sender's initial sequence number is given.
abbrev pub start : ℕ → ℕ → ℕ → WrappingInt32 → System
start send_capacity recv_capacity rt_timeout isn = record {
  sender = Sender.create send_capacity rt_timeout (some isn) isn;
  receiver = Receiver.create recv_capacity;
  sent = [];
  acks = [];
  written = [];
  got = [];
}

-- The systems that the steps lead to.
pub data Reach (init : System) : System → Type 0 where
  here : Reach init init
  later : {s t : System} → Reach init s → Step s t → Reach init t
