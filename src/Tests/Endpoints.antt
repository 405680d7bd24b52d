-- ===== src/Tests/Endpoints.antt =====
-- The receiver, the connection and the wire format at concrete inputs.
use cpp_tcp.Common.{◌≡◌, refl, true, false, arith, List, [], ◌∷◌, some, Returns, IfReturns}
use cpp_tcp.Wrapping.{wrap}
use cpp_tcp.ByteStream
use cpp_tcp.Segment.{TcpSegment, default_segment, default_header, set_seqno, set_payload}
use cpp_tcp.Window
use cpp_tcp.Window.{TcpSendingWindow}
use cpp_tcp.Reassembler
use cpp_tcp.Reassembler.{StreamReassembler}
use cpp_tcp.Receiver
use cpp_tcp.Receiver.{TcpReceiver}
use cpp_tcp.Receiver.Acks.{MovedOn, in_order_acknowledged}
use cpp_tcp.Sender
use cpp_tcp.State
use cpp_tcp.State.{State, of_state, equals}
use cpp_tcp.Connection
use cpp_tcp.Connection.{
  TcpConfig, TcpConnection, state, is_in, segment_received, answer_keep_alive, tick, stamp,
}
use cpp_tcp.Connection.Over.{Event, handle_all, arrives, passes, writes, ends, Inactive, stays_over}
use cpp_tcp.Connection.Lingering.{Finishing, OverAfter, ticks, ticks_end_wait}
use cpp_tcp.Connection.Outgoing.{AllStamped, stamp-AllStamped}
use cpp_tcp.Parser
use cpp_tcp.Parser.{ParseResult}
use cpp_tcp.TcpWire.{serialize}
use cpp_tcp.TcpWire.Header.{Fits}
use cpp_tcp.TcpWire.Checked.{ComesBack, parse-serialize}
use cpp_tcp.Tests.Windows.{syn_7}

-- A receiver that has the SYN with the number 7.
abbrev listening : TcpReceiver
listening = record {
  reassembler = Reassembler.create 10;
  isn = 7;
  is_set = true;
  ended = false;
  checkpoint = 1;
  capacity = 10;
}

-- A segment with the first byte of the stream.
abbrev first_byte : TcpSegment
first_byte = set_payload (set_seqno default_segment 8) (65 ∷ [])

abbrev with_first_byte : StreamReassembler
with_first_byte = record {
  output = (ByteStream.write (ByteStream.create 10) (65 ∷ [])).0;
  capacity = 10;
  eofed = false;
  first_unread = 0;
  first_unassembled = 1;
  first_unacceptable = 1;
  buffer = 65 ∷ 0 ∷ 0 ∷ 0 ∷ 0 ∷ 0 ∷ 0 ∷ 0 ∷ 0 ∷ 0 ∷ [];
  count = 1 ∷ 0 ∷ 0 ∷ 0 ∷ 0 ∷ 0 ∷ 0 ∷ 0 ∷ 0 ∷ 0 ∷ [];
}

in_order_acknowledged_example :
    Returns
      (λ r'. MovedOn listening 1 r' × (r'.reassembler ≡ with_first_byte))
      (Receiver.segment_received listening first_byte)
unfolding wrap Reassembler.create ByteStream.create Reassembler.push_substring
    Reassembler.update_output Reassembler.update_size Reassembler.store Reassembler.store_byte
    Reassembler.assemble Reassembler.flush Reassembler.empty Reassembler.count_stored
    ByteStream.write ByteStream.write_loop ByteStream.put ByteStream.buffer_size
    ByteStream.buffer_full ByteStream.next_index_of ByteStream.end_input
in_order_acknowledged_example =
    in_order_acknowledged listening first_byte with_first_byte refl refl (omega arith) refl
      (omega arith) (omega arith) refl (omega arith)

abbrev config : TcpConfig
config = record { rt_timeout = 1000; recv_capacity = 10; send_capacity = 10; fixed_isn = some 7 }

abbrev opened : TcpConnection
opened = Connection.create config 7

abbrev over : TcpConnection
over = Connection.unclean_shutdown opened

abbrev later : List Event
later = arrives syn_7 ∷ passes 100 ∷ writes (1 ∷ []) ∷ ends ∷ []

stays_over_example : IfReturns Inactive (handle_all later over)
unfolding Connection.unclean_shutdown
stays_over_example = stays_over later over refl

-- Both streams are over and acknowledged.
abbrev finished : TcpConnection
finished = record {
  cfg = config;
  receiver = record listening {
    reassembler = record (Reassembler.create 10) {
      output = ByteStream.end_input (ByteStream.create 10);
    };
    ended = true;
    checkpoint = 2;
  };
  sender = record (Sender.create 10 1000 (some 7) 7) {
    stream = ByteStream.end_input (ByteStream.create 10);
    window = record { buffer = []; isn = 7; first_seqno = 2; window_size = 10; next_seqno = 2 };
  };
  segments_out = [];
  linger_after_streams_finish = true;
  active = true;
  time_since_last_segment_received = 4000;
}

finished-Finishing : Finishing finished
unfolding State.sender_summary State.receiver_summary Receiver.ackno ByteStream.end_input
    ByteStream.create ByteStream.eof ByteStream.buffer_empty Reassembler.create Sender.create
    Window.bytes_in_flight
finished-Finishing = record {
  sent = refl;
  received = refl;
  nothing_kept = refl;
  few = omega arith;
  open_until = refl;
  lingers = refl;
}

ticks_end_wait_example :
    Returns (OverAfter finished 6000) (handle_all (ticks (1000 ∷ 3000 ∷ 2000 ∷ [])) finished)
ticks_end_wait_example =
    ticks_end_wait (1000 ∷ 3000 ∷ 2000 ∷ []) finished finished-Finishing (omega arith)

stamp-AllStamped_example :
    Returns
      (AllStamped listening 8 (first_byte ∷ syn_7 ∷ []))
      (stamp listening (first_byte ∷ syn_7 ∷ []))
unfolding Receiver.ackno wrap
stamp-AllStamped_example = stamp-AllStamped listening 8 (first_byte ∷ syn_7 ∷ []) refl

default_header-Fits : Fits default_header
default_header-Fits = record {
  sport = omega arith;
  dport = omega arith;
  seqno = omega arith;
  ackno = omega arith;
  doff_low = omega arith;
  doff_high = omega arith;
  win = omega arith;
  cksum = omega arith;
  uptr = omega arith;
}

abbrev hello : TcpSegment
hello = set_payload default_segment (104 ∷ 105 ∷ [])

parse-serialize_example : Returns (ComesBack hello 50) (serialize hello 50)
unfolding Parser.unparse_int
parse-serialize_example =
    parse-serialize hello 50 default_header-Fits (omega arith, (omega arith, tt)) (omega arith)
