-- ===== src/Tests/Networks.antt =====
-- Runs of two ends and the network between them.
use cpp_tcp.Common.{
  get_or, true, IsPrefix, ℕ, ◌≡◌, refl, arith, List, [], ◌∷◌, ◌++◌, Result, ok, err,
}
use cpp_tcp.ByteStream
use cpp_tcp.Segment.{default_segment}
use cpp_tcp.Wrapping
use cpp_tcp.Window
use cpp_tcp.Reassembler
use cpp_tcp.Sender
use cpp_tcp.Sender.{TcpSender}
use cpp_tcp.Receiver
use cpp_tcp.Receiver.{TcpReceiver}
use cpp_tcp.Network.{
  System, writes, ends, fills, transmits, delivers, reads, acknowledges, hears, start, with_stream,
  Reach, here, later,
}
use cpp_tcp.Network.EndToEnd.{got-IsPrefix}

abbrev value_or : {A : Type 0} → A → Result A → A
value_or d (ok a) = a
value_or d (err e) = d

-- The five bytes 10, 20, 30, 40, 50 are written at an end with a capacity of 4 bytes.
abbrev begun : System
begun = start 4 8 1000 7

abbrev bytes : List ℕ
bytes = 10 ∷ 20 ∷ 30 ∷ []

abbrev written : System
written = record begun {
  sender = record begun.sender { stream = (ByteStream.write begun.sender.stream bytes).0 };
  written = bytes;
}

abbrev fill : System → System
fill s = record s { sender = value_or s.sender (Sender.fill_window s.sender) }

abbrev transmit : System → System
transmit s = record s {
  sender = record s.sender { segments_out = [] };
  sent = s.sent ++ s.sender.segments_out;
}

abbrev opened : System
opened = transmit (fill written)

-- The acknowledgment of the SYN.
abbrev deliver : System → ℕ → System
deliver s i = record s {
  receiver =
      value_or s.receiver (Receiver.segment_received s.receiver (get_or s.sent i default_segment));
}

abbrev connected : System
connected = deliver opened 0

abbrev answered : System
answered = record connected { acks = (8, 8) ∷ [] }

abbrev heard : System
heard = transmit (record answered {
  sender = value_or answered.sender (Sender.ack_received answered.sender 8 8);
})

abbrev arrived : System
arrived = deliver (deliver heard 1) 1

abbrev finished : System
finished = record arrived {
  receiver =
      with_stream arrived.receiver (ByteStream.read (Receiver.stream_out arrived.receiver) 2).1;
  got = 10 ∷ 20 ∷ [];
}

run1 : Reach begun opened
unfolding Sender.fill_window Sender.open_connection Sender.state Sender.create Sender.add_and_send
    Sender.fill_loop Sender.may_send Sender.next_segment Sender.payload_size Sender.ack_received
    ByteStream.write ByteStream.create ByteStream.write_loop ByteStream.buffer_full
    ByteStream.next_index_of ByteStream.put ByteStream.buffer_size ByteStream.buffer_empty
    ByteStream.eof ByteStream.peek_loop ByteStream.peek_output ByteStream.pop_output ByteStream.read
    Window.create Window.add_segment Window.full Window.space Window.bytes_in_flight Window.seqno_of
    Window.shrink_front Window.expand_back Window.advance Window.set_window_size
    Window.entries_before Window.erase_acked Window.accept_ack Window.ack_received
    Window.reset_timer Wrapping.in_block Wrapping.unwrap Wrapping.wrap Wrapping.plus Wrapping.minus
    Receiver.create Receiver.note_syn Receiver.advance_checkpoint Receiver.stream_index
    Receiver.take_segment Receiver.segment_received Receiver.ackno Receiver.window_size
    Reassembler.create Reassembler.empty Reassembler.update_size Reassembler.store_byte
    Reassembler.store Reassembler.assemble Reassembler.flush Reassembler.update_output
    Reassembler.push_substring Reassembler.distance
run1 = later (later (later here (writes bytes)) (fills refl)) transmits

run2 : Reach begun answered
unfolding Sender.fill_window Sender.open_connection Sender.state Sender.create Sender.add_and_send
    Sender.fill_loop Sender.may_send Sender.next_segment Sender.payload_size Sender.ack_received
    ByteStream.write ByteStream.create ByteStream.write_loop ByteStream.buffer_full
    ByteStream.next_index_of ByteStream.put ByteStream.buffer_size ByteStream.buffer_empty
    ByteStream.eof ByteStream.peek_loop ByteStream.peek_output ByteStream.pop_output ByteStream.read
    Window.create Window.add_segment Window.full Window.space Window.bytes_in_flight Window.seqno_of
    Window.shrink_front Window.expand_back Window.advance Window.set_window_size
    Window.entries_before Window.erase_acked Window.accept_ack Window.ack_received
    Window.reset_timer Wrapping.in_block Wrapping.unwrap Wrapping.wrap Wrapping.plus Wrapping.minus
    Receiver.create Receiver.note_syn Receiver.advance_checkpoint Receiver.stream_index
    Receiver.take_segment Receiver.segment_received Receiver.ackno Receiver.window_size
    Reassembler.create Reassembler.empty Reassembler.update_size Reassembler.store_byte
    Reassembler.store Reassembler.assemble Reassembler.flush Reassembler.update_output
    Reassembler.push_substring Reassembler.distance
run2 =
    later (later run1 (delivers 0 (get_or opened.sent 0 default_segment) refl refl))
      (acknowledges 8 refl)

run3 : Reach begun heard
unfolding Sender.fill_window Sender.open_connection Sender.state Sender.create Sender.add_and_send
    Sender.fill_loop Sender.may_send Sender.next_segment Sender.payload_size Sender.ack_received
    ByteStream.write ByteStream.create ByteStream.write_loop ByteStream.buffer_full
    ByteStream.next_index_of ByteStream.put ByteStream.buffer_size ByteStream.buffer_empty
    ByteStream.eof ByteStream.peek_loop ByteStream.peek_output ByteStream.pop_output ByteStream.read
    Window.create Window.add_segment Window.full Window.space Window.bytes_in_flight Window.seqno_of
    Window.shrink_front Window.expand_back Window.advance Window.set_window_size
    Window.entries_before Window.erase_acked Window.accept_ack Window.ack_received
    Window.reset_timer Wrapping.in_block Wrapping.unwrap Wrapping.wrap Wrapping.plus Wrapping.minus
    Receiver.create Receiver.note_syn Receiver.advance_checkpoint Receiver.stream_index
    Receiver.take_segment Receiver.segment_received Receiver.ackno Receiver.window_size
    Reassembler.create Reassembler.empty Reassembler.update_size Reassembler.store_byte
    Reassembler.store Reassembler.assemble Reassembler.flush Reassembler.update_output
    Reassembler.push_substring Reassembler.distance
run3 = later (later run2 (hears 0 8 8 refl refl)) transmits

run4 : Reach begun finished
unfolding Sender.fill_window Sender.open_connection Sender.state Sender.create Sender.add_and_send
    Sender.fill_loop Sender.may_send Sender.next_segment Sender.payload_size Sender.ack_received
    ByteStream.write ByteStream.create ByteStream.write_loop ByteStream.buffer_full
    ByteStream.next_index_of ByteStream.put ByteStream.buffer_size ByteStream.buffer_empty
    ByteStream.eof ByteStream.peek_loop ByteStream.peek_output ByteStream.pop_output ByteStream.read
    Window.create Window.add_segment Window.full Window.space Window.bytes_in_flight Window.seqno_of
    Window.shrink_front Window.expand_back Window.advance Window.set_window_size
    Window.entries_before Window.erase_acked Window.accept_ack Window.ack_received
    Window.reset_timer Wrapping.in_block Wrapping.unwrap Wrapping.wrap Wrapping.plus Wrapping.minus
    Receiver.create Receiver.note_syn Receiver.advance_checkpoint Receiver.stream_index
    Receiver.take_segment Receiver.segment_received Receiver.ackno Receiver.window_size
    Reassembler.create Reassembler.empty Reassembler.update_size Reassembler.store_byte
    Reassembler.store Reassembler.assemble Reassembler.flush Reassembler.update_output
    Reassembler.push_substring Reassembler.distance
run4 =
    later
      (later (later run3 (delivers 1 (get_or heard.sent 1 default_segment) refl refl))
        (delivers 1 (get_or heard.sent 1 default_segment) refl refl))
      (reads 2)

-- The first segment with data arrives twice.
got-IsPrefix_example : IsPrefix {A = ℕ} (10 ∷ 20 ∷ []) (10 ∷ 20 ∷ 30 ∷ [])
got-IsPrefix_example =
    got-IsPrefix 4 8 1000 7 {sys = finished} (omega arith) (omega arith) (omega arith) run4
      (omega arith) (omega arith)

-- The input ends after the bytes have been sent, so the FIN travels alone; it arrives before them.
abbrev ended : System
ended = record heard {
  sender = record heard.sender { stream = ByteStream.end_input heard.sender.stream };
}

abbrev overtaken : System
overtaken = deliver (transmit (fill ended)) 2

run5 : Reach begun overtaken
unfolding Sender.fill_window Sender.open_connection Sender.state Sender.create Sender.add_and_send
    Sender.fill_loop Sender.may_send Sender.next_segment Sender.payload_size Sender.ack_received
    ByteStream.write ByteStream.create ByteStream.write_loop ByteStream.buffer_full
    ByteStream.next_index_of ByteStream.put ByteStream.buffer_size ByteStream.buffer_empty
    ByteStream.eof ByteStream.peek_loop ByteStream.peek_output ByteStream.pop_output ByteStream.read
    Window.create Window.add_segment Window.full Window.space Window.bytes_in_flight Window.seqno_of
    Window.shrink_front Window.expand_back Window.advance Window.set_window_size
    Window.entries_before Window.erase_acked Window.accept_ack Window.ack_received
    Window.reset_timer Wrapping.in_block Wrapping.unwrap Wrapping.wrap Wrapping.plus Wrapping.minus
    Receiver.create Receiver.note_syn Receiver.advance_checkpoint Receiver.stream_index
    Receiver.take_segment Receiver.segment_received Receiver.ackno Receiver.window_size
    Reassembler.create Reassembler.empty Reassembler.update_size Reassembler.store_byte
    Reassembler.store Reassembler.assemble Reassembler.flush Reassembler.update_output
    Reassembler.push_substring Reassembler.distance ByteStream.end_input
run5 =
    later (later (later (later run3 ends) (fills refl)) transmits)
      (delivers 2 (get_or (transmit (fill ended)).sent 2 default_segment) refl refl)

-- The reader sees the end of a stream of which it got nothing, and the bytes that come later are lost.
overtaken_ends :
    (ByteStream.eof (Receiver.stream_out overtaken.receiver) ≡ true)
    × (ByteStream.eof (Receiver.stream_out (deliver overtaken 1).receiver) ≡ true)
    × (overtaken.written ≡ bytes)
unfolding Sender.fill_window Sender.open_connection Sender.state Sender.create Sender.add_and_send
    Sender.fill_loop Sender.may_send Sender.next_segment Sender.payload_size Sender.ack_received
    ByteStream.write ByteStream.create ByteStream.write_loop ByteStream.buffer_full
    ByteStream.next_index_of ByteStream.put ByteStream.buffer_size ByteStream.buffer_empty
    ByteStream.eof ByteStream.peek_loop ByteStream.peek_output ByteStream.pop_output ByteStream.read
    Window.create Window.add_segment Window.full Window.space Window.bytes_in_flight Window.seqno_of
    Window.shrink_front Window.expand_back Window.advance Window.set_window_size
    Window.entries_before Window.erase_acked Window.accept_ack Window.ack_received
    Window.reset_timer Wrapping.in_block Wrapping.unwrap Wrapping.wrap Wrapping.plus Wrapping.minus
    Receiver.create Receiver.note_syn Receiver.advance_checkpoint Receiver.stream_index
    Receiver.take_segment Receiver.segment_received Receiver.ackno Receiver.window_size
    Reassembler.create Reassembler.empty Reassembler.update_size Reassembler.store_byte
    Reassembler.store Reassembler.assemble Reassembler.flush Reassembler.update_output
    Reassembler.push_substring Reassembler.distance ByteStream.end_input
overtaken_ends = (refl, refl, refl)
