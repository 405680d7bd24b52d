-- ===== src/Tests/Sockets.antt =====
-- The rules of a socket at concrete inputs.
use cpp_tcp.Common.{
  ◌≡◌, refl, arith, true, [], ◌∷◌, ◌++◌, some, none, Returns, IfReturns, inl, inr, List, ok, false,
  not,
}
use cpp_tcp.ByteStream
use cpp_tcp.ByteStream.{ByteStream}
use cpp_tcp.ByteStream.Invariant
use cpp_tcp.Window
use cpp_tcp.Window.Shape
use cpp_tcp.Sender
use cpp_tcp.Sender.Shape.{IsValid}
use cpp_tcp.Sender.Syn.{syn_segment}
use cpp_tcp.State.{State}
use cpp_tcp.Reassembler
use cpp_tcp.Receiver
use cpp_tcp.Connection
use cpp_tcp.Connection.{TcpConfig, is_in}
use cpp_tcp.Socket.{
  SpongeSocket, initialize_tcp, outbound_data, with_inbound, connect, segments_write,
}
use cpp_tcp.Socket.Pipe.{PassesOn, outbound_data-PassesOn}
use cpp_tcp.Socket.Opening.{new_sender, connect_sends_syn}
use cpp_tcp.Segment.{TcpSegment, default_segment, set_rst}
use cpp_tcp.Adapter.{with_ports}
use cpp_tcp.Descriptor.{register_read, register_write}
use cpp_tcp.Copy.{fresh}
use cpp_tcp.EventLoop.{FdState, Polled, success, is_exit, wait_next_event}
use cpp_tcp.EventLoop.Quiet.{writable_only}
use cpp_tcp.Socket.Running.{
  AdaptT, Running, Moment, state_of, from_datagrams, to_pipe, to_datagrams, tcp_main,
}
use cpp_tcp.Socket.Ending.{has_work, rules_without_pipe, exits_without_work}
use cpp_tcp.Socket.Emptying.{IsOpen, after_sending, tcp_main_sends_rest}
use cpp_tcp.Tests.Packets.{near}

abbrev config : TcpConfig
config = record { rt_timeout = 1000; recv_capacity = 10; send_capacity = 10; fixed_isn = some 7 }

abbrev socket : SpongeSocket
socket = initialize_tcp config 0 near

config-IsValid : IsValid (new_sender config 0)
unfolding Sender.create Window.create ByteStream.create ByteStream.buffer_size
config-IsValid = record {
  stream = (Invariant.create-IsValid 10 (omega arith)).0;
  window = Shape.create-IsValid 7 1 (omega arith) (omega arith);
  in_step = inl (refl, refl);
  sound = refl;
  usable = omega arith;
  bounded = omega arith;
  syn_first = λ _. (omega arith, omega arith);
}

outbound_data-PassesOn_example :
    Returns (PassesOn socket (1 ∷ 2 ∷ 3 ∷ []) true) (outbound_data socket (1 ∷ 2 ∷ 3 ∷ []) true)
unfolding Connection.create Connection.remaining_outbound_capacity Sender.create ByteStream.create
    ByteStream.buffer_size ByteStream.remaining_capacity
outbound_data-PassesOn_example =
    outbound_data-PassesOn socket (1 ∷ 2 ∷ 3 ∷ []) true config-IsValid refl (omega arith)
      (omega arith) refl

connect_sends_syn_example :
    Returns
      (λ s.
        (is_in (Connection.state s.tcp) State.syn_sent ≡ true)
        × (s.tcp.segments_out ≡ syn_segment (new_sender config 0) ∷ [])
        × (s.adapter.cfg ≡ near.cfg))
      (connect none config 0 near near.cfg)
unfolding Sender.create Window.create
connect_sends_syn_example = connect_sends_syn config 0 near near.cfg (omega arith) (omega arith)

-- A line that keeps what is sent, under an adapter that reads nothing.
pub record Wire : Type 0 where
  pub fd : FdState
  pub sent : List TcpSegment

abbrev wire : Wire
wire = record { fd = fresh; sent = [] }

abbrev wiring : AdaptT Wire TcpSegment
wiring = record {
  fd = λ l. l.fd;
  read = λ a l. ok ((none, a), record l { fd = register_read l.fd });
  write = λ a seg. ok (with_ports a seg);
  send = λ segs l. record l { fd = register_write l.fd; sent = l.sent ++ segs };
}

-- A socket whose connection has been given up, with its RST in the queue.
abbrev given_up : Running Wire
given_up = record {
  socket = record socket {
    tcp = Connection.unclean_shutdown socket.tcp;
    inbound_shutdown = true;
    outbound_shutdown = true;
  };
  line = wire;
  pipe = record fresh { eof = true };
  pipe_reads = [];
  pipe_writes = [];
}

abbrev quiet : Moment
quiet = record { poll = λ asks. Polled.timed_out; aborts = false; elapsed = 10 }

given_up-IsOpen : IsOpen Wire TcpSegment wiring given_up
given_up-IsOpen = record { line = (refl, refl); sent = λ sent. (refl, refl); pipe = refl }

abbrev reset_sent : List TcpSegment
reset_sent = with_ports near (set_rst default_segment true) ∷ []

tcp_main_sends_rest_example :
    (wait_next_event
        (Running Wire)
        (state_of Wire TcpSegment wiring)
        given_up
        (rules_without_pipe Wire TcpSegment wiring)
        writable_only
      ≡ ok (
        success,
        after_sending Wire TcpSegment wiring given_up reset_sent,
        rules_without_pipe Wire TcpSegment wiring,
      ))
    × (tcp_main Wire TcpSegment wiring
          (record { poll = writable_only; aborts = false; elapsed = 10 } ∷ quiet ∷ [])
          (some (given_up, rules_without_pipe Wire TcpSegment wiring))
        ≡ ok none)
unfolding Connection.unclean_shutdown Connection.create segments_write Receiver.create
    Reassembler.create ByteStream.create ByteStream.buffer_empty ByteStream.eof ByteStream.set_error
tcp_main_sends_rest_example =
    tcp_main_sends_rest Wire TcpSegment wiring given_up reset_sent false 10 quiet [] given_up-IsOpen
      refl refl refl refl

exits_without_work_example :
    IfReturns
      (λ out. is_exit out.0 ≡ not (has_work given_up.socket))
      (wait_next_event
        (Running Wire)
        (state_of Wire TcpSegment wiring)
        given_up
        (rules_without_pipe Wire TcpSegment wiring)
        quiet.poll)
unfolding from_datagrams to_pipe to_datagrams
exits_without_work_example =
    exits_without_work Wire TcpSegment wiring given_up (rules_without_pipe Wire TcpSegment wiring)
      quiet.poll (inr refl) (refl, (refl, (refl, tt))) λ asks e. absurd (ground (arith, e))

-- The application has not yet got the bytes 1, 2 and 3, and the pipe takes two.
abbrev filled : ByteStream
filled = (ByteStream.write (ByteStream.create 10) (1 ∷ 2 ∷ 3 ∷ [])).0

abbrev delivering : Running Wire
delivering = record given_up {
  socket = with_inbound socket filled;
  pipe = fresh;
  pipe_writes = 2 ∷ [];
}
