-- ===== src/Copy/Rules.antt =====
-- The four rules under the event loop.
use cpp_tcp.Common.{
  ℕ, Bool, true, List, [], ◌∷◌, ok, if-both, All, IfReturns, IfReturns-step, IfReturns-map,
  IsPrefix,
}
use cpp_tcp.EventLoop.{FdState, Rule, Request, Polled, wait_next_event}
use cpp_tcp.EventLoop.Keeping.{Keeps, wait_next_event-Keeps, After}
use cpp_tcp.Descriptor.{register_write, close}
use cpp_tcp.Copy.{
  Copying, state_of, fill, drain, next_read, next_write, from_input, to_socket, from_socket,
  to_output, rules, copy_loop, bidirectional_stream_copy, is_exit, fresh, channel,
}
use cpp_tcp.Copy.Flow.{
  Flows, FlowsOn, fill-Flows, drain-Flows, finish-Flows, end_stream-Flows, channel-Flows,
  Flows-IsPrefix,
}

-- Both directions.
abbrev pub BothFlow : Copying → Type 0
BothFlow w = Flows w.outbound × Flows w.inbound

from_input-Keeps : Keeps Copying state_of BothFlow from_input
unfolding from_input
from_input-Keeps = record {
  callback = λ w (f, g).
      IfReturns-step FlowsOn BothFlow (fill w.outbound w.input (next_read w.input_reads)) _
        (fill-Flows w.outbound w.input (next_read w.input_reads) f) λ out h. (h, g);
  cancel = λ w (f, g). (end_stream-Flows f, g);
}

to_socket-Keeps : Keeps Copying state_of BothFlow to_socket
unfolding to_socket
to_socket-Keeps = record {
  callback = λ w (f, g).
      IfReturns-step FlowsOn BothFlow (drain w.outbound w.socket (next_write w.socket_writes)) _
        (drain-Flows w.outbound w.socket (next_write w.socket_writes) f)
        λ out h. (finish-Flows register_write out h, g);
  cancel = λ w (f, g). (end_stream-Flows f, g);
}

from_socket-Keeps : Keeps Copying state_of BothFlow from_socket
unfolding from_socket
from_socket-Keeps = record {
  callback = λ w (f, g).
      IfReturns-step FlowsOn BothFlow (fill w.inbound w.socket (next_read w.socket_reads)) _
        (fill-Flows w.inbound w.socket (next_read w.socket_reads) g) λ out h. (f, h);
  cancel = λ w (f, g). (f, end_stream-Flows g);
}

to_output-Keeps : Keeps Copying state_of BothFlow to_output
unfolding to_output
to_output-Keeps = record {
  callback = λ w (f, g).
      IfReturns-step FlowsOn BothFlow (drain w.inbound w.output (next_write w.output_writes)) _
        (drain-Flows w.inbound w.output (next_write w.output_writes) g)
        λ out h. (f, finish-Flows close out h);
  cancel = λ w (f, g). (f, end_stream-Flows g);
}

abbrev Looped : Bool × Copying → Type 0
Looped out = BothFlow out.1

copy_loop-BothFlow :
    (polls : List (List Request → Polled)) (w : Copying) (rs : List (Rule Copying state_of))
    → BothFlow w
    → All (Keeps Copying state_of BothFlow) rs
    → IfReturns Looped (copy_loop polls w rs)
unfolding copy_loop
copy_loop-BothFlow [] w rs f ks = f
copy_loop-BothFlow (poll ∷ polls) w rs f ks =
    IfReturns-step (After Copying state_of BothFlow) Looped
      (wait_next_event Copying state_of w rs poll) _
      (wait_next_event-Keeps Copying state_of BothFlow w rs poll f ks)
      λ (result, w', rs') (f', ks').
        if-both (IfReturns Looped) (is_exit result) (ok (true, w')) (copy_loop polls w' rs')
          (λ _. f') (λ _. copy_loop-BothFlow polls w' rs' f' ks')

-- In both directions, and at both ends of the copy: what comes out is a front part of what went in.
abbrev pub InOrder : Bool × Copying → Type 0
InOrder out =
    IsPrefix out.1.outbound.given out.1.outbound.taken
    × IsPrefix out.1.inbound.given out.1.inbound.taken

-- bidirectional_stream_copy under any sequence of rounds, whatever `poll`, `read` and `writev` answer
-- in them: as long as no call throws, what was written to the socket is a front part of what was read
-- from standard input, and what was written to standard output a front part of what was read from the
-- socket.
pub copies-InOrder :
    (socket : FdState) (input_reads socket_reads : List (List ℕ))
    (socket_writes output_writes : List ℕ) (polls : List (List Request → Polled))
    → IfReturns InOrder (
        bidirectional_stream_copy socket input_reads socket_reads socket_writes output_writes polls)
unfolding bidirectional_stream_copy
copies-InOrder socket input_reads socket_reads socket_writes output_writes polls =
    let w : Copying = record {
      outbound = channel;
      inbound = channel;
      input = fresh;
      socket = socket;
      output = fresh;
      input_reads = input_reads;
      socket_reads = socket_reads;
      socket_writes = socket_writes;
      output_writes = output_writes;
    } in
    IfReturns-map Looped InOrder (copy_loop polls w rules)
      (λ out f. (Flows-IsPrefix f.0, Flows-IsPrefix f.1))
      (copy_loop-BothFlow polls w rules (channel-Flows, channel-Flows)
        (from_input-Keeps, (to_socket-Keeps, (from_socket-Keeps, (to_output-Keeps, tt)))))
