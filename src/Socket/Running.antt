-- ===== src/Socket/Running.antt =====
-- libsponge/tcp_helpers/tcp_sponge_socket.cc: the four rules of a socket in its event loop, and the
-- thread that runs them. What the system calls on the pipe return stands in lists, the next call's
-- answer first; behind the end of a list `read` finds the end of the file.
use cpp_tcp.Common.{
  ℕ, zero, suc, Bool, true, false, ◌||◌, not, List, [], ◌∷◌, Option, none, some, if◌then◌else◌,
  Result, ok, err, Error, ◌>>=◌,
}
use cpp_tcp.Segment.{TcpSegment}
use cpp_tcp.Connection.{remaining_outbound_capacity}
use cpp_tcp.Adapter.{FdAdapter}
use cpp_tcp.Buffer.Views
use cpp_tcp.Descriptor
use cpp_tcp.Descriptor.{register_write}
use cpp_tcp.EventLoop.{FdState, inward, outward, Rule, Request, Polled, is_exit, wait_next_event}
use cpp_tcp.Copy.{next_read, next_write, later}
use cpp_tcp.Socket
use cpp_tcp.Socket.{
  SpongeSocket, datagram_in, wants_datagrams, shut_outbound, outbound_data, wants_data,
  inbound_offer, inbound_over, inbound_data, wants_pipe, segments_out, wants_segments,
}

-- The template parameter `AdaptT`: its descriptor, its `read` and its `write`, over a line on which
-- what is sent goes out.
pub record AdaptT (Line Sent : Type 0) : Type 0 where
  pub fd : Line → FdState
  pub read : FdAdapter → Line → Result ((Option TcpSegment × FdAdapter) × Line)
  pub write : FdAdapter → TcpSegment → Result Sent
  pub send : List Sent → Line → Line

-- The socket with its line and `_thread_data`, and what the system calls on the pipe will return.
pub record Running (Line : Type 0) : Type 0 where
  pub socket : SpongeSocket
  pub line : Line
  pub pipe : FdState
  pub pipe_reads : List (List ℕ)
  pub pipe_writes : List ℕ

-- A round of the loop: what `poll` finds, whether the owner has set `_abort` by its end, and the time
-- since the last tick.
pub record Moment : Type 0 where
  pub poll : List Request → Polled
  pub aborts : Bool
  pub elapsed : ℕ

module _ (Line Sent : Type 0) (adapt : AdaptT Line Sent) where
  -- The descriptors: the adapter's, and the pipe's.
  abbrev pub state_of : Running Line → ℕ → FdState
  state_of w fd = elim fd [ zero ↦ adapt.fd w.line | suc _ ↦ w.pipe ]

  -- Rule 1: read from the filtered packet stream and dump into the connection.
  unfoldable pub from_datagrams : Rule (Running Line) state_of
  from_datagrams = record {
    fd = 0;
    direction = inward;
    callback = λ w. adapt.read w.socket.adapter w.line >>= λ got.
        datagram_in w.socket got.0 w.pipe.eof >>= λ s. ok (record w { socket = s; line = got.1 });
    interest = λ w. wants_datagrams w.socket;
    cancel = λ w. ok w;
  }

  -- Rule 2: read from the pipe into the outbound buffer.
  unfoldable pub from_pipe : Rule (Running Line) state_of
  from_pipe = record {
    fd = 1;
    direction = inward;
    callback = λ w.
        Descriptor.read w.pipe (remaining_outbound_capacity w.socket.tcp) (next_read w.pipe_reads)
        >>= λ got. outbound_data w.socket got.0 got.1.eof >>= λ s.
            ok (record w { socket = s; pipe = got.1; pipe_reads = later w.pipe_reads });
    interest = λ w. wants_data w.socket;
    cancel = λ w. shut_outbound w.socket >>= λ s. ok (record w { socket = s });
  }

  -- Rule 3: read from the inbound buffer into the pipe. `Socket::shutdown` registers a write.
  unfoldable pub to_pipe : Rule (Running Line) state_of
  to_pipe = record {
    fd = 1;
    direction = outward;
    callback = λ w.
        Descriptor.write (λ _. next_write w.pipe_writes) false w.pipe
          (Views.of_view (inbound_offer w.socket))
        >>= λ put.
            let s = inbound_data w.socket put.0 in
            let pipe = if inbound_over s then register_write put.1 else put.1 in
            ok (record w { socket = s; pipe = pipe; pipe_writes = later w.pipe_writes });
    interest = λ w. wants_pipe w.socket;
    cancel = λ w. ok w;
  }

  -- Rule 4: read outbound segments from the connection and send them as datagrams.
  unfoldable pub to_datagrams : Rule (Running Line) state_of
  to_datagrams = record {
    fd = 0;
    direction = outward;
    callback = λ w. segments_out (adapt.write w.socket.adapter) w.socket >>= λ out.
        ok (record w { socket = out.1; line = adapt.send out.0 w.line });
    interest = λ w. wants_segments w.socket;
    cancel = λ w. ok w;
  }

  -- The event loop that `_initialize_TCP` sets up.
  abbrev pub rules : List (Rule (Running Line) state_of)
  rules = from_datagrams ∷ from_pipe ∷ to_pipe ∷ to_datagrams ∷ []

  abbrev pub aborting : Moment → Running Line → Running Line
  aborting now w = record w { socket = record w.socket { abort = now.aborts || w.socket.abort } }

  -- `_tcp_loop` over the rounds that come; the flag says whether it has left the loop. The tick of an
  -- adapter does nothing.
  unfoldable pub run_loop :
      (SpongeSocket → Bool)
      → List Moment
      → Running Line
      → List (Rule (Running Line) state_of)
      → Result (Bool × Running Line × List (Rule (Running Line) state_of))
  run_loop condition [] w rs = ok (not (condition w.socket), w, rs)
  run_loop condition (now ∷ later_on) w rs =
      let next = wait_next_event (Running Line) state_of w rs now.poll >>= λ out.
      let (result, w', rs') = out in
      let w'' = aborting now w' in
      let more = Socket.tick w''.socket now.elapsed >>= λ s.
      run_loop condition later_on (record w'' { socket = s }) rs' in
      if is_exit result || w''.socket.abort then ok (true, w'', rs') else more in
      if condition w.socket then next else ok (true, w, rs)

  -- `_tcp_main` for a socket that holds a connection, or none; the connection is dropped when the loop
  -- has been left. The thread's own `shutdown` concerns the owner's end of the pipe.
  unfoldable pub tcp_main :
      List Moment
      → Option (Running Line × List (Rule (Running Line) state_of))
      → Result (Option (Running Line × List (Rule (Running Line) state_of)))
  tcp_main moments none = err Error.runtime_error
  tcp_main moments (some (w, rs)) =
      run_loop (λ _. true) moments w rs >>= λ out. ok (if out.0 then none else some (out.1, out.2))
