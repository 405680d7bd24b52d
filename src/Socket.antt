-- ===== src/Socket.antt =====
-- libsponge/tcp_helpers/tcp_sponge_socket.hh and tcp_sponge_socket.cc: the owner of a connection, an
-- adapter and the pipe to the application, and the four rules of its event loop. What the pipe and
-- the adapter deliver are arguments; what the code prints to cerr is left out.
pub mod Pipe
pub mod Opening
pub mod Running
pub mod Inbound
pub mod Ending
pub mod Emptying
use cpp_tcp.Common.{
  ℕ, zero, Bool, true, false, ◌&&◌, ◌||◌, not, ◌==◌, ltb, List, [], ◌∷◌, Option, none, some, min,
  length, if◌then◌else◌, Result, ok, err, Error, ◌>>=◌,
}
use cpp_tcp.Wrapping.{WrappingInt32}
use cpp_tcp.ByteStream
use cpp_tcp.ByteStream.{ByteStream}
use cpp_tcp.Segment.{TcpSegment}
use cpp_tcp.Receiver
use cpp_tcp.State.{State}
use cpp_tcp.Connection
use cpp_tcp.Connection.{TcpConnection, TcpConfig, is_in, remaining_outbound_capacity}
use cpp_tcp.Adapter.{FdAdapter, FdAdapterConfig, set_listening}
use cpp_tcp.EventLoop.{LoopResult, is_exit}

-- `TCPSpongeSocket` while `_tcp` holds a connection.
pub record SpongeSocket : Type 0 where
  pub tcp : TcpConnection
  pub adapter : FdAdapter
  pub abort : Bool
  pub inbound_shutdown : Bool
  pub outbound_shutdown : Bool
  pub fully_acked : Bool

abbrev pub inbound_stream : SpongeSocket → ByteStream
inbound_stream s = Receiver.stream_out s.tcp.receiver

-- `_tcp->inbound_stream()` is a reference: a change of the stream is one of the connection.
abbrev pub with_inbound : SpongeSocket → ByteStream → SpongeSocket
with_inbound s out = record s {
  tcp = record s.tcp {
    receiver = record s.tcp.receiver {
      reassembler = record s.tcp.receiver.reassembler { output = out };
    };
  };
}

-- Rule 1, a datagram: `read` is what `_datagram_adapter.read()` returns, and the last argument is
-- `_thread_data.eof()`.
unfoldable pub datagram_in :
    SpongeSocket → Option TcpSegment × FdAdapter → Bool → Result SpongeSocket
datagram_in s (seg, adapter) pipe_eof = do
  tcp ← (elim seg [ none ↦ ok s.tcp | some x ↦ Connection.segment_received s.tcp x ])
  let acked = pipe_eof && Connection.bytes_in_flight tcp == 0
  ok (record s { tcp = tcp; adapter = adapter; fully_acked = acked || s.fully_acked })

abbrev pub wants_datagrams : SpongeSocket → Bool
wants_datagrams s = s.tcp.active

-- `_tcp->end_input_stream(); _outbound_shutdown = true;`, also what rule 2 does when it is cancelled.
unfoldable pub shut_outbound : SpongeSocket → Result SpongeSocket
shut_outbound s = do
  tcp ← Connection.end_input_stream s.tcp
  ok (record s { tcp = tcp; outbound_shutdown = true })

-- Rule 2, bytes of the application: `bytes` is what `_thread_data.read(…)` returns.
unfoldable pub outbound_data : SpongeSocket → List ℕ → Bool → Result SpongeSocket
outbound_data s bytes pipe_eof = do
  (amount_written, tcp) ← Connection.write s.tcp bytes
  let s' = record s { tcp = tcp }
  let ended = if pipe_eof then shut_outbound s' else ok s'
  (if not (amount_written == length bytes) then err Error.runtime_error else ended)

abbrev pub wants_data : SpongeSocket → Bool
wants_data s = s.tcp.active && not s.outbound_shutdown && ltb 0 (remaining_outbound_capacity s.tcp)

-- Rule 3: the bytes that are offered to the pipe.
abbrev pub inbound_offer : SpongeSocket → List ℕ
inbound_offer s =
    ByteStream.peek_output (inbound_stream s)
      (min 65536 (ByteStream.buffer_size (inbound_stream s)))

abbrev pub inbound_over : SpongeSocket → Bool
inbound_over s = ByteStream.eof (inbound_stream s) || ByteStream.error (inbound_stream s)

-- The rest of rule 3; `bytes_written` is what `_thread_data.write(…)` returns.
unfoldable pub inbound_data : SpongeSocket → ℕ → SpongeSocket
inbound_data s bytes_written =
    let s' = with_inbound s (ByteStream.pop_output (inbound_stream s) bytes_written) in
    if inbound_over s' then record s' { inbound_shutdown = true } else s'

abbrev pub wants_pipe : SpongeSocket → Bool
wants_pipe s =
    not (ByteStream.buffer_empty (inbound_stream s)) || inbound_over s && not s.inbound_shutdown

-- Rule 4, with what the adapter makes of each segment.
unfoldable pub segments_write :
    {Sent : Type 0} → (TcpSegment → Result Sent) → List TcpSegment → Result (List Sent)
segments_write adapter_write [] = ok []
segments_write adapter_write (seg ∷ segs) = do
  first ← adapter_write seg
  rest ← segments_write adapter_write segs
  ok (first ∷ rest)

unfoldable pub segments_out :
    {Sent : Type 0} → (TcpSegment → Result Sent) → SpongeSocket → Result (List Sent × SpongeSocket)
segments_out adapter_write s = do
  sent ← segments_write adapter_write s.tcp.segments_out
  ok (sent, record s { tcp = record s.tcp { segments_out = [] } })

abbrev pub wants_segments : SpongeSocket → Bool
wants_segments s = elim s.tcp.segments_out [ [] ↦ false | _ ∷ _ ↦ true ]

-- One round of `_tcp_loop`: what `wait_next_event` returned, what its callbacks did, and the time
-- since the last tick.
pub record LoopRound : Type 0 where
  pub result : LoopResult
  pub happened : SpongeSocket → Result SpongeSocket
  pub elapsed : ℕ

-- The part of a round behind the test for leaving the loop.
unfoldable pub tick : SpongeSocket → ℕ → Result SpongeSocket
tick s elapsed =
    let ticked = Connection.tick s.tcp elapsed >>= λ tcp. ok (record s { tcp = tcp }) in
    if s.tcp.active then ticked else ok s

-- `_tcp_loop` over the rounds that come; the flag says whether it has left the loop.
unfoldable pub tcp_loop :
    (SpongeSocket → Bool) → List LoopRound → SpongeSocket → Result (Bool × SpongeSocket)
tcp_loop condition [] s = ok (not (condition s), s)
tcp_loop condition (round ∷ rounds) s =
    let next = round.happened s >>= λ s'.
    let more = tick s' round.elapsed >>= λ s''. tcp_loop condition rounds s'' in
    if is_exit round.result || s'.abort then ok (true, s') else more in
    if condition s then next else ok (true, s)

-- `TCPSpongeSocket` before: the adapter, and what `_tcp` holds.
abbrev pub initialize_tcp : TcpConfig → WrappingInt32 → FdAdapter → SpongeSocket
initialize_tcp config drawn adapter = record {
  tcp = Connection.create config drawn;
  adapter = adapter;
  abort = false;
  inbound_shutdown = false;
  outbound_shutdown = false;
  fully_acked = false;
}

-- `connect` up to its call of `_tcp_loop`.
unfoldable pub connect :
    Option TcpConnection
    → TcpConfig
    → WrappingInt32
    → FdAdapter
    → FdAdapterConfig
    → Result SpongeSocket
connect tcp c_tcp drawn adapter c_ad =
    let s = initialize_tcp c_tcp drawn (record adapter { cfg = c_ad }) in
    let opened = Connection.connect s.tcp >>= λ c.
    if not (is_in (Connection.state c) State.syn_sent)
    then err Error.runtime_error
    else ok (record s { tcp = c }) in
    elim tcp [ none ↦ opened | some _ ↦ err Error.runtime_error ]

-- `listen_and_accept` up to its call of `_tcp_loop`.
unfoldable pub listen_and_accept :
    Option TcpConnection
    → TcpConfig
    → WrappingInt32
    → FdAdapter
    → FdAdapterConfig
    → Result SpongeSocket
listen_and_accept tcp c_tcp drawn adapter c_ad =
    let s = initialize_tcp c_tcp drawn (set_listening (record adapter { cfg = c_ad }) true) in
    elim tcp [ none ↦ ok s | some _ ↦ err Error.runtime_error ]

-- The conditions under which `connect` and `listen_and_accept` go on waiting.
abbrev pub connecting : SpongeSocket → Bool
connecting s = is_in (Connection.state s.tcp) State.syn_sent

abbrev pub accepting : SpongeSocket → Bool
accepting s =
    is_in (Connection.state s.tcp) State.listen
    || is_in (Connection.state s.tcp) State.syn_rcvd
    || is_in (Connection.state s.tcp) State.syn_sent
