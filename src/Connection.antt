-- ===== src/Connection.antt =====
-- libsponge/tcp_connection.hh and tcp_connection.cc: an endpoint of a connection. What the code
-- prints to cout and cerr is left out.
pub mod Shape
pub mod Over
pub mod Outgoing
pub mod Lingering
use cpp_tcp.Common.{
  ℕ, ◌+◌, ◌*◌, Bool, true, false, ◌&&◌, ◌||◌, not, ◌==◌, ltb, leb, List, [], ◌∷◌, ◌++◌, Option,
  none, some, Result, ok, ◌>>=◌, value, if◌then◌else◌, add64, to_u16,
}
use cpp_tcp.Wrapping.{WrappingInt32, minus}
use cpp_tcp.ByteStream
use cpp_tcp.ByteStream.{ByteStream}
use cpp_tcp.Segment.{
  TcpSegment, default_segment, length_in_sequence_space, set_ack, set_ackno, set_window_size,
  set_rst,
}
use cpp_tcp.Receiver
use cpp_tcp.Receiver.{TcpReceiver}
use cpp_tcp.Sender
use cpp_tcp.Sender.{TcpSender}
use cpp_tcp.State.{State, TcpState, of_state, equals, summarize}

-- `TCPConfig`, and `MAX_RETX_ATTEMPTS`
pub record TcpConfig : Type 0 where
  pub rt_timeout : ℕ
  pub recv_capacity : ℕ
  pub send_capacity : ℕ
  pub fixed_isn : Option WrappingInt32

abbrev pub max_retx_attempts : ℕ
max_retx_attempts = 8

pub record TcpConnection : Type 0 where
  pub cfg : TcpConfig
  pub receiver : TcpReceiver
  pub sender : TcpSender
  pub segments_out : List TcpSegment
  pub linger_after_streams_finish : Bool
  pub active : Bool
  pub time_since_last_segment_received : ℕ

-- The second argument is what `random_device` gives.
unfoldable pub create : TcpConfig → WrappingInt32 → TcpConnection
create cfg drawn = record {
  cfg = cfg;
  receiver = Receiver.create cfg.recv_capacity;
  sender = Sender.create cfg.send_capacity cfg.rt_timeout cfg.fixed_isn drawn;
  segments_out = [];
  linger_after_streams_finish = true;
  active = true;
  time_since_last_segment_received = 0;
}

unfoldable pub remaining_outbound_capacity : TcpConnection → ℕ
remaining_outbound_capacity c = ByteStream.remaining_capacity c.sender.stream

abbrev pub bytes_in_flight : TcpConnection → ℕ
bytes_in_flight c = Sender.bytes_in_flight c.sender

abbrev pub unassembled_bytes : TcpConnection → Result ℕ
unassembled_bytes c = Receiver.unassembled_bytes c.receiver

-- `TCPState(_sender, _receiver, _active, _linger_after_streams_finish)`
unfoldable pub state : TcpConnection → TcpState
state c = summarize c.sender c.receiver c.active c.linger_after_streams_finish

abbrev pub is_in : TcpState → State → Bool
is_in st name = equals st (of_state name)

-- The window size is converted to a uint16_t.
unfoldable pub add_ack_info : TcpReceiver → TcpSegment → Result TcpSegment
add_ack_info r seg = do
  n ← value (Receiver.ackno r)
  ok (set_window_size (set_ackno (set_ack seg true) n) (to_u16 (Receiver.window_size r)))

abbrev pub push_out : TcpConnection → TcpSegment → TcpConnection
push_out c seg = record c { segments_out = c.segments_out ++ seg ∷ [] }

-- `TCPSegment ack_seg; _add_ack_info(ack_seg); _segments_out.push(ack_seg);`
unfoldable pub push_ack : TcpConnection → Result TcpConnection
push_ack c = do seg ← add_ack_info c.receiver default_segment; ok (push_out c seg)

abbrev pub has_ackno : TcpReceiver → Bool
has_ackno r = elim (Receiver.ackno r) [ none ↦ false | some _ ↦ true ]

-- The loop of `_collect_sender_segments_out` over the sender's queue.
unfoldable pub stamp : TcpReceiver → List TcpSegment → Result (List TcpSegment)
stamp r [] = ok []
stamp r (seg ∷ segs) = do
  seg' ← (if has_ackno r then add_ack_info r seg else ok seg)
  segs' ← stamp r segs
  ok (seg' ∷ segs')

unfoldable pub collect : TcpConnection → Result TcpConnection
collect c = do
  s ← Sender.fill_window c.sender
  segs ← stamp c.receiver s.segments_out
  ok (record c { sender = record s { segments_out = [] }; segments_out = c.segments_out ++ segs })

abbrev pub connect : TcpConnection → Result TcpConnection
connect = collect

-- Both streams suffer an error and the connection is over.
abbrev pub fail_streams : TcpConnection → TcpConnection
fail_streams c = record c {
  sender = record c.sender { stream = ByteStream.set_error c.sender.stream };
  receiver = record c.receiver {
    reassembler = record c.receiver.reassembler {
      output = ByteStream.set_error c.receiver.reassembler.output;
    };
  };
  active = false;
  linger_after_streams_finish = false;
}

unfoldable pub reset_received : TcpConnection → TcpConnection
reset_received c = fail_streams c

unfoldable pub unclean_shutdown : TcpConnection → TcpConnection
unclean_shutdown c = push_out (fail_streams c) (set_rst default_segment true)

abbrev pub clean_shutdown : TcpConnection → TcpConnection
clean_shutdown = unclean_shutdown

-- The calls of the receiver and the sender that the handlers make.
abbrev pub receive : TcpConnection → TcpSegment → Result TcpConnection
receive c seg = do r ← Receiver.segment_received c.receiver seg; ok (record c { receiver = r })

abbrev pub take_ack : TcpConnection → TcpSegment → Result TcpConnection
take_ack c seg = do
  s ← Sender.ack_received c.sender seg.header.ackno seg.header.win
  ok (record c { sender = s })

unfoldable pub on_listen : TcpConnection → TcpSegment → Result TcpConnection
on_listen c seg =
    let answer : Result TcpConnection = (do
      c₁ ← receive c seg
      c₂ ← connect c₁
      ok (record c₂ { active = true })) in
    if seg.header.syn then answer else ok c

unfoldable pub on_syn_sent : TcpConnection → TcpSegment → Result TcpConnection
on_syn_sent c seg =
    let syn_ack : Result TcpConnection = (do
      c₁ ← receive c seg
      c₂ ← take_ack c₁ seg
      push_ack c₂) in
    let syn : Result TcpConnection = (do c₁ ← receive c seg; push_ack c₁) in
    if seg.header.syn && seg.header.ack then syn_ack else (if seg.header.syn then syn else ok c)

unfoldable pub on_syn_rcvd : TcpConnection → TcpSegment → Result TcpConnection
on_syn_rcvd c seg =
    let answer : Result TcpConnection = (do c₁ ← receive c seg; take_ack c₁ seg) in
    if seg.header.ack then answer else ok c

-- ESTABLISHED and FIN_WAIT_1; the flag says whether the state is FIN_WAIT_1.
unfoldable pub on_established : Bool → TcpConnection → TcpSegment → Result TcpConnection
on_established fin_wait c seg =
    let c₀ =
      if seg.header.fin && not fin_wait
      then record c { linger_after_streams_finish = false }
      else c in
    let answer : Result TcpConnection = (do
      c₁ ← receive c₀ seg
      ack_seg ← add_ack_info c₁.receiver default_segment
      collect (record c₁ { sender = Sender.send c₁.sender ack_seg })) in
    do
      c₂ ← (if not (length_in_sequence_space seg == 0) || not seg.header.ack then answer else ok c₀)
      (if seg.header.ack then take_ack c₂ seg >>= collect else ok c₂)

unfoldable pub on_fin_wait_2 : TcpConnection → TcpSegment → Result TcpConnection
on_fin_wait_2 c seg =
    let answer : Result TcpConnection = (do
      c₁ ← receive c seg
      c₂ ← take_ack c₁ seg
      push_ack c₂) in
    if seg.header.fin && seg.header.ack then answer else ok c

abbrev pub is_fin_acked : Sender.SenderState → Bool
is_fin_acked Sender.SenderState.fin_acked = true
is_fin_acked _ = false

unfoldable pub on_last_ack : TcpConnection → TcpSegment → Result TcpConnection
on_last_ack c seg =
    let answer : Result TcpConnection = (do
      c₁ ← take_ack c seg
      ok (
          if is_fin_acked (Sender.state c₁.sender)
          then record c₁ { linger_after_streams_finish = false; active = false }
          else c₁)) in
    if seg.header.ack then answer else ok c

unfoldable pub on_closing : TcpConnection → TcpSegment → Result TcpConnection
on_closing c seg =
    let answer : Result TcpConnection = (do c₁ ← receive c seg; c₂ ← take_ack c₁ seg; collect c₂) in
    if seg.header.ack then answer else ok c

-- CLOSE_WAIT, and TIME_WAIT under a stronger test.
unfoldable pub acknowledge_again : TcpConnection → TcpSegment → Result TcpConnection
acknowledge_again c seg = do c₁ ← take_ack c seg; push_ack c₁

unfoldable pub on_close_wait : TcpConnection → TcpSegment → Result TcpConnection
on_close_wait c seg =
    let answer = acknowledge_again c seg in if seg.header.fin then answer else ok c

unfoldable pub on_time_wait : TcpConnection → TcpSegment → Result TcpConnection
on_time_wait c seg =
    let answer = acknowledge_again c seg in
    if seg.header.fin && seg.header.ack then answer else ok c

-- The chain of tests of `segment_received`.
unfoldable pub dispatch : TcpState → TcpConnection → TcpSegment → Result TcpConnection
dispatch st c seg =
    if is_in st State.listen
    then on_listen c seg
    else if is_in st State.syn_sent
    then on_syn_sent c seg
    else if is_in st State.syn_rcvd
    then on_syn_rcvd c seg
    else if is_in st State.established || is_in st State.fin_wait_1
    then on_established (is_in st State.fin_wait_1) c seg
    else if is_in st State.fin_wait_2
    then on_fin_wait_2 c seg
    else if is_in st State.last_ack
    then on_last_ack c seg
    else if is_in st State.closing
    then on_closing c seg
    else if is_in st State.close_wait
    then on_close_wait c seg
    else if is_in st State.time_wait
    then on_time_wait c seg
    else ok c

-- The last part of `segment_received`: a keep-alive segment is answered.
unfoldable pub answer_keep_alive : TcpConnection → TcpSegment → Result TcpConnection
answer_keep_alive c seg =
    let answer = collect (record c { sender = Sender.send_empty_segment c.sender }) in
    elim (Receiver.ackno c.receiver) [
      | none ↦ ok c
      | some n ↦
          if length_in_sequence_space seg == 0 && seg.header.seqno == minus n 1
          then answer
          else ok c
    ]

unfoldable pub segment_received : TcpConnection → TcpSegment → Result TcpConnection
segment_received c seg =
    let c₀ = record c { time_since_last_segment_received = 0 } in
    let handled = dispatch (state c₀) c₀ seg >>= λ c₁. answer_keep_alive c₁ seg in
    if seg.header.rst then ok (reset_received c₀) else handled

-- The number is that of the bytes taken.
unfoldable pub write : TcpConnection → List ℕ → Result (ℕ × TcpConnection)
write c bytes =
    let (stream, n) = ByteStream.write c.sender.stream bytes in
    do c' ← collect (record c { sender = record c.sender { stream = stream } }); ok (n, c')

unfoldable pub end_input_stream : TcpConnection → Result TcpConnection
end_input_stream c =
    collect
      (record c { sender = record c.sender { stream = ByteStream.end_input c.sender.stream } })

-- The end of the wait in TIME_WAIT.
unfoldable pub stop_lingering : TcpState → TcpConnection → TcpConnection
stop_lingering st c =
    if is_in st State.time_wait
      && c.linger_after_streams_finish
      && leb (10 * c.cfg.rt_timeout) c.time_since_last_segment_received
    then record c { linger_after_streams_finish = false; active = false }
    else c

abbrev pub sends_on_tick : TcpState → Bool
sends_on_tick st =
    is_in st State.established
    || is_in st State.syn_sent
    || is_in st State.syn_rcvd
    || is_in st State.fin_wait_1
    || is_in st State.close_wait
    || is_in st State.last_ack
    || is_in st State.closing

-- `tick` from the call of the sender's `tick` on.
unfoldable pub tick_sender : TcpState → TcpConnection → ℕ → Result TcpConnection
tick_sender st c ms =
    let c' = record c { sender = Sender.tick c.sender ms } in
    let sent = collect c' in
    if ltb max_retx_attempts (Sender.consecutive_retransmissions c'.sender)
    then ok (unclean_shutdown c')
    else (if sends_on_tick st then sent else ok c')

unfoldable pub tick : TcpConnection → ℕ → Result TcpConnection
tick c ms =
    let c' = record c {
      time_since_last_segment_received = add64 c.time_since_last_segment_received ms;
    } in
    let st = state c' in tick_sender st (stop_lingering st c') ms

-- `TCPConnection::~TCPConnection`
unfoldable pub destroy : TcpConnection → TcpConnection
destroy c =
    if c.active
    then unclean_shutdown (record c { sender = Sender.send_empty_segment c.sender })
    else c
