-- ===== src/Sender.antt =====
-- libsponge/tcp_sender.hh and tcp_sender.cc.
pub mod Shape
pub mod Round
pub mod Syn
pub mod Fill
pub mod Acks
pub mod Timers
pub mod Streams
use cpp_tcp.Common.{
  ℕ, zero, suc, ◌+◌, ◌*◌, ◌%◌, ◌^◌, Bool, true, false, ◌&&◌, ◌||◌, not, ◌==◌, ltb, List, [], ◌∷◌,
  ◌++◌, Option, none, some, Result, ok, err, Error, ◌>>=◌, if◌then◌else◌, min, max, add64, to_u32,
  length,
}
use cpp_tcp.Wrapping.{WrappingInt32, wrap}
use cpp_tcp.ByteStream
use cpp_tcp.ByteStream.{ByteStream}
use cpp_tcp.Segment.{
  TcpSegment, default_segment, length_in_sequence_space, set_syn, set_fin, set_seqno, set_payload,
}
use cpp_tcp.Window
use cpp_tcp.Window.{TcpSendingWindow}

-- `TCPConfig::MAX_PAYLOAD_SIZE`
abbrev pub max_payload_size : ℕ
max_payload_size = 1000

pub record TcpSender : Type 0 where
  pub segments_out : List TcpSegment
  pub initial_retransmission_timeout : ℕ
  pub stream : ByteStream
  pub rto : ℕ
  pub window : TcpSendingWindow
  pub consecutive_retransmission_count : ℕ
  pub window_size_is_zero : Bool

-- `fixed_isn.value_or(…)`; the last argument is what `random_device` gives.
abbrev choose_isn : Option WrappingInt32 → WrappingInt32 → WrappingInt32
choose_isn none drawn = drawn
choose_isn (some isn) drawn = isn

unfoldable pub create : ℕ → ℕ → Option WrappingInt32 → WrappingInt32 → TcpSender
create capacity retx_timeout fixed_isn drawn = record {
  segments_out = [];
  initial_retransmission_timeout = retx_timeout;
  stream = ByteStream.create capacity;
  rto = retx_timeout;
  window = Window.create (choose_isn fixed_isn drawn) 1;
  consecutive_retransmission_count = 0;
  window_size_is_zero = false;
}

abbrev pub bytes_in_flight : TcpSender → ℕ
bytes_in_flight s = Window.bytes_in_flight s.window

abbrev pub next_seqno_absolute : TcpSender → ℕ
next_seqno_absolute s = s.window.next_seqno

abbrev pub next_seqno : TcpSender → WrappingInt32
next_seqno s = wrap s.window.next_seqno s.window.isn

-- An unsigned int
abbrev pub consecutive_retransmissions : TcpSender → ℕ
consecutive_retransmissions s = to_u32 s.consecutive_retransmission_count

abbrev pub send : TcpSender → TcpSegment → TcpSender
send s seg = record s { segments_out = s.segments_out ++ seg ∷ [] }

pub data SenderState : Type 0 where
  closed syn_sent syn_acked established fin_sent fin_acked error : SenderState

unfoldable pub state : TcpSender → SenderState
state s =
    let next = next_seqno_absolute s in
    let in_flight = bytes_in_flight s in
    let ended = ByteStream.eof s.stream in
    let fin_seqno = add64 (ByteStream.bytes_written s.stream) 2 in
    if ByteStream.error s.stream
    then SenderState.error
    else (if next == 0
        then closed
        else (if ltb 0 next && next == in_flight
            then syn_sent
            else (if ltb in_flight next && not ended
                then syn_acked
                else (if ended && ltb next fin_seqno
                    then syn_acked
                    else (if ended && next == fin_seqno && ltb 0 in_flight
                        then fin_sent
                        else fin_acked)))))

abbrev pub is_closed : SenderState → Bool
is_closed closed = true
is_closed _ = false

abbrev pub is_finished : SenderState → Bool
is_finished fin_sent = true
is_finished fin_acked = true
is_finished _ = false

-- `_window.add_segment(segment, _rto); _send(segment);`
unfoldable pub add_and_send : TcpSender → TcpSegment → Result TcpSender
add_and_send s seg = do
  w ← Window.add_segment s.window seg s.rto
  ok (send (record s { window = w }) seg)

-- The first part of `fill_window`: CLOSED -> SYN_SENT.
unfoldable pub open_connection : TcpSender → Result TcpSender
open_connection s =
    if is_closed (state s)
    then add_and_send s (set_seqno (set_syn default_segment true) (next_seqno s))
    else ok s

-- The condition of the loop of `fill_window`, and its first test.
unfoldable pub may_send : TcpSender → Bool
may_send s =
    (not (ByteStream.buffer_empty s.stream) || ByteStream.eof s.stream)
    && not (Window.full s.window)
    && not (is_finished (state s))

-- How many bytes the next segment takes from the stream.
unfoldable pub payload_size : TcpSender → ℕ
payload_size s =
    min (Window.space s.window) (min max_payload_size (ByteStream.buffer_size s.stream))

-- The segment that a round of the loop builds, and the stream that it leaves.
unfoldable pub next_segment : TcpSender → TcpSegment × ByteStream
next_segment s =
    let (payload, stream) = ByteStream.read s.stream (payload_size s) in
    let fin = ByteStream.eof stream && ltb (length payload) (Window.space s.window) in
    (set_fin (set_payload (set_seqno default_segment (next_seqno s)) payload) fin, stream)

-- The loop of `fill_window`, on fuel.
unfoldable pub fill_loop : ℕ → TcpSender → Result TcpSender
fill_loop zero s = err Error.out_of_fuel
fill_loop (suc fuel) s =
    let (seg, stream) = next_segment s in
    let s' = record s { stream = stream } in
    let more = add_and_send s' seg >>= λ s''. fill_loop fuel s'' in
    if may_send s then (if length_in_sequence_space seg == 0 then ok s' else more) else ok s

-- A round sends a byte of the stream at least, or the FIN, so these rounds are enough.
abbrev pub fill_fuel : TcpSender → ℕ
fill_fuel s = ByteStream.buffer_size s.stream + 3

unfoldable pub fill_window : TcpSender → Result TcpSender
fill_window s = open_connection s >>= λ s'. fill_loop (fill_fuel s') s'

-- What `ack_received` does when new data was acknowledged.
abbrev pub restart_timers : TcpSender → TcpSender
restart_timers s = record s {
  rto = s.initial_retransmission_timeout;
  window = Window.reset_timer s.window s.initial_retransmission_timeout;
  consecutive_retransmission_count = 0;
}

-- A window size of 0 counts as 1.
unfoldable pub ack_received : TcpSender → WrappingInt32 → ℕ → Result TcpSender
ack_received s ackno window_size = do
  (advanced, w) ← Window.ack_received s.window ackno (max window_size 1)
  let s' = record s { window = w; window_size_is_zero = window_size == 0 }
  fill_window (if advanced then restart_timers s' else s')

-- The rest of `tick` when some timer has run out: the first such segment is sent again.
unfoldable pub retransmit : TcpSender → List TcpSegment → TcpSender
retransmit s [] = s
retransmit s (seg ∷ _) =
    let rto = if s.window_size_is_zero then s.rto else s.rto * 2 % 2 ^ 64 in
    send
      (record s {
        rto = rto;
        window = Window.reset_timer s.window rto;
        consecutive_retransmission_count = add64 s.consecutive_retransmission_count 1;
      })
      seg

unfoldable pub tick : TcpSender → ℕ → TcpSender
tick s ms =
    let (w, expired) = Window.tick s.window ms in retransmit (record s { window = w }) expired

unfoldable pub send_empty_segment : TcpSender → TcpSender
send_empty_segment s = send s (set_seqno default_segment (next_seqno s))
