-- ===== src/Window.antt =====
-- libsponge/tcp_sending_window.hh and tcp_sending_window.cc: the segments in flight.
pub mod Covers
pub mod Acks
pub mod Shape
pub mod Timers
use cpp_tcp.Common.{
  ℕ, zero, suc, ◌+◌, ◌-◌, Bool, true, false, ◌&&◌, ◌||◌, ◌==◌, ltb, leb, List, [], ◌∷◌, ◌++◌, map,
  Result, ok, err, Error, ◌>>=◌, if◌then◌else◌, add64, sub64, to_u32, length, drop, take,
}
use cpp_tcp.Wrapping.{WrappingInt32, unwrap}
use cpp_tcp.Segment.{TcpSegment, length_in_sequence_space}

-- `TCPSegmentForSender`
pub record SegmentForSender : Type 0 where
  pub segment : TcpSegment
  pub remaining_rto : ℕ

pub record TcpSendingWindow : Type 0 where
  pub buffer : List SegmentForSender
  pub isn : WrappingInt32
  pub first_seqno : ℕ
  pub window_size : ℕ
  pub next_seqno : ℕ

unfoldable pub create : WrappingInt32 → ℕ → TcpSendingWindow
create isn size = record {
  buffer = [];
  isn = isn;
  first_seqno = 0;
  window_size = size;
  next_seqno = 0;
}

unfoldable pub shrink_front : TcpSendingWindow → ℕ → Result TcpSendingWindow
shrink_front w size =
    if ltb w.window_size size
    then err Error.runtime_error
    else ok (record w {
      window_size = sub64 w.window_size size;
      first_seqno = add64 w.first_seqno size;
    })

unfoldable pub expand_back : TcpSendingWindow → ℕ → TcpSendingWindow
expand_back w size = record w { window_size = add64 w.window_size size }

unfoldable pub advance : TcpSendingWindow → ℕ → Result TcpSendingWindow
advance w size = shrink_front (expand_back w size) size

unfoldable pub set_window_size : TcpSendingWindow → ℕ → TcpSendingWindow
set_window_size w size = record w { window_size = size }

abbrev pub buffer_empty : TcpSendingWindow → Bool
buffer_empty w = elim w.buffer [ [] ↦ true | _ ∷ _ ↦ false ]

abbrev pub buffer_size : TcpSendingWindow → ℕ
buffer_size w = length w.buffer

abbrev pub window_closed : TcpSendingWindow → Bool
window_closed w = w.window_size == 0

unfoldable pub bytes_in_flight : TcpSendingWindow → ℕ
bytes_in_flight w = sub64 w.next_seqno w.first_seqno

unfoldable pub space : TcpSendingWindow → ℕ
space w = sub64 w.window_size (bytes_in_flight w)

unfoldable pub full : TcpSendingWindow → Bool
full w = if window_closed w then true else (if buffer_empty w then false else leb (space w) 0)

-- The absolute number of a segment, as `unwrap` gives it at the window's next number.
unfoldable pub seqno_of : TcpSendingWindow → TcpSegment → ℕ
seqno_of w seg = unwrap seg.header.seqno w.isn w.next_seqno

-- The new entry keeps its timer in a uint32_t.
unfoldable pub add_segment : TcpSendingWindow → TcpSegment → ℕ → Result TcpSendingWindow
add_segment w seg rto =
    if full w
    then err Error.runtime_error
    else ok (record w {
      buffer = w.buffer ++ record { segment = seg; remaining_rto = to_u32 rto } ∷ [];
      next_seqno = add64 (seqno_of w seg) (length_in_sequence_space seg);
    })

-- The loop of `ack_received`, from the last entry down: how many entries precede the last one that
-- begins below `ack_seqno`. Without such an entry the index wraps, and the erasure of as many
-- entries has no defined result.
unfoldable pub entries_before : TcpSendingWindow → ℕ → List SegmentForSender → Result ℕ
entries_before w ack_seqno [] = err Error.undefined
entries_before w ack_seqno (s ∷ ss) = elim (entries_before w ack_seqno ss) [
  | ok i ↦ ok (suc i)
  | err e ↦ if ltb (seqno_of w s.segment) ack_seqno then ok 0 else err Error.undefined
]

-- The first entry goes too if it is acknowledged in full. `_buffer[0]` of an empty deque has no
-- defined result.
unfoldable pub erase_acked :
    TcpSendingWindow → ℕ → List SegmentForSender → Result (List SegmentForSender)
erase_acked w ack_seqno [] = err Error.undefined
erase_acked w ack_seqno (s ∷ ss) = ok (
    if leb (add64 (seqno_of w s.segment) (length_in_sequence_space s.segment)) ack_seqno
    then ss
    else s ∷ ss)

-- The branch of `ack_received` for an acknowledgment that moves the window on.
unfoldable pub accept_ack : TcpSendingWindow → ℕ → ℕ → Result TcpSendingWindow
accept_ack w ack_seqno size = do
  i ← entries_before w ack_seqno w.buffer
  rest ← erase_acked w ack_seqno (drop i w.buffer)
  moved ← advance (record w { buffer = rest }) (sub64 ack_seqno w.first_seqno)
  ok (set_window_size moved size)

-- The result says whether new data was acknowledged.
unfoldable pub ack_received :
    TcpSendingWindow → WrappingInt32 → ℕ → Result (Bool × TcpSendingWindow)
ack_received w ackno size =
    let ack_seqno = unwrap ackno w.isn w.next_seqno in
    if ltb w.next_seqno ack_seqno || ltb ack_seqno w.first_seqno
    then ok (false, w)
    else (if ack_seqno == w.first_seqno
        then ok (false, set_window_size w size)
        else (accept_ack w ack_seqno size >>= λ w'. ok (true, w')))

-- The loop of `tick`: the entries with their timers run on, and the segments whose timer has run out.
unfoldable pub tick_entries : ℕ → List SegmentForSender → List SegmentForSender × List TcpSegment
tick_entries ms [] = ([], [])
tick_entries ms (s ∷ ss) =
    let (rest, expired) = tick_entries ms ss in
    if ltb ms s.remaining_rto
    then (record s { remaining_rto = s.remaining_rto - ms } ∷ rest, expired)
    else (s ∷ rest, s.segment ∷ expired)

unfoldable pub tick : TcpSendingWindow → ℕ → TcpSendingWindow × List TcpSegment
tick w ms =
    let (entries, expired) = tick_entries ms w.buffer in (record w { buffer = entries }, expired)

unfoldable pub reset_timer : TcpSendingWindow → ℕ → TcpSendingWindow
reset_timer w rto = record w {
  buffer = map (λ (s : SegmentForSender). record s { remaining_rto = to_u32 rto }) w.buffer;
}
