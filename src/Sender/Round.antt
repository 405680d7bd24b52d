-- ===== src/Sender/Round.antt =====
-- One round of the loop of `fill_window`.
use cpp_tcp.Common.{
  ℕ, ◌+◌, ◌-◌, ◌≤◌, ◌<◌, ◌≡◌, ◌≢◌, refl, sym, true, ◌&&◌, ◌++◌, arith, ltb, min, length,
  take-append-drop, ℕ_discrete,
}
use cpp_tcp.ByteStream
use cpp_tcp.ByteStream.{ByteStream, buffer_size, buffer_empty, pop_output}
use cpp_tcp.ByteStream.Invariant.{sizes_lem}
use cpp_tcp.ByteStream.Window.{contents}
use cpp_tcp.ByteStream.Refine.{pop_output-Popped}
use cpp_tcp.Segment.{length_in_sequence_space}
use cpp_tcp.Window
use cpp_tcp.Window.{TcpSendingWindow, full, space}
use cpp_tcp.Sender.{TcpSender, may_send, payload_size, next_segment}
use cpp_tcp.Sender.Shape.{
  IsValid, after_round, round_length, round_start, round_fields, next_segment_fields, may_send_room,
  space-pos,
}

fin_lem :
    (s : TcpSender)
    → (next_segment s).0.header.fin ≡ (
        ByteStream.eof (next_segment s).1
        && ltb (length (next_segment s).0.payload) (space s.window))
unfolding next_segment
fin_lem s = refl

-- When the stream is used up, the segment of a round is the FIN.
used_up :
    {s : TcpSender}
    → IsValid s
    → may_send s ≡ true
    → buffer_size s.stream ≡ 0
    → (next_segment s).0.header.fin ≡ true
unfolding may_send ByteStream.eof
used_up {s} v e none =
    let (few, _, many, rest) = round_fields v in
    let p = pop_output-Popped (payload_size s) v.stream in
    let room = space-pos v.window (may_send_room s e) in
    rw (fin_lem s, rest)
      (ground (arith, few, many, p.end_flag, p.size, sizes_lem v.stream, sizes_lem p.valid, room))

payload_pos :
    {s : TcpSender} → IsValid s → may_send s ≡ true → buffer_size s.stream ≢ 0 → 0 < payload_size s
unfolding payload_size
payload_pos {s} v e some_left = omega (arith, space-pos v.window (may_send_room s e))

-- A round that passes the loop's condition has something to send.
pub round_pos :
    {s : TcpSender}
    → IsValid s
    → may_send s ≡ true
    → 0 < length_in_sequence_space (next_segment s).0
round_pos {s} v e = elim (ℕ_discrete (buffer_size s.stream) 0) [
  | yes none ↦ ground (arith, used_up v e none)
  | no left ↦ omega (arith, payload_pos v e left, round_length v)
]

-- It stays in the window.
pub round_within :
    {s : TcpSender}
    → IsValid s
    → s.window.next_seqno ≤ s.window.first_seqno + s.window.window_size
    → (after_round s).window.next_seqno ≤ s.window.first_seqno + s.window.window_size
unfolding payload_size space Window.bytes_in_flight
round_within {s} v le =
    let (few, _, many, _) = round_fields v in
    let (_, syn, fin) = next_segment_fields s in
    ground (arith, few, many, syn, fin, v.window.first_le, v.window.small, v.window.window_word)

pub round_bytes :
    {s : TcpSender}
    → IsValid s
    → contents s.stream ≡ (next_segment s).0.payload ++ contents (after_round s).stream
round_bytes {s} v =
    let (few, payload, _, _) = round_fields v in
    let p = pop_output-Popped (payload_size s) v.stream in
    let whole : min (payload_size s) (buffer_size s.stream) ≡ payload_size s = omega (arith, few) in
    rw (payload, p.rest, whole) (sym (take-append-drop (payload_size s) (contents s.stream)))

-- How many rounds may follow: one for each byte held, and one for the FIN.
abbrev pub rounds : TcpSender → ℕ
rounds s = buffer_size s.stream + (s.stream.read_count + 2 - s.window.next_seqno)

pub rounds_fall :
    {s : TcpSender}
    → IsValid s
    → 1 ≤ s.window.next_seqno
    → may_send s ≡ true
    → rounds (after_round s) < rounds s
rounds_fall {s} v begun e =
    let p = pop_output-Popped (payload_size s) v.stream in
    let bounded = v.bounded in
    omega
      (arith, p.read_count, p.size, bounded, round_start v begun e, round_pos v e, round_length v)
