-- ===== src/Sender/Shape.antt =====
-- The invariant of the sender, and one round of the loop of `fill_window`.
use cpp_tcp.Common.{
  ◌+◌, ◌-◌, ◌^◌, ◌≤◌, ◌<◌, ◌≡◌, ◌⊎◌, inl, inr, refl, ap, ◌∙◌, true, false, [], ◌∷◌, ◌++◌, arith, ok,
  min, length, take, length-take, to_u32, Bool-cases,
}
use cpp_tcp.Wrapping.{wrap}
use cpp_tcp.ByteStream
use cpp_tcp.ByteStream.{ByteStream, buffer_size, buffer_empty, pop_output, peek_output, read}
use cpp_tcp.ByteStream.Invariant
use cpp_tcp.ByteStream.Invariant.{buffer_size-le, sizes_lem}
use cpp_tcp.ByteStream.Window.{contents, length-contents}
use cpp_tcp.ByteStream.Refine.{pop_output-Popped, peek_refines}
use cpp_tcp.ByteStream.Spec
use cpp_tcp.Segment.{length_in_sequence_space}
use cpp_tcp.Window
use cpp_tcp.Window.{TcpSendingWindow, full, space}
use cpp_tcp.Window.Shape
use cpp_tcp.Window.Shape.{add_segment-IsValid}
use cpp_tcp.Sender.{
  TcpSender, state, may_send, payload_size, next_segment, add_and_send, is_finished,
}

-- How far the numbers sent run ahead of the bytes read: no SYN yet, the SYN, or the SYN and the FIN.
abbrev pub InStep : TcpSender → Type 0
InStep s =
    ((s.window.next_seqno ≡ 0) × (s.stream.read_count ≡ 0))
    ⊎ ((s.window.next_seqno ≡ s.stream.read_count + 1)
        ⊎ ((s.window.next_seqno ≡ s.stream.read_count + 2) × (ByteStream.eof s.stream ≡ true)))

-- The stream is shorter than 2 ^ 31 - 2 bytes and has no error. Before the SYN is acknowledged nothing else is sent.
pub record IsValid (s : TcpSender) : Type 0 where
  pub stream : Invariant.IsValid s.stream
  pub window : Shape.IsValid s.window
  pub in_step : InStep s
  pub sound : s.stream.failed ≡ false
  pub usable : 1 ≤ s.window.window_size
  pub bounded : s.stream.read_count + buffer_size s.stream < 2 ^ 31 - 2
  pub syn_first : s.window.first_seqno ≡ 0 → (s.window.next_seqno ≤ 1) × (s.window.window_size ≤ 1)

-- A window that is not full has space.
pub space-pos : {w : TcpSendingWindow} → Shape.IsValid w → full w ≡ false → 0 < space w
unfolding full space Window.bytes_in_flight
space-pos {w} v e = ground (arith, v.covers)

-- What a round of the loop takes from the stream.
pub round_fields :
    {s : TcpSender}
    → IsValid s
    → let n = payload_size s in
      (n ≤ buffer_size s.stream)
      × ((next_segment s).0.payload ≡ take n (contents s.stream))
      × (length (next_segment s).0.payload ≡ n)
      × ((next_segment s).1 ≡ pop_output s.stream n)
unfolding next_segment payload_size read Spec.peek
round_fields {s} v =
    let n = min (space s.window) (min 1000 (buffer_size s.stream)) in
    let seen = peek_refines n v.stream in
    (
      omega arith,
      seen,
      ap length seen ∙ omega (arith, length-take n (contents s.stream), length-contents s.stream),
      refl,
    )

-- What the loop's condition says.
pub may_send_room : (s : TcpSender) → may_send s ≡ true → full s.window ≡ false
unfolding may_send
may_send_room s e = ground arith

may_send_unfinished : (s : TcpSender) → may_send s ≡ true → is_finished (state s) ≡ false
unfolding may_send
may_send_unfinished s e = ground arith

-- Nothing but the SYN is sent before the SYN is acknowledged.
pub syn_acked :
    {s : TcpSender}
    → IsValid s
    → 1 ≤ s.window.next_seqno
    → full s.window ≡ false
    → 1 ≤ s.window.first_seqno
unfolding full space Window.bytes_in_flight
syn_acked {s} v begun room =
    ground (arith, v.window.covers, v.window.front_le, v.window.first_le, v.syn_first)

pub eof-size :
    (s : TcpSender) → IsValid s → ByteStream.eof s.stream ≡ true → buffer_size s.stream ≡ 0
unfolding ByteStream.eof
eof-size s v e = ground (arith, sizes_lem v.stream)

-- With the FIN sent, the state says so.
finished :
    {s : TcpSender}
    → IsValid s
    → 1 ≤ s.window.first_seqno
    → s.window.next_seqno ≡ s.stream.read_count + 2
    → ByteStream.eof s.stream ≡ true
    → is_finished (state s) ≡ true
unfolding state Window.bytes_in_flight
finished {s} v acked next e = ground (arith, eof-size s v e, v.sound, v.window.first_le)

-- So a round starts with the bytes read all sent, and no FIN.
pub round_start :
    {s : TcpSender}
    → IsValid s
    → 1 ≤ s.window.next_seqno
    → may_send s ≡ true
    → s.window.next_seqno ≡ s.stream.read_count + 1
round_start {s} v begun e = pick v.in_step
  where
    pick : InStep s → s.window.next_seqno ≡ s.stream.read_count + 1
    pick (inl none) = absurd (omega arith)
    pick (inr (inl data_only)) = data_only
    pick (inr (inr (next, ended))) =
        cc (may_send_unfinished s e, finished v (syn_acked v begun (may_send_room s e)) next ended)

-- The state after a round.
abbrev pub after_round : TcpSender → TcpSender
after_round s =
    let seg = (next_segment s).0 in
    record s {
      segments_out = s.segments_out ++ seg ∷ [];
      stream = pop_output s.stream (payload_size s);
      window = record s.window {
        buffer = s.window.buffer ++ record { segment = seg; remaining_rto = to_u32 s.rto } ∷ [];
        next_seqno = s.window.next_seqno + length_in_sequence_space seg;
      };
    }

-- The segment of a round has the next number, and its length counts the FIN.
pub next_segment_fields :
    (s : TcpSender)
    → ((next_segment s).0.header.seqno ≡ wrap s.window.next_seqno s.window.isn)
      × ((next_segment s).0.header.syn ≡ false)
      × ((next_segment s).0.header.fin ≡ true
          → (ByteStream.eof (next_segment s).1 ≡ true)
            × (length (next_segment s).0.payload < space s.window))
unfolding next_segment
next_segment_fields s = (refl, refl, λ e. ground arith)

-- How long the segment of a round is, and where the numbers stand after it.
pub round_length :
    {s : TcpSender}
    → IsValid s
    → (payload_size s ≤ length_in_sequence_space (next_segment s).0)
      × (length_in_sequence_space (next_segment s).0 ≤ payload_size s + 1)
      × (payload_size s ≤ buffer_size s.stream)
round_length {s} v =
    let (few, _, many, _) = round_fields v in
    let (_, syn, _) = next_segment_fields s in ground (arith, few, many, syn)

after-InStep :
    {s : TcpSender}
    → IsValid s
    → s.window.next_seqno ≡ s.stream.read_count + 1
    → InStep (after_round s)
after-InStep {s} v start =
    let (few, _, many, rest) = round_fields v in
    let (_, syn, fin) = next_segment_fields s in
    let p = pop_output-Popped (payload_size s) v.stream in
    let bounded = v.bounded in
    let read : (pop_output s.stream (payload_size s)).read_count
        ≡ s.stream.read_count + payload_size s =
      omega (arith, p.read_count, few, bounded) in
    elim (Bool-cases (next_segment s).0.header.fin) [
      | inl last ↦
          inr (inr (ground (arith, read, start, many, syn, last), rw (← rest) (fin last).0))
      | inr more ↦ inr (inl (ground (arith, read, start, many, syn, more)))
    ]

-- A round that has something to send sends it: the segment goes into the window and out, the bytes
-- leave the stream, and the invariant holds again.
pub round_lem :
    {s : TcpSender}
    → IsValid s
    → 1 ≤ s.window.next_seqno
    → may_send s ≡ true
    → 0 < length_in_sequence_space (next_segment s).0
    → (add_and_send (record s { stream = (next_segment s).1 }) (next_segment s).0
        ≡ ok (after_round s))
      × IsValid (after_round s)
unfolding add_and_send
round_lem {s} v begun e pos =
    let (_, _, _, rest) = round_fields v in
    let (seqno, _, _) = next_segment_fields s in
    let start = round_start v begun e in
    let acked = syn_acked v begun (may_send_room s e) in
    let p = pop_output-Popped (payload_size s) v.stream in
    let (some_more, one_more, few) = round_length v in
    let bounded = v.bounded in
    let (added, kept) =
      add_segment-IsValid v.window (next_segment s).0 s.rto (may_send_room s e) seqno pos
        (omega (arith, start, bounded, one_more, few))
        (omega (arith, start, bounded, one_more, few)) in
    (
      rw (added, rest),
      record {
        stream = p.valid;
        window = kept;
        in_step = after-InStep v start;
        sound = p.failed ∙ v.sound;
        usable = v.usable;
        bounded = omega (arith, p.read_count, p.size, few, bounded);
        syn_first = λ z. absurd (omega (arith, acked, z));
      },
    )
