-- ===== src/Network/Sending.antt =====
-- Whatever the sender does, all that it has queued and all that is in flight is genuine.
use cpp_tcp.Common.{
  ℕ, ◌+◌, ◌-◌, ◌^◌, ◌≤◌, ◌<◌, ◌≡◌, inr, refl, sym, ap, ap₂, drop, ◌∙◌, true, arith, List, [], ◌∷◌,
  ◌++◌, segment, take, map, take-segment, drop-segment, min, All, All-append, subst, to_u32,
  Returns,
}
use cpp_tcp.Wrapping.{WrappingInt32, wrap}
use cpp_tcp.ByteStream.{ByteStream, buffer_size, pop_output}
use cpp_tcp.ByteStream.Invariant
use cpp_tcp.ByteStream.Window.{contents}
use cpp_tcp.ByteStream.Refine.{pop_output-Popped}
use cpp_tcp.Segment.{TcpSegment}
use cpp_tcp.Reassembler.Store.{Agrees}
use cpp_tcp.Window.{SegmentForSender}
use cpp_tcp.Sender.{TcpSender, next_segment, payload_size, may_send, fill_window}
use cpp_tcp.Sender.Shape.{
  IsValid, after_round, round_fields, round_start, next_segment_fields, round_length,
}
use cpp_tcp.Sender.Syn.{opened, syn_segment}
use cpp_tcp.Sender.Fill.Rule.{fill_window_rule}
use cpp_tcp.Network.Genuine.{Real, Genuine, segment-Agrees}

abbrev pub segments : List SegmentForSender → List TcpSegment
segments es = map (λ (e : SegmentForSender). e.segment) es

segments-append :
    (es : List SegmentForSender) (e : SegmentForSender)
    → segments (es ++ e ∷ []) ≡ segments es ++ e.segment ∷ []
segments-append [] e = refl
segments-append (x ∷ es) e = ap (λ ys. x.segment ∷ ys) (segments-append es e)

-- The bytes held are those of the stream `src`, of which `total` bytes have come in, and the segments
-- carry parts of it.
pub record Carrying (src : ℕ → ℕ) (isn : WrappingInt32) (total : ℕ) (s : TcpSender) : Type 0 where
  pub same_isn : s.window.isn ≡ isn
  pub held : contents s.stream ≡ segment src s.stream.read_count (buffer_size s.stream)
  pub come_in : s.stream.read_count + buffer_size s.stream ≡ total
  pub queue : All (Genuine src isn) s.segments_out
  pub flight : All (Genuine src isn) (segments s.window.buffer)

-- The segment of a round takes the next bytes of the stream.
next_segment-Real :
    {src : ℕ → ℕ} {isn : WrappingInt32} {total : ℕ} (s : TcpSender)
    → IsValid s
    → 1 ≤ s.window.next_seqno
    → may_send s ≡ true
    → Carrying src isn total s
    → Real src isn (next_segment s).0 s.window.next_seqno
next_segment-Real {src} {isn} {total} s v begun e c =
    let (few, payload, many, _) = round_fields v in
    let (seqno, syn, _) = next_segment_fields s in
    let start = round_start v begun e in
    let bounded = v.bounded in
    let n = payload_size s in
    let bytes : (next_segment s).0.payload ≡ segment src s.stream.read_count n =
      payload
      ∙ ap (take n) c.held
      ∙ take-segment src s.stream.read_count n (buffer_size s.stream)
      ∙ ap (segment src s.stream.read_count) (omega (arith, few)) in
    record {
      seqno = seqno ∙ ap (wrap s.window.next_seqno) c.same_isn;
      small = omega (arith, start, bounded, round_length v);
      bytes =
          subst (λ xs. Agrees src xs (s.window.next_seqno - 1)) (sym bytes)
            (subst (Agrees src (segment src s.stream.read_count n)) (omega (arith, start))
              (segment-Agrees src s.stream.read_count n));
      at_syn = λ yes_syn. absurd (ground (arith, yes_syn, syn));
      behind_syn = λ no_syn. begun;
    }

pub All-snoc :
    {A : Type 0} (P : A → Type 0) (xs : List A) (x : A) → All P xs → P x → All P (xs ++ x ∷ [])
All-snoc P xs x h p = All-append P xs (x ∷ []) h (p, tt)

-- A segment that is sent goes into the queue and into the window.
flight-append :
    (P : TcpSegment → Type 0) (es : List SegmentForSender) (e : SegmentForSender)
    → All P (segments es)
    → P e.segment
    → All P (segments (es ++ e ∷ []))
flight-append P es e h p =
    subst (All P) (sym (segments-append es e)) (All-snoc P (segments es) e.segment h p)

-- Popping leaves the stream's bytes from the new read count on.
pop-held :
    (src : ℕ → ℕ) {s : ByteStream} (len : ℕ)
    → Invariant.IsValid s
    → contents s ≡ segment src s.read_count (buffer_size s)
    → s.read_count + buffer_size s < 2 ^ 64
    → contents (pop_output s len)
      ≡ segment src (pop_output s len).read_count (buffer_size (pop_output s len))
pop-held src {s} len v held small =
    let p = pop_output-Popped len v in
    let m = min len (buffer_size s) in
    p.rest
    ∙ ap (drop m) held
    ∙ drop-segment src s.read_count m (buffer_size s)
    ∙ ap₂ (segment src) (omega (arith, p.read_count)) (omega (arith, p.size))

after_round-Carrying :
    {src : ℕ → ℕ} {isn : WrappingInt32} {total : ℕ} (s : TcpSender)
    → IsValid s
    → 1 ≤ s.window.next_seqno
    → may_send s ≡ true
    → Carrying src isn total s
    → Carrying src isn total (after_round s)
after_round-Carrying {src} {isn} {total} s v begun e c =
    let (few, _, _, _) = round_fields v in
    let bounded = v.bounded in
    let p = pop_output-Popped (payload_size s) v.stream in
    let genuine : Genuine src isn (next_segment s).0 =
      inr (s.window.next_seqno, next_segment-Real s v begun e c) in
    record {
      same_isn = c.same_isn;
      held = pop-held src (payload_size s) v.stream c.held (omega (arith, bounded));
      come_in = omega (arith, p.read_count, p.size, few, c.come_in);
      queue = All-snoc (Genuine src isn) s.segments_out (next_segment s).0 c.queue genuine;
      flight =
          flight-append (Genuine src isn) s.window.buffer
            record { segment = (next_segment s).0; remaining_rto = to_u32 s.rto } c.flight genuine;
    }

syn_segment-Real :
    {src : ℕ → ℕ} {isn : WrappingInt32} (s : TcpSender)
    → s.window.isn ≡ isn
    → s.window.next_seqno ≡ 0
    → Real src isn (syn_segment s) 0
syn_segment-Real s same e = record {
  seqno = cc (same, e);
  small = omega arith;
  bytes = λ k lt. absurd (omega (arith, lt));
  at_syn = λ _. (refl, refl);
  behind_syn = λ no. absurd (ground (arith, no));
}

opened-Carrying :
    {src : ℕ → ℕ} {isn : WrappingInt32} {total : ℕ} (s : TcpSender)
    → Carrying src isn total s
    → s.window.next_seqno ≡ 0
    → Carrying src isn total (opened s)
opened-Carrying {src} {isn} {total} s c e =
    let genuine : Genuine src isn (syn_segment s) = inr (0, syn_segment-Real s c.same_isn e) in
    record {
      same_isn = c.same_isn;
      held = c.held;
      come_in = c.come_in;
      queue = All-snoc (Genuine src isn) s.segments_out (syn_segment s) c.queue genuine;
      flight =
          flight-append (Genuine src isn) s.window.buffer
            record { segment = syn_segment s; remaining_rto = to_u32 s.rto } c.flight genuine;
    }

-- `fill_window` sends genuine segments.
pub fill_window-Carrying :
    {src : ℕ → ℕ} {isn : WrappingInt32} {total : ℕ} (s : TcpSender)
    → IsValid s
    → Carrying src isn total s
    → Returns (Carrying src isn total) (fill_window s)
fill_window-Carrying {src} {isn} {total} s v c =
    fill_window_rule (Carrying src isn total) after_round-Carrying s v c (opened-Carrying s c)
