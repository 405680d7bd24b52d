-- ===== src/Sender/Streams.antt =====
-- The application's calls on the stream of a sender.
use cpp_tcp.Common.{
  ℕ, ◌+◌, ◌-◌, ◌^◌, ◌≤◌, ◌<◌, ◌≡◌, inl, inr, refl, ◌∙◌, arith, Bool, true, false, List, length,
  Returns,
}
use cpp_tcp.ByteStream
use cpp_tcp.ByteStream.{ByteStream, buffer_size}
use cpp_tcp.ByteStream.Invariant
use cpp_tcp.ByteStream.Refine.{end_input_refines, pop_output-Popped}
use cpp_tcp.ByteStream.Accept.{write-Accepted}
use cpp_tcp.ByteStream.Spec
use cpp_tcp.Segment.{TcpSegment}
use cpp_tcp.Sender.{TcpSender, fill_window, payload_size}
use cpp_tcp.Sender.Shape.{IsValid, InStep}
use cpp_tcp.Sender.Fill.Rule.{fill_window_rule}

-- Another stream that has been read as far keeps the sender valid.
pub restreamed-IsValid :
    {s : TcpSender} (out : ByteStream)
    → IsValid s
    → Invariant.IsValid out
    → out.read_count ≡ s.stream.read_count
    → out.failed ≡ s.stream.failed
    → out.read_count + buffer_size out < 2 ^ 31 - 2
    → (ByteStream.eof s.stream ≡ true → ByteStream.eof out ≡ true)
    → IsValid (record s { stream = out })
restreamed-IsValid {s} out v valid count failed bounded eof = record {
  stream = valid;
  window = v.window;
  in_step = moved v.in_step;
  sound = failed ∙ v.sound;
  usable = v.usable;
  bounded = bounded;
  syn_first = v.syn_first;
}
  where
    moved : InStep s → InStep (record s { stream = out })
    moved (inl (next, read)) = inl (next, count ∙ read)
    moved (inr (inl sent)) = inr (inl (omega (arith, sent, count)))
    moved (inr (inr (sent, ended))) = inr (inr (omega (arith, sent, count), eof ended))

-- The queue may be any.
pub requeued-IsValid :
    {s : TcpSender} (queue : List TcpSegment)
    → IsValid s
    → IsValid (record s { segments_out = queue })
requeued-IsValid queue v =
    let bounded = v.bounded in
    record {
      stream = v.stream;
      window = v.window;
      in_step = v.in_step;
      sound = v.sound;
      usable = v.usable;
      bounded = bounded;
      syn_first = v.syn_first;
    }

pub end_input-IsValid :
    (s : TcpSender) → IsValid s → IsValid (record s { stream = ByteStream.end_input s.stream })
unfolding ByteStream.end_input buffer_size ByteStream.eof ByteStream.buffer_empty Spec.end_input
end_input-IsValid s v =
    let bounded = v.bounded in
    restreamed-IsValid (ByteStream.end_input s.stream) v (end_input_refines v.stream).0 refl refl
      bounded (λ e. ground (arith, e))

-- At the end of a stream its input has ended.
pub never_ended : (s : ByteStream) → ByteStream.eof s ≡ true → s.end_flag ≡ false → ⊥
unfolding ByteStream.eof
never_ended s e open_yet = ground (arith, e, open_yet)

-- Bytes that fit are all taken, and the sender stays valid.
pub write-IsValid :
    (s : TcpSender) (bytes : List ℕ)
    → IsValid s
    → s.stream.end_flag ≡ false
    → length bytes ≤ ByteStream.remaining_capacity s.stream
    → s.stream.read_count + buffer_size s.stream + length bytes < 2 ^ 31 - 2
    → IsValid (record s { stream = (ByteStream.write s.stream bytes).0 })
      × ((ByteStream.write s.stream bytes).1 ≡ length bytes)
      × ((ByteStream.write s.stream bytes).0.end_flag ≡ false)
write-IsValid s bytes v open_yet fits small =
    let w = write-Accepted bytes v.stream open_yet in
    let (sum, _, _) = Invariant.sizes_lem v.stream in
    (
      restreamed-IsValid (ByteStream.write s.stream bytes).0 v w.valid w.read_count w.failed
          (omega (arith, w.read_count, w.size, w.few, small))
          (λ e. absurd (never_ended s.stream e open_yet)),
      omega (arith, w.taken, sum, fits),
      w.end_flag,
    )

-- `fill_window` does not end the input.
pub fill_window-end_flag :
    (s : TcpSender) (b : Bool)
    → IsValid s
    → s.stream.end_flag ≡ b
    → Returns (λ s'. s'.stream.end_flag ≡ b) (fill_window s)
fill_window-end_flag s b v e =
    fill_window_rule (λ (x : TcpSender). x.stream.end_flag ≡ b)
      (λ x valid begun sends same.
        (pop_output-Popped (payload_size x) valid.stream).end_flag ∙ same)
      s v e (λ closed. e)
