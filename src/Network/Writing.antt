-- ===== src/Network/Writing.antt =====
-- The application's calls at the sender.
use cpp_tcp.Common.{
  ℕ, ◌+◌, ◌-◌, ◌^◌, ◌<◌, ◌≡◌, inl, inr, refl, sym, ap₂, ◌∙◌, true, arith, List, ◌++◌, segment, take,
  subst, Bool-cases,
}
use cpp_tcp.Wrapping.{WrappingInt32}
use cpp_tcp.ByteStream
use cpp_tcp.ByteStream.{ByteStream, buffer_size}
use cpp_tcp.ByteStream.Window.{contents}
use cpp_tcp.ByteStream.Invariant
use cpp_tcp.Sender.{TcpSender}
use cpp_tcp.Sender.Streams.{restreamed-IsValid, never_ended}
use cpp_tcp.ByteStream.Refine.{end_input_refines}
use cpp_tcp.ByteStream.Accept.{write-Accepted, write_refused}
use cpp_tcp.ByteStream.Spec
use cpp_tcp.Common.{segment-append}
use cpp_tcp.Network.Hearing.{Sends}

-- Another stream, whose bytes are still those of `src`.
restreamed :
    {src : ℕ → ℕ} {isn : WrappingInt32} {total : ℕ} {more : ℕ} (s : TcpSender) (out : ByteStream)
    → Sends src isn total s
    → Invariant.IsValid out
    → out.read_count ≡ s.stream.read_count
    → out.failed ≡ s.stream.failed
    → out.read_count + buffer_size out < 2 ^ 31 - 2
    → contents out ≡ segment src out.read_count (buffer_size out)
    → out.read_count + buffer_size out ≡ more
    → (ByteStream.eof s.stream ≡ true → ByteStream.eof out ≡ true)
    → Sends src isn more (record s { stream = out })
restreamed {src} {isn} {total} s out h valid count failed bounded held come_in eof =
    let v = h.valid in
    let c = h.carrying in
    record {
      valid = restreamed-IsValid out v valid count failed bounded eof;
      carrying = record {
        same_isn = c.same_isn;
        held = held;
        come_in = come_in;
        queue = c.queue;
        flight = c.flight;
      };
    }

-- The end of the input.
pub end_input-Sends :
    {src : ℕ → ℕ} {isn : WrappingInt32} {total : ℕ} (s : TcpSender)
    → Sends src isn total s
    → Sends src isn total (record s { stream = ByteStream.end_input s.stream })
unfolding ByteStream.end_input buffer_size ByteStream.eof ByteStream.buffer_empty Spec.end_input
end_input-Sends {src} s h =
    let bounded = h.valid.bounded in
    restreamed s (ByteStream.end_input s.stream) h (end_input_refines h.valid.stream).0 refl refl
      bounded h.carrying.held h.carrying.come_in (λ e. ground (arith, e))

-- Bytes written that are the stream's next ones.
pub write-Sends :
    {src : ℕ → ℕ} {isn : WrappingInt32} {total : ℕ} (s : TcpSender) (bytes : List ℕ)
    → Sends src isn total s
    → let n = (ByteStream.write s.stream bytes).1 in
      take n bytes ≡ segment src (s.stream.read_count + buffer_size s.stream) n
      → s.stream.read_count + buffer_size s.stream + n < 2 ^ 31 - 2
      → Sends src isn (total + n) (record s { stream = (ByteStream.write s.stream bytes).0 })
write-Sends {src} {isn} {total} s bytes h same small = elim (Bool-cases s.stream.end_flag) [
  | inl ended ↦
      subst (λ (x : ByteStream × ℕ). Sends src isn (total + x.1) (record s { stream = x.0 }))
        (sym (write_refused s.stream bytes ended)) (subst (λ k. Sends src isn k s) (omega arith) h)
  | inr open_yet ↦
      let w = write-Accepted bytes h.valid.stream open_yet in
      let (out, n) = ByteStream.write s.stream bytes in
      restreamed s out h w.valid w.read_count w.failed (omega (arith, w.read_count, w.size, small))
        (w.joined
          ∙ ap₂ ◌++◌ h.carrying.held same
          ∙ segment-append src s.stream.read_count (buffer_size s.stream) n
          ∙ ap₂ (segment src) (sym w.read_count) (sym w.size))
        (omega (arith, w.read_count, w.size, h.carrying.come_in))
        (λ e. absurd (never_ended s.stream e open_yet))
]
