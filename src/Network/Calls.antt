-- ===== src/Network/Calls.antt =====
-- What single calls at the two ends keep of the invariant.
use cpp_tcp.Common.{
  ℕ, ◌+◌, ◌-◌, ◌^◌, ◌<◌, ◌≡◌, inl, inr, sym, ap, ap₂, ◌∙◌, arith, List, ◌++◌, length, segment, take,
  length-append, length-take, subst, Returns, ok, some, segment-append, Bool-cases,
}
use cpp_tcp.Wrapping.{WrappingInt32, wrap}
use cpp_tcp.Network.Fronts.{front_part}
use cpp_tcp.ByteStream
use cpp_tcp.ByteStream.{ByteStream, buffer_size}
use cpp_tcp.ByteStream.Accept.{write-few}
use cpp_tcp.Reassembler.Calls.{pop-Reads}
use cpp_tcp.Receiver
use cpp_tcp.Receiver.{TcpReceiver, ackno, window_size, segment_received}
use cpp_tcp.Window.Shape
use cpp_tcp.Sender
use cpp_tcp.Sender.{TcpSender}
use cpp_tcp.Network.{with_stream}
use cpp_tcp.Network.Hearing.{Sends, fill_window-Sends, ack_received-Sends}
use cpp_tcp.Network.Writing.{write-Sends}
use cpp_tcp.Network.Receiving.{Receives}
use cpp_tcp.Network.Invariant.{Issued}

-- What the receiver acknowledges.
pub ackno-Issued :
    {src : ℕ → ℕ} {isn : WrappingInt32} (r : TcpReceiver) (a : WrappingInt32) (win : ℕ)
    → Receives src isn r
    → ackno r ≡ some a
    → win < 2 ^ 16
    → Issued isn (a, win)
unfolding ackno
ackno-Issued {isn = isn} r a win h e word = elim (Bool-cases r.is_set) [
  | inl set ↦
      let (same, behind) = h.known set in
      (r.checkpoint, behind, h.small, ground (arith, e, set, same), word)
  | inr unset ↦ absurd (ground (arith, e, unset))
]

-- A read at the receiver takes the next bytes of the stream.
pub reads-Receives :
    {src : ℕ → ℕ} {isn : WrappingInt32} (r : TcpReceiver) (len : ℕ) (got : List ℕ)
    → r.reassembler.output.read_count + r.reassembler.capacity < 2 ^ 63
    → Receives src isn r
    → r.reassembler.output.read_count ≡ length got
    → got ≡ segment src 0 (length got)
    → let (bytes, out) = ByteStream.read (Receiver.stream_out r) len in
      Receives src isn (with_stream r out)
      × (out.read_count ≡ length (got ++ bytes))
      × (got ++ bytes ≡ segment src 0 (length (got ++ bytes)))
unfolding ByteStream.read
reads-Receives {src} r len got small h count same =
    let bytes = ByteStream.peek_output r.reassembler.output len in
    let (p, _) = pop-Reads len small h.delivers in
    let many = length-append got bytes in
    (
      record { delivers = p.delivers; small = h.small; known = h.known },
      omega (arith, p.moved, count, many),
      ap₂ ◌++◌ same (p.got ∙ ap (λ k. segment src k (length bytes)) (omega (arith, count)))
          ∙ segment-append src 0 (length got) (length bytes)
          ∙ ap (segment src 0) (sym many),
    )

-- A write at the sender whose bytes are the stream's next ones.
pub writes-Sends :
    {src : ℕ → ℕ} {isn : WrappingInt32} (s : TcpSender) (bytes written : List ℕ)
    → Sends src isn (length written) s
    → let after = written ++ take (ByteStream.write s.stream bytes).1 bytes in
      after ≡ segment src 0 (length after)
      → length after < 2 ^ 31 - 2
      → Sends src isn (length after) (record s { stream = (ByteStream.write s.stream bytes).0 })
writes-Sends {src} {isn} s bytes written h same small =
    let (out, n) = ByteStream.write s.stream bytes in
    let (_, next) = front_part src 0 written (take n bytes) same in
    let many = length-append written (take n bytes) in
    let taken = h.carrying.come_in in
    let count : length (take n bytes) ≡ n =
      omega (arith, write-few s.stream bytes h.valid.stream, length-take n bytes) in
    subst (λ k. Sends src isn k (record s { stream = out })) (omega (arith, many, count))
      (write-Sends s bytes h (next ∙ ap₂ (segment src) (omega (arith, taken)) count)
        (omega (arith, taken, many, count, small)))

pub fills-Sends :
    {src : ℕ → ℕ} {isn : WrappingInt32} {total : ℕ} {s s' : TcpSender}
    → Sender.fill_window s ≡ ok s'
    → Sends src isn total s
    → Sends src isn total s'
fills-Sends {src} {isn} {total} {s} e h =
    subst (Returns (Sends src isn total)) e (fill_window-Sends s h)

pub hears-Sends :
    {src : ℕ → ℕ} {isn : WrappingInt32} {total : ℕ} {s s' : TcpSender} (a : WrappingInt32) (win : ℕ)
    → Issued isn (a, win)
    → Sender.ack_received s a win ≡ ok s'
    → Sends src isn total s
    → Sends src isn total s'
hears-Sends {src} {isn} {total} {s} a win (c, low, high, same, word) e h =
    let number : a ≡ Shape.acks s.window c = same ∙ ap (wrap c) (sym h.carrying.same_isn) in
    subst (Returns (Sends src isn total)) (ap (λ n. Sender.ack_received s n win) (sym number) ∙ e)
      (ack_received-Sends s c win h low high word)
