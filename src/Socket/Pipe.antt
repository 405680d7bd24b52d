-- ===== src/Socket/Pipe.antt =====
-- The rule that passes the bytes of the application on to the connection.
use cpp_tcp.Common.{
  ap₂, append_assoc, ◌∷◌, ℕ, ◌+◌, ◌-◌, ◌^◌, ◌≤◌, ◌<◌, ◌≡◌, refl, sym, ap, ◌∙◌, arith, Bool, true,
  false, not, ◌==◌, List, [], ◌++◌, length, take, if◌then◌else◌, inl, inr, Option-cases, ok, err,
  Error, Returns, Returns-bind, Returns-map, Returns-both, if-both, subst,
}
use cpp_tcp.Wrapping.{WrappingInt32}
use cpp_tcp.ByteStream
use cpp_tcp.ByteStream.{ByteStream, buffer_size}
use cpp_tcp.ByteStream.Window.{contents}
use cpp_tcp.ByteStream.Refine.{contents-end_input}
use cpp_tcp.ByteStream.Accept.{write-Accepted}
use cpp_tcp.Sender
use cpp_tcp.Sender.{TcpSender}
use cpp_tcp.Sender.Shape
use cpp_tcp.Sender.Streams.{
  requeued-IsValid, write-IsValid, end_input-IsValid, fill_window-end_flag,
}
use cpp_tcp.Sender.Fill.{payloads, payloads-append, Filled, fill_window-Filled}
use cpp_tcp.Receiver
use cpp_tcp.Receiver.{TcpReceiver}
use cpp_tcp.Segment.{TcpSegment}
use cpp_tcp.Connection.{
  TcpConnection, collect, stamp, add_ack_info, has_ackno, remaining_outbound_capacity,
}
use cpp_tcp.Connection
use cpp_tcp.Connection.Outgoing.{AllStamped, Stamped-payload, stamp-AllStamped, stamp_unknown}
use cpp_tcp.Socket.{SpongeSocket, outbound_data, shut_outbound}

-- The stamped segments carry the same payloads.
AllStamped-payloads :
    (r : TcpReceiver) (n : WrappingInt32) (segs segs' : List TcpSegment)
    → AllStamped r n segs segs'
    → payloads segs' ≡ payloads segs
AllStamped-payloads r n [] [] all = refl
AllStamped-payloads r n [] (_ ∷ _) all = absurd all
AllStamped-payloads r n (_ ∷ _) [] all = absurd all
AllStamped-payloads r n (seg ∷ segs) (seg' ∷ segs') all =
    ap₂ ◌++◌ (Stamped-payload r n seg seg' all.0) (AllStamped-payloads r n segs segs' all.1)

stamp-payloads :
    (r : TcpReceiver) (segs : List TcpSegment)
    → Returns (λ out. payloads out ≡ payloads segs) (stamp r segs)
stamp-payloads r segs = elim (Option-cases (Receiver.ackno r)) [
  | inl unknown ↦
      subst (Returns (λ out. payloads out ≡ payloads segs)) (sym (stamp_unknown r segs unknown))
        refl
  | inr (n, known) ↦
      Returns-map (AllStamped r n segs) _ (stamp r segs) (AllStamped-payloads r n segs)
        (stamp-AllStamped r n segs known)
]

-- The bytes of the sender that have not reached the connection's queue: those of segments made, and
-- those of the stream.
abbrev pub pending : TcpConnection → List ℕ
pending c = payloads c.sender.segments_out ++ contents c.sender.stream

-- The sender is valid and its input has ended or not; behind the segments `queued` the connection has
-- queued some that carry the first of the bytes `bytes`, and the rest is in the sender's stream.
pub record Passes (queued : List TcpSegment) (bytes : List ℕ) (ended : Bool) (c : TcpConnection)
    : Type 0 where
  pub valid : Shape.IsValid c.sender
  pub end_flag : c.sender.stream.end_flag ≡ ended
  pub drained : c.sender.segments_out ≡ []
  pub sent : List TcpSegment
  pub queue : c.segments_out ≡ queued ++ sent
  pub carried : payloads sent ++ contents c.sender.stream ≡ bytes

Passes-join :
    {queued : List TcpSegment} {bytes : List ℕ} {ended ended' : Bool} {c c' : TcpConnection}
    → Passes queued bytes ended c
    → Passes c.segments_out (contents c.sender.stream) ended' c'
    → Passes queued bytes ended' c'
Passes-join {queued} {c' = c'} p q = record {
  valid = q.valid;
  end_flag = q.end_flag;
  drained = q.drained;
  sent = p.sent ++ q.sent;
  queue = q.queue ∙ ap (λ segs. segs ++ q.sent) p.queue ∙ append_assoc queued p.sent q.sent;
  carried =
      ap (λ bs. bs ++ contents c'.sender.stream) (payloads-append p.sent q.sent)
      ∙ append_assoc (payloads p.sent) (payloads q.sent) (contents c'.sender.stream)
      ∙ ap (λ bs. payloads p.sent ++ bs) q.carried
      ∙ p.carried;
}

-- `_collect_sender_segments_out` returns, and loses nothing.
collect-Passes :
    (ended : Bool) (c : TcpConnection)
    → Shape.IsValid c.sender
    → c.sender.stream.end_flag ≡ ended
    → Returns (Passes c.segments_out (pending c) ended) (collect c)
unfolding collect
collect-Passes ended c v flag =
    Returns-bind (λ s. Filled c.sender s × (s.stream.end_flag ≡ ended)) _
      (Sender.fill_window c.sender) _
      (Returns-both (Filled c.sender) (λ s. s.stream.end_flag ≡ ended)
        (λ s. Filled c.sender s × (s.stream.end_flag ≡ ended)) (Sender.fill_window c.sender)
        (λ s f e. (f, e)) (fill_window-Filled v) (fill_window-end_flag c.sender ended v flag))
      λ s (f, e).
        Returns-bind (λ segs. payloads segs ≡ payloads s.segments_out) _
          (stamp c.receiver s.segments_out) _ (stamp-payloads c.receiver s.segments_out)
          λ segs same. record {
            valid = requeued-IsValid [] f.valid;
            end_flag = e;
            drained = refl;
            sent = segs;
            queue = refl;
            carried =
                ap (λ bs. bs ++ contents s.stream)
                  (same ∙ ap payloads f.queued ∙ payloads-append c.sender.segments_out f.sent)
                ∙ append_assoc (payloads c.sender.segments_out) (payloads f.sent)
                    (contents s.stream)
                ∙ ap (λ bs. payloads c.sender.segments_out ++ bs) (sym f.bytes);
          }

take-length : (bytes : List ℕ) → take (length bytes) bytes ≡ bytes
take-length [] = refl
take-length (x ∷ xs) = ap (λ ys. x ∷ ys) (take-length xs)

-- What rule 2 has done: the bytes read from the pipe stand behind all that the sender had, and the
-- input has ended and the shutdown is noted as the pipe says.
abbrev pub PassesOn : SpongeSocket → List ℕ → Bool → SpongeSocket → Type 0
PassesOn s bytes pipe_eof s' =
    Passes s.tcp.segments_out (pending s.tcp ++ bytes) pipe_eof s'.tcp
    × (s'.outbound_shutdown ≡ pipe_eof)

shut_outbound-PassesOn :
    (s s₁ : SpongeSocket) (bytes : List ℕ)
    → Passes s.tcp.segments_out (pending s.tcp ++ bytes) false s₁.tcp
    → Returns (PassesOn s bytes true) (shut_outbound s₁)
unfolding shut_outbound Connection.end_input_stream ByteStream.end_input
shut_outbound-PassesOn s s₁ bytes p =
    let ending = record s₁.tcp {
      sender = record s₁.tcp.sender { stream = ByteStream.end_input s₁.tcp.sender.stream };
    } in
    let left : pending ending ≡ contents s₁.tcp.sender.stream =
      ap (λ segs. payloads segs ++ contents (ByteStream.end_input s₁.tcp.sender.stream)) p.drained
      ∙ (contents-end_input s₁.tcp.sender.stream).0 in
    Returns-bind (Passes s₁.tcp.segments_out (pending ending) true) (PassesOn s bytes true)
      (collect ending) _ (collect-Passes true ending (end_input-IsValid s₁.tcp.sender p.valid) refl)
      λ c q. (Passes-join p (subst (λ bs. Passes s₁.tcp.segments_out bs true c) left q), refl)

ended-PassesOn :
    (s s₁ : SpongeSocket) (bytes : List ℕ) (pipe_eof : Bool)
    → Passes s.tcp.segments_out (pending s.tcp ++ bytes) false s₁.tcp
    → s₁.outbound_shutdown ≡ false
    → Returns (PassesOn s bytes pipe_eof) (if pipe_eof then shut_outbound s₁ else ok s₁)
ended-PassesOn s s₁ bytes true p shutdown = shut_outbound-PassesOn s s₁ bytes p
ended-PassesOn s s₁ bytes false p shutdown = (p, shutdown)

-- Rule 2 passes the bytes of the application on. Let the sender be valid, its input not ended, and the
-- bytes read from the pipe no more than the connection has room for, in a stream that stays below
-- 2 ^ 31 - 2 bytes. Then the rule does not throw; the segments that the connection has queued anew and
-- the sender's stream hold, in order, the bytes that waited in the sender and behind them exactly the
-- bytes read; the sender stays valid; and the input is ended, and the shutdown noted, exactly when the
-- pipe has ended.
pub outbound_data-PassesOn :
    (s : SpongeSocket) (bytes : List ℕ) (pipe_eof : Bool)
    → Shape.IsValid s.tcp.sender
    → s.tcp.sender.stream.end_flag ≡ false
    → length bytes ≤ remaining_outbound_capacity s.tcp
    → s.tcp.sender.stream.read_count + buffer_size s.tcp.sender.stream + length bytes < 2 ^ 31 - 2
    → s.outbound_shutdown ≡ false
    → Returns (PassesOn s bytes pipe_eof) (outbound_data s bytes pipe_eof)
unfolding outbound_data Connection.write remaining_outbound_capacity
outbound_data-PassesOn s bytes pipe_eof v flag fits small shutdown =
    let (valid, count, open_yet) = write-IsValid s.tcp.sender bytes v flag fits small in
    let (stream, n) = ByteStream.write s.tcp.sender.stream bytes in
    let written = record s.tcp { sender = record s.tcp.sender { stream = stream } } in
    let P = Passes s.tcp.segments_out (pending s.tcp ++ bytes) false in
    let all : contents stream ≡ contents s.tcp.sender.stream ++ bytes =
      (write-Accepted bytes v.stream flag).joined
      ∙ ap (λ bs. contents s.tcp.sender.stream ++ bs)
          (ap (λ k. take k bytes) count ∙ take-length bytes) in
    let waiting : pending written ≡ pending s.tcp ++ bytes =
      ap (λ bs. payloads s.tcp.sender.segments_out ++ bs) all
      ∙ sym (
          append_assoc (payloads s.tcp.sender.segments_out) (contents s.tcp.sender.stream) bytes) in
    Returns-bind (λ (x : ℕ × TcpConnection). (x.0 ≡ length bytes) × P x.1)
      (PassesOn s bytes pipe_eof) _ _
      (Returns-bind (Passes s.tcp.segments_out (pending written) false) _ (collect written)
        (λ c. ok (n, c)) (collect-Passes false written valid open_yet)
        λ c q. (count, subst (λ bs. Passes s.tcp.segments_out bs false c) waiting q))
      λ x h.
        if-both (Returns (PassesOn s bytes pipe_eof)) (not (x.0 == length bytes))
          (err Error.runtime_error) _ (λ other. absurd (ground (arith, h.0, other)))
          (λ same. ended-PassesOn s (record s { tcp = x.1 }) bytes pipe_eof h.1 shutdown)
