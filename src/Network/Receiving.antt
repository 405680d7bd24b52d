-- ===== src/Network/Receiving.antt =====
-- Whatever genuine segments arrive, the receiver delivers the sender's stream.
use cpp_tcp.Common.{
  ℕ, ◌+◌, ◌^◌, ◌≤◌, ◌<◌, ◌≡◌, ◌⊎◌, inl, inr, refl, sym, ap, ap₂, ◌∙◌, true, false, ◌||◌, arith,
  length, subst, ok, >>=-eq-ok, ok-injective, Bool-cases, if◌then◌else◌,
}
use cpp_tcp.Wrapping.{WrappingInt32, wrap, unwrap}
use cpp_tcp.Wrapping.Laws.{unwrap-wrap}
use cpp_tcp.Segment.{TcpSegment, TcpHeader, length_in_sequence_space}
use cpp_tcp.Reassembler
use cpp_tcp.Reassembler.Store.{Agrees}
use cpp_tcp.Reassembler.Delivery.{Delivers}
use cpp_tcp.Reassembler.Push.{Pushed, push_substring_ok}
use cpp_tcp.Receiver.{
  TcpReceiver, segment_received, note_syn, take_segment, advance_checkpoint, stream_index,
}
use cpp_tcp.Network.Genuine.{Real, Genuine}

-- The receiver delivers `src`, and once it knows the sender's first number, its acknowledgment is
-- behind the SYN.
pub record Receives (src : ℕ → ℕ) (isn : WrappingInt32) (r : TcpReceiver) : Type 0 where
  pub delivers : Delivers src r.reassembler
  pub small : r.checkpoint < 2 ^ 31
  pub known : r.is_set ≡ true → (r.isn ≡ isn) × (1 ≤ r.checkpoint)

-- How far the receiver may have got, in 31 bits.
abbrev pub Room : TcpReceiver → Type 0
Room r = r.reassembler.output.read_count + r.reassembler.capacity + 3 < 2 ^ 31

-- The state between `note_syn` and the rest: the number is known, and the acknowledgment is behind
-- the SYN unless the segment is one.
record Noted (src : ℕ → ℕ) (isn : WrappingInt32) (seg : TcpSegment) (r : TcpReceiver) : Type 0 where
  delivers : Delivers src r.reassembler
  small : r.checkpoint < 2 ^ 31
  same_isn : r.isn ≡ isn
  begun : (1 ≤ r.checkpoint) ⊎ ((seg.header.syn ≡ true) × (r.checkpoint ≡ 0))

wrap-zero : (isn : WrappingInt32) → isn < 2 ^ 32 → wrap 0 isn ≡ isn
unfolding wrap
wrap-zero isn word = omega arith

-- A SYN is the segment of number 0.
syn_seqno :
    {src : ℕ → ℕ} {isn : WrappingInt32} (seg : TcpSegment)
    → isn < 2 ^ 32
    → Genuine src isn seg
    → seg.header.syn ≡ true
    → seg.header.seqno ≡ isn
syn_seqno seg word (inl bare) syn = absurd (ground (arith, bare, syn))
syn_seqno {isn = isn} seg word (inr (x, real)) syn =
    real.seqno ∙ ap (λ n. wrap n isn) (real.at_syn syn).0 ∙ wrap-zero isn word

index_lem :
    {src : ℕ → ℕ} {isn : WrappingInt32} (seg : TcpSegment) (r : TcpReceiver) (x : ℕ)
    → isn < 2 ^ 32
    → Noted src isn seg r
    → Real src isn seg x
    → unwrap seg.header.seqno r.isn r.checkpoint ≡ x
index_lem {isn = isn} seg r x word noted real =
    let small = real.small in
    ap₂ (λ n m. unwrap n m r.checkpoint) real.seqno noted.same_isn
    ∙ unwrap-wrap x isn r.checkpoint (omega (arith, small)) word (omega (arith, noted.small))
        (omega (arith, small, noted.small)) (omega (arith, small, noted.small))
        (inl (omega (arith, noted.small)))

-- What is pushed agrees with the stream.
pushed_agrees :
    {src : ℕ → ℕ} {isn : WrappingInt32} (seg : TcpSegment) (r : TcpReceiver)
    → isn < 2 ^ 32
    → Noted src isn seg r
    → Genuine src isn seg
    → Agrees src seg.payload (stream_index seg.header (unwrap seg.header.seqno r.isn r.checkpoint))
unfolding stream_index
pushed_agrees seg r word noted (inl bare) = λ k lt. absurd (omega (arith, bare, lt))
pushed_agrees {src} seg r word noted (inr (x, real)) = elim (Bool-cases seg.header.syn) [
  | inl syn ↦ λ k lt. absurd (omega (arith, lt, ap length (real.at_syn syn).1))
  | inr no_syn ↦
      subst (Agrees src seg.payload)
        (sym (
          ground
            (arith, no_syn, index_lem seg r x word noted real, real.behind_syn no_syn, real.small)))
        real.bytes
]

advance_bounds :
    (r : TcpReceiver) (i n : ℕ)
    → r.checkpoint < 2 ^ 31
    → Reassembler.left r.reassembler + 3 < 2 ^ 31
    → (n ≡ 0) ⊎ (i + n < 2 ^ 31)
    → (1 ≤ r.checkpoint) ⊎ (i ≡ 0)
    → ((advance_checkpoint r i n).checkpoint < 2 ^ 31) × (1 ≤ (advance_checkpoint r i n).checkpoint)
unfolding advance_checkpoint
advance_bounds r i n small near fits begun = ground arith

advance_keeps :
    (r : TcpReceiver) (i n : ℕ)
    → ((advance_checkpoint r i n).reassembler ≡ r.reassembler)
      × ((advance_checkpoint r i n).isn ≡ r.isn)
unfolding advance_checkpoint
advance_keeps r i n = ground arith

-- What a segment does to the receiver.
pub record Took (src : ℕ → ℕ) (isn : WrappingInt32) (r r' : TcpReceiver) : Type 0 where
  pub receives : Receives src isn r'
  pub read_count : r'.reassembler.output.read_count ≡ r.reassembler.output.read_count
  pub capacity : r'.reassembler.capacity ≡ r.reassembler.capacity

fits_lem :
    {src : ℕ → ℕ} {isn : WrappingInt32} (seg : TcpSegment) (r : TcpReceiver)
    → isn < 2 ^ 32
    → Noted src isn seg r
    → Genuine src isn seg
    → let i = unwrap seg.header.seqno r.isn r.checkpoint in
      ((length_in_sequence_space seg ≡ 0) ⊎ (i + length_in_sequence_space seg < 2 ^ 31))
      × ((1 ≤ r.checkpoint) ⊎ (i ≡ 0))
fits_lem seg r word noted (inl bare) = (
  inl bare,
  elim noted.begun [ inl past ↦ inl past | inr (syn, _) ↦ absurd (ground (arith, bare, syn)) ],
)
fits_lem seg r word noted (inr (x, real)) =
    let index = index_lem seg r x word noted real in
    (
      inr (omega (arith, index, real.small)),
      elim noted.begun [ inl past ↦ inl past | inr (syn, _) ↦ inr (index ∙ (real.at_syn syn).0) ],
    )

take_segment-Took :
    {src : ℕ → ℕ} {isn : WrappingInt32} (seg : TcpSegment) (r r' : TcpReceiver)
    → isn < 2 ^ 32
    → Room r
    → Noted src isn seg r
    → Genuine src isn seg
    → take_segment r seg ≡ ok r'
    → Took src isn r r'
unfolding take_segment
take_segment-Took {src} {isn} seg r r' word room noted genuine e =
    let i = unwrap seg.header.seqno r.isn r.checkpoint in
    let n = length_in_sequence_space seg in
    let (pushed, pushes, done) =
      >>=-eq-ok
        (Reassembler.push_substring r.reassembler seg.payload (stream_index seg.header i)
          seg.header.fin)
        _ e in
    let p =
      push_substring_ok seg.payload (stream_index seg.header i) seg.header.fin (omega (arith, room))
        noted.delivers (pushed_agrees seg r word noted genuine) pushes in
    let (fits, begun) = fits_lem seg r word noted genuine in
    let mid = record r { reassembler = pushed; ended = r.ended || seg.header.fin } in
    let (small, behind) = advance_bounds mid i n noted.small (near p) fits begun in
    let (same, isn_kept) = advance_keeps mid i n in
    subst (Took src isn r) (ok-injective done) record {
      receives = record {
        delivers = subst (Delivers src) (sym same) p.delivers;
        small = small;
        known = λ _. (isn_kept ∙ noted.same_isn, behind);
      };
      read_count =
          ap (λ (x : Reassembler.StreamReassembler). x.output.read_count) same ∙ p.read_count;
      capacity = ap (λ (x : Reassembler.StreamReassembler). x.capacity) same ∙ p.capacity;
    }
  where
    near :
        {pushed : Reassembler.StreamReassembler}
        → Pushed src r.reassembler pushed
        → Reassembler.left pushed + 3 < 2 ^ 31
    near p =
        let d = p.delivers in
        omega (arith, d.in_buffer, d.in_window, p.read_count, p.capacity, room)

-- Before the number is known, only a SYN does anything.
note_syn-Noted :
    {src : ℕ → ℕ} {isn : WrappingInt32} (seg : TcpSegment) (r : TcpReceiver)
    → isn < 2 ^ 32
    → Receives src isn r
    → Genuine src isn seg
    → (note_syn r seg.header).is_set ≡ true
    → Noted src isn seg (note_syn r seg.header)
unfolding note_syn
note_syn-Noted {src} {isn} seg r word h genuine set = elim (Bool-cases seg.header.syn) [
  | inl syn ↦ subst (Noted src isn seg) (sym (ap (λ b. if b then reset else r) syn)) record {
    delivers = h.delivers;
    small = omega arith;
    same_isn = syn_seqno seg word genuine syn;
    begun = inr (syn, refl);
  }
  | inr no_syn ↦
      let same : note_syn r seg.header ≡ r = ap (λ b. if b then reset else r) no_syn in
      let known = h.known (sym (ap (λ (x : TcpReceiver). x.is_set) same) ∙ set) in
      subst (Noted src isn seg) (sym same)
        record { delivers = h.delivers; small = h.small; same_isn = known.0; begun = inl known.1 }
]
  where
    reset : TcpReceiver
    reset = record r { isn = seg.header.seqno; is_set = true; checkpoint = 0 }

note_syn-reassembler :
    (r : TcpReceiver) (h : TcpHeader) → (note_syn r h).reassembler ≡ r.reassembler
unfolding note_syn
note_syn-reassembler r h = ground arith

note_syn-unset :
    (r : TcpReceiver) (h : TcpHeader) → (note_syn r h).is_set ≡ false → note_syn r h ≡ r
unfolding note_syn
note_syn-unset r h unset = elim (Bool-cases h.syn) [
  | inl syn ↦ absurd (ground (arith, syn, unset))
  | inr no_syn ↦ rw no_syn refl
]

-- Whatever genuine segment arrives, the receiver still delivers the stream.
pub segment_received-Took :
    {src : ℕ → ℕ} {isn : WrappingInt32} (seg : TcpSegment) (r r' : TcpReceiver)
    → isn < 2 ^ 32
    → Room r
    → Receives src isn r
    → Genuine src isn seg
    → segment_received r seg ≡ ok r'
    → Took src isn r r'
unfolding segment_received
segment_received-Took {src} {isn} seg r r' word room h genuine e =
    let noted = note_syn r seg.header in
    let same = note_syn-reassembler r seg.header in
    elim (Bool-cases noted.is_set) [
      | inl set ↦
          let t =
            take_segment-Took seg noted r' word
              (subst
                (λ (x : Reassembler.StreamReassembler).
                  x.output.read_count + x.capacity + 3 < 2 ^ 31)
                (sym same) room)
              (note_syn-Noted seg r word h genuine set) genuine
              (sym (ap (λ b. if b then take_segment noted seg else ok noted) set) ∙ e) in
          record {
            receives = t.receives;
            read_count =
                t.read_count ∙ ap (λ (x : Reassembler.StreamReassembler). x.output.read_count) same;
            capacity = t.capacity ∙ ap (λ (x : Reassembler.StreamReassembler). x.capacity) same;
          }
      | inr unset ↦
          let unchanged =
            sym (note_syn-unset r seg.header unset)
            ∙ ok-injective
                (sym (ap (λ b. if b then take_segment noted seg else ok noted) unset) ∙ e) in
          subst (Took src isn r) unchanged
            (record { receives = h; read_count = refl; capacity = refl })
    ]
