-- ===== src/Receiver/Acks.antt =====
-- What the receiver acknowledges.
use mathlib.Core.Path.{subst}
use cpp_tcp.Common.{
  ◌||◌, ℕ, ◌+◌, ◌-◌, ◌^◌, ◌≤◌, ◌<◌, ◌≡◌, refl, sym, ap, ◌∙◌, true, false, arith, if◌then◌else◌,
  Returns, ok, Bool, ◌&&◌, ◌==◌, ◌⊎◌, max, ◌>>=◌, none, some,
}
use cpp_tcp.Wrapping.{wrap, unwrap}
use cpp_tcp.Segment.{TcpHeader, TcpSegment, length_in_sequence_space}
use cpp_tcp.Reassembler
use cpp_tcp.Wrapping.Laws.{unwrap-wrap}
use cpp_tcp.Reassembler.{StreamReassembler}
use cpp_tcp.Receiver.{
  TcpReceiver, stream_index, segment_received, ackno, take_segment, note_syn, advance_checkpoint,
}

-- Before the first SYN a segment leaves no trace, whatever it holds.
pub before_syn :
    (r : TcpReceiver) (seg : TcpSegment)
    → r.is_set ≡ false
    → seg.header.syn ≡ false
    → (segment_received r seg ≡ ok r) × (ackno r ≡ none)
unfolding segment_received note_syn ackno
before_syn r seg unset no_syn = rw (no_syn, unset) (refl, refl)

-- The FIN has come, and nothing is stored behind the first missing byte.
abbrev pub all_there : TcpReceiver → Bool
all_there r = r.ended && Reassembler.distance r.reassembler == 0

-- Where the acknowledgment of an in-order segment of `n` numbers gets: one past the SYN and the bytes
-- assembled, or to the end of the segment if that is farther on; and past the FIN only if the bytes
-- reach beyond the segment and all are there.
abbrev pub MovedOn : TcpReceiver → ℕ → TcpReceiver → Type 0
MovedOn r n r' =
    (((r'.checkpoint ≡ max (r.checkpoint + n) (Reassembler.left r'.reassembler + 1))
        × ((Reassembler.left r'.reassembler < r.checkpoint + n) ⊎ (all_there r' ≡ false)))
      ⊎ ((r'.checkpoint ≡ Reassembler.left r'.reassembler + 2)
          × (r.checkpoint + n ≤ Reassembler.left r'.reassembler)
          × (all_there r' ≡ true)))
    × (ackno r' ≡ some (wrap r'.checkpoint r.isn))

advance_in_order :
    (r : TcpReceiver) (n : ℕ)
    → r.is_set ≡ true
    → r.checkpoint + n < 2 ^ 64
    → Reassembler.left r.reassembler + 2 < 2 ^ 64
    → MovedOn r n (advance_checkpoint r r.checkpoint n)
unfolding advance_checkpoint ackno
advance_in_order r n set small near = ground arith

advance-reassembler :
    (r : TcpReceiver) (i n : ℕ) → (advance_checkpoint r i n).reassembler ≡ r.reassembler
unfolding advance_checkpoint
advance-reassembler r i n = ground arith

stream_index_lem :
    (h : TcpHeader) (i : ℕ) → h.syn ≡ false → 0 < i → i < 2 ^ 64 → stream_index h i ≡ i - 1
unfolding stream_index
stream_index_lem h i no_syn positive small = ground (arith, no_syn)

segment_received_set :
    (r : TcpReceiver) (seg : TcpSegment)
    → r.is_set ≡ true
    → seg.header.syn ≡ false
    → segment_received r seg ≡ take_segment r seg
unfolding segment_received note_syn
segment_received_set r seg set no_syn =
    ap
      (λ b.
        let r' =
          if b then record r { isn = seg.header.seqno; is_set = true; checkpoint = 0 } else r in
        if r'.is_set then take_segment r' seg else ok r')
      no_syn
    ∙ ap (λ b. if b then take_segment r seg else ok r) set

take_at :
    (r : TcpReceiver) (seg : TcpSegment) (i : ℕ) (pushed : StreamReassembler)
    → unwrap seg.header.seqno r.isn r.checkpoint ≡ i
    → Reassembler.push_substring r.reassembler seg.payload
        (stream_index seg.header i)
        seg.header.fin
      ≡ ok pushed
    → take_segment r seg
      ≡ ok (
          advance_checkpoint
            (record r { reassembler = pushed; ended = r.ended || seg.header.fin })
            i
            (length_in_sequence_space seg))
unfolding take_segment
take_at r seg i pushed index push =
    ap
      (λ j.
        Reassembler.push_substring r.reassembler seg.payload (stream_index seg.header j)
          seg.header.fin
        >>= λ p. ok (
            advance_checkpoint (record r { reassembler = p; ended = r.ended || seg.header.fin }) j
              (length_in_sequence_space seg)))
      index
    ∙ ap
        (λ m. m >>= λ p. ok (
          advance_checkpoint (record r { reassembler = p; ended = r.ended || seg.header.fin }) i
            (length_in_sequence_space seg)))
        push

-- After an in-order segment (without SYN, its number that of the acknowledgment, behind the SYN)
-- that the reassembler takes, the acknowledgment is the number of the first byte that is still
-- missing, or of the end of the segment if that is farther on; it is one more, past the FIN, exactly
-- if the assembled bytes reach beyond the segment, the FIN has come and nothing else is stored. The
-- absolute numbers must stay below 2 ^ 64.
pub in_order_acknowledged :
    (r : TcpReceiver) (seg : TcpSegment) (pushed : StreamReassembler)
    → r.is_set ≡ true
    → seg.header.syn ≡ false
    → r.isn < 2 ^ 32
    → seg.header.seqno ≡ wrap r.checkpoint r.isn
    → 0 < r.checkpoint
    → r.checkpoint + length_in_sequence_space seg < 2 ^ 64
    → Reassembler.push_substring r.reassembler seg.payload (r.checkpoint - 1) seg.header.fin
      ≡ ok pushed
    → Reassembler.left pushed + 2 < 2 ^ 64
    → Returns
        (λ r'. MovedOn r (length_in_sequence_space seg) r' × (r'.reassembler ≡ pushed))
        (segment_received r seg)
in_order_acknowledged r seg pushed set no_syn word here positive small push near =
    let n = length_in_sequence_space seg in
    let index : unwrap seg.header.seqno r.isn r.checkpoint ≡ r.checkpoint =
      ap (λ m. unwrap m r.isn r.checkpoint) here
      ∙ unwrap-wrap r.checkpoint r.isn r.checkpoint (omega arith) word (omega arith) (omega arith)
          (omega arith) (ground arith) in
    let r' = record r { reassembler = pushed; ended = r.ended || seg.header.fin } in
    let taken : segment_received r seg ≡ ok (advance_checkpoint r' r.checkpoint n) =
      segment_received_set r seg set no_syn
      ∙ take_at r seg r.checkpoint pushed index (
          ap (λ i. Reassembler.push_substring r.reassembler seg.payload i seg.header.fin)
            (stream_index_lem seg.header r.checkpoint no_syn positive (omega arith))
          ∙ push) in
    subst (Returns (λ r''. MovedOn r n r'' × (r''.reassembler ≡ pushed))) (sym taken)
      (advance_in_order r' n set small near, advance-reassembler r' r.checkpoint n)
