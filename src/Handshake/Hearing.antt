-- ===== src/Handshake/Hearing.antt =====
-- What the receivers make of the segments of the handshake.
use cpp_tcp.Common.{
  ℕ, zero, suc, ◌^◌, ◌<◌, ◌≡◌, refl, ap, true, false, arith, [], ◌∷◌, ◌||◌, ok, replicate, resize,
  add64,
}
use cpp_tcp.Wrapping.{WrappingInt32, unwrap}
use cpp_tcp.Wrapping.Laws.{unwrap_bounds}
use cpp_tcp.ByteStream
use cpp_tcp.Segment.{TcpSegment}
use cpp_tcp.Reassembler
use cpp_tcp.Reassembler.{
  StreamReassembler, push_substring, update_size, update_output, store, assemble, flush,
}
use cpp_tcp.Receiver
use cpp_tcp.Receiver.{TcpReceiver, segment_received, take_segment, advance_checkpoint}

resize-replicate : (n x : ℕ) → resize n x (replicate n x) ≡ replicate n x
resize-replicate zero x = refl
resize-replicate (suc n) x = ap (λ xs. x ∷ xs) (resize-replicate n x)

update_size-new :
    (capacity : ℕ)
    → capacity < 2 ^ 64
    → update_size (Reassembler.create capacity) ≡ Reassembler.create capacity
unfolding update_size Reassembler.create ByteStream.create
update_size-new capacity small =
    let whole : add64 0 capacity ≡ capacity = omega (arith, small) in
    rw (whole, resize-replicate capacity 0) refl

output_nothing :
    (n : ℕ)
    → update_output (record (Reassembler.create (suc n)) {
      eofed = (Reassembler.create (suc n)).eofed || false;
    })
      ≡ ok (Reassembler.create (suc n))
unfolding update_output assemble flush Reassembler.create ByteStream.write ByteStream.write_loop
    ByteStream.create
output_nothing n = refl

-- A segment without bytes leaves a new reassembler as it is, whatever its index.
push_nothing :
    (capacity index : ℕ)
    → 0 < capacity
    → capacity < 2 ^ 64
    → push_substring (Reassembler.create capacity) [] index false ≡ ok (Reassembler.create capacity)
unfolding push_substring store
push_nothing zero index some_room small = absurd (omega (arith, some_room))
push_nothing (suc n) index some_room small = rw (update_size-new (suc n) small) (output_nothing n)

-- A receiver that has the peer's SYN with the number `isn`, and nothing else.
abbrev pub synchronized : ℕ → WrappingInt32 → TcpReceiver
synchronized capacity isn = record (Receiver.create capacity) {
  isn = isn;
  is_set = true;
  checkpoint = 1;
}

-- A segment of the handshake: no data and no FIN.
pub record IsBare (seg : TcpSegment) : Type 0 where
  pub no_bytes : seg.payload ≡ []
  pub no_fin : seg.header.fin ≡ false

-- At the checkpoint 0 the SYN, and at 1 whatever number, leave the checkpoint at 1.
advance_syn :
    (capacity : ℕ) (isn : WrappingInt32)
    → advance_checkpoint
        (record (Receiver.create capacity) { isn = isn; is_set = true; checkpoint = 0 })
        0
        1
      ≡ synchronized capacity isn
unfolding advance_checkpoint Receiver.create Reassembler.create
advance_syn capacity isn = refl

advance_again :
    (capacity : ℕ) (isn : WrappingInt32) (index : ℕ)
    → index < 2 ^ 64
    → advance_checkpoint (synchronized capacity isn) index 0 ≡ synchronized capacity isn
unfolding advance_checkpoint Receiver.create Reassembler.create
advance_again capacity isn index small = ground arith

unwrap_self : (isn : WrappingInt32) → isn < 2 ^ 32 → unwrap isn isn 0 ≡ 0
unfolding unwrap
unwrap_self isn word = ground arith

pub hears_syn :
    (capacity : ℕ) (seg : TcpSegment)
    → 0 < capacity
    → capacity < 2 ^ 64
    → seg.header.seqno < 2 ^ 32
    → IsBare seg
    → seg.header.syn ≡ true
    → segment_received (Receiver.create capacity) seg ≡ ok (synchronized capacity seg.header.seqno)
unfolding segment_received take_segment Receiver.note_syn Receiver.create
hears_syn capacity seg some_room small word b syn =
    rw (syn, unwrap_self seg.header.seqno word, b.no_bytes, b.no_fin)
      (rw
        (push_nothing capacity
          (Receiver.stream_index (record seg.header { syn = true; fin = false }) 0) some_room small)
        (ap ok (advance_syn capacity seg.header.seqno)))

pub hears_again :
    (capacity : ℕ) (isn : WrappingInt32) (seg : TcpSegment)
    → 0 < capacity
    → capacity < 2 ^ 64
    → isn < 2 ^ 32
    → seg.header.seqno < 2 ^ 32
    → IsBare seg
    → seg.header.syn ≡ false
    → segment_received (synchronized capacity isn) seg ≡ ok (synchronized capacity isn)
unfolding segment_received take_segment Receiver.note_syn Receiver.create
hears_again capacity isn seg some_room small word w b syn =
    let index = unwrap seg.header.seqno isn 1 in
    rw (syn, b.no_bytes, b.no_fin)
      (rw
        (push_nothing capacity
          (Receiver.stream_index (record seg.header { syn = false; fin = false }) index) some_room
          small)
        (ap ok (
          advance_again capacity isn index
            (unwrap_bounds seg.header.seqno isn 1 w word (omega arith)))))
