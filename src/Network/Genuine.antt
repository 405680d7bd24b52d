-- ===== src/Network/Genuine.antt =====
-- Segments that carry a part of the sender's stream.
use cpp_tcp.Common.{
  ℕ, zero, suc, ◌+◌, ◌-◌, ◌^◌, ◌≤◌, ◌<◌, ◌≡◌, ◌⊎◌, ap, ◌∙◌, true, false, arith, [], segment,
}
use cpp_tcp.Wrapping.{WrappingInt32, wrap}
use cpp_tcp.Segment.{TcpSegment, length_in_sequence_space}
use cpp_tcp.Reassembler.Store.{Agrees}

-- The segment takes the absolute numbers from `x` on: the SYN alone takes 0, and byte `i` of the
-- stream `src` takes `i + 1`.
pub record Real (src : ℕ → ℕ) (isn : WrappingInt32) (seg : TcpSegment) (x : ℕ) : Type 0 where
  pub seqno : seg.header.seqno ≡ wrap x isn
  pub small : x + length_in_sequence_space seg < 2 ^ 31
  pub bytes : Agrees src seg.payload (x - 1)
  pub at_syn : seg.header.syn ≡ true → (x ≡ 0) × (seg.payload ≡ [])
  pub behind_syn : seg.header.syn ≡ false → 1 ≤ x

-- A segment that takes no number may carry any.
abbrev pub Genuine : (ℕ → ℕ) → WrappingInt32 → TcpSegment → Type 0
Genuine src isn seg = (length_in_sequence_space seg ≡ 0) ⊎ ((x : ℕ) × Real src isn seg x)

-- A part of the stream agrees with it.
pub segment-Agrees : (src : ℕ → ℕ) (i n : ℕ) → Agrees src (segment src i n) i
segment-Agrees src i zero k lt = absurd (omega (arith, lt))
segment-Agrees src i (suc n) zero lt = ap src (omega arith)
segment-Agrees src i (suc n) (suc k) lt =
    segment-Agrees src (suc i) n k (omega (arith, lt)) ∙ ap src (omega arith)
