-- ===== src/Network/Hearing.antt =====
-- Acknowledgments at the sender.
use cpp_tcp.Common.{
  ℕ, ◌+◌, ◌^◌, ◌≤◌, ◌<◌, ◌≡◌, ◌⊎◌, inl, inr, refl, sym, ap, arith, List, [], ◌∷◌, map, All, subst,
  to_u32, Returns, Returns-both, dec_lt, leb, ℕ_discrete, Bool-cases,
}
use cpp_tcp.Wrapping.{WrappingInt32, unwrap}
use cpp_tcp.Wrapping.Laws.{unwrap-wrap}
use cpp_tcp.Segment.{TcpSegment}
use cpp_tcp.Window
use cpp_tcp.Window.{SegmentForSender}
use cpp_tcp.Window.Shape.{acks}
use cpp_tcp.Window.Covers.{unacked, len}
use cpp_tcp.Sender.{TcpSender, ack_received, fill_window}
use cpp_tcp.Sender.Shape.{IsValid}
use cpp_tcp.Sender.Fill.{fill_window-Filled}
use cpp_tcp.Sender.Acks.{
  advanced, ack_received-eq_new, ack_received-eq_again, ack_received-eq_ignored,
}
use cpp_tcp.Network.Genuine.{Genuine}
use cpp_tcp.Network.Sending.{segments, Carrying, fill_window-Carrying}

-- A valid sender of genuine segments.
pub record Sends (src : ℕ → ℕ) (isn : WrappingInt32) (total : ℕ) (s : TcpSender) : Type 0 where
  pub valid : IsValid s
  pub carrying : Carrying src isn total s

pub fill_window-Sends :
    {src : ℕ → ℕ} {isn : WrappingInt32} {total : ℕ} (s : TcpSender)
    → Sends src isn total s
    → Returns (Sends src isn total) (fill_window s)
fill_window-Sends {src} {isn} {total} s h =
    Returns-both _ (Carrying src isn total) (Sends src isn total) (fill_window s)
      (λ s' f c. record { valid = f.valid; carrying = c }) (fill_window-Filled h.valid)
      (fill_window-Carrying s h.valid h.carrying)

-- What is left unacknowledged was in flight before.
All-unacked :
    (P : TcpSegment → Type 0) (a k : ℕ) (es : List SegmentForSender)
    → All P (segments es)
    → All P (segments (unacked a k es))
unfolding unacked
All-unacked P a k [] h = tt
All-unacked P a k (e ∷ es) h = elim (Bool-cases (leb (a + len e) k)) [
  | inl gone ↦ rw gone (All-unacked P (a + len e) k es h.1)
  | inr kept ↦ rw kept h
]

pub segments-reset :
    (rto : ℕ) (es : List SegmentForSender)
    → segments (map (λ (e : SegmentForSender). record e { remaining_rto = to_u32 rto }) es)
      ≡ segments es
segments-reset rto [] = refl
segments-reset rto (e ∷ es) = ap (λ ys. e.segment ∷ ys) (segments-reset rto es)

advanced-Carrying :
    {src : ℕ → ℕ} {isn : WrappingInt32} {total : ℕ} (s : TcpSender) (v : IsValid s) (k size : ℕ)
    → Carrying src isn total s
    → Carrying src isn total (advanced s v.window k size)
unfolding Window.reset_timer
advanced-Carrying {src} {isn} {total} s v k size c = record {
  same_isn = c.same_isn;
  held = c.held;
  come_in = c.come_in;
  queue = c.queue;
  flight =
      subst (All (Genuine src isn)) (sym (segments-reset s.initial_retransmission_timeout _))
        (All-unacked (Genuine src isn) v.window.front k s.window.buffer c.flight);
}

-- The numbers of a valid sender stay in the lower half of the first block.
pub next_seqno-bound : {s : TcpSender} → IsValid s → s.window.next_seqno < 2 ^ 31
next_seqno-bound {s} v = let bounded = v.bounded in omega (arith, bounded, v.in_step)

-- An acknowledgment of any number behind the SYN leaves a sender of genuine segments.
pub ack_received-Sends :
    {src : ℕ → ℕ} {isn : WrappingInt32} {total : ℕ} (s : TcpSender) (k size : ℕ)
    → Sends src isn total s
    → 1 ≤ k
    → k < 2 ^ 31
    → size < 2 ^ 16
    → Returns (Sends src isn total) (ack_received s (acks s.window k) size)
ack_received-Sends {src} {isn} {total} s k size h low high word =
    let v = h.valid in
    let next = next_seqno-bound v in
    let number : unwrap (acks s.window k) s.window.isn s.window.next_seqno ≡ k =
      unwrap-wrap k s.window.isn s.window.next_seqno (omega arith) v.window.isn_word (omega arith)
        (omega arith) (omega arith) (inl (omega arith)) in
    elim (dec_lt s.window.next_seqno k) [
      | yes beyond ↦ ignored (inl (rw number beyond))
      | no within ↦ elim (dec_lt s.window.first_seqno k) [
        | yes new ↦
            let (same, kept) = ack_received-eq_new v k size new (omega arith) word in
            rw same (
              fill_window-Sends _
                record { valid = kept; carrying = advanced-Carrying s v k size h.carrying })
        | no old ↦ elim (ℕ_discrete s.window.first_seqno k) [
          | yes again ↦
              subst (λ n. Returns (Sends src isn total) (ack_received s (acks s.window n) size))
                again (answer_again (omega (arith, again)))
          | no stale ↦ ignored (inr (rw number (omega arith)))
        ]
      ]
    ]
  where
    answer_again :
        1 ≤ s.window.first_seqno
        → Returns (Sends src isn total) (ack_received s (acks s.window s.window.first_seqno) size)
    answer_again opened =
        let (same, kept) = ack_received-eq_again h.valid size word (inl opened) in
        let c = h.carrying in
        rw same (
          fill_window-Sends _ record {
            valid = kept;
            carrying = record {
              same_isn = c.same_isn;
              held = c.held;
              come_in = c.come_in;
              queue = c.queue;
              flight = c.flight;
            };
          })

    ignored :
        (s.window.next_seqno < unwrap (acks s.window k) s.window.isn s.window.next_seqno)
          ⊎ (unwrap (acks s.window k) s.window.isn s.window.next_seqno < s.window.first_seqno)
        → Returns (Sends src isn total) (ack_received s (acks s.window k) size)
    ignored out =
        let (same, kept) = ack_received-eq_ignored h.valid (acks s.window k) size out in
        let c = h.carrying in
        rw same (
          fill_window-Sends _ record {
            valid = kept;
            carrying = record {
              same_isn = c.same_isn;
              held = c.held;
              come_in = c.come_in;
              queue = c.queue;
              flight = c.flight;
            };
          })
