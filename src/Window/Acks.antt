-- ===== src/Window/Acks.antt =====
-- The loop and the two erasures of `ack_received` against `unacked`.
use cpp_tcp.Common.{
  ℕ, suc, ◌+◌, ◌^◌, ◌≤◌, ◌<◌, ◌≡◌, inl, refl, List, [], ◌∷◌, arith, ok, err, Error, drop, dec_lt,
}
use cpp_tcp.Wrapping.{wrap}
use cpp_tcp.Wrapping.Laws.{unwrap-wrap}
use cpp_tcp.Window.{TcpSendingWindow, SegmentForSender, seqno_of, entries_before, erase_acked}
use cpp_tcp.Window.Covers.{len, Covers, Covers-le, unacked, unacked_none}

-- Below 2 ^ 32 bytes the absolute number of an entry is found again from its header.
pub seqno_of_lem :
    (w : TcpSendingWindow) (s : SegmentForSender) (a : ℕ)
    → w.isn < 2 ^ 32
    → w.next_seqno < 2 ^ 32
    → a ≤ w.next_seqno
    → w.next_seqno < a + 2 ^ 31
    → s.segment.header.seqno ≡ wrap a w.isn
    → seqno_of w s.segment ≡ a
unfolding seqno_of
seqno_of_lem w s a hi small lo near e = rw e (
    unwrap-wrap a w.isn w.next_seqno (omega arith) hi (omega arith) (omega arith) near
      (inl (omega arith)))

module _ (w : TcpSendingWindow) (isn_word : w.isn < 2 ^ 32) (small : w.next_seqno < 2 ^ 32) where
  -- No entry that begins at `k` or later counts as acknowledged.
  entries_before_none :
      (ss : List SegmentForSender) (a k : ℕ)
      → w.next_seqno < a + 2 ^ 31
      → Covers w.isn a ss w.next_seqno
      → k ≤ a
      → entries_before w k ss ≡ err Error.undefined
  unfolding entries_before
  entries_before_none [] a k near c h = refl
  entries_before_none (s ∷ ss) a k near c h = ground (
    arith,
    entries_before_none ss (a + len s) k (omega arith) c.2,
    seqno_of_lem w s a isn_word small,
    Covers-le w.isn (a + len s) ss w.next_seqno c.2,
  )

  -- Together the loop and the erasures leave the entries that end behind `k`.
  pub erase_all_acked :
      (ss : List SegmentForSender) (a k : ℕ)
      → w.next_seqno < a + 2 ^ 31
      → Covers w.isn a ss w.next_seqno
      → a < k
      → k ≤ w.next_seqno
      → (i : ℕ) × (entries_before w k ss ≡ ok i)
        × (erase_acked w k (drop i ss) ≡ ok (unacked a k ss))
  unfolding entries_before erase_acked unacked
  erase_all_acked [] a k near c lo hi = absurd (omega arith)
  erase_all_acked (s ∷ ss) a k near c lo hi = elim (dec_lt (a + len s) k) [
    | yes more ↦
        let (i, found, erased) = erase_all_acked ss (a + len s) k (omega arith) c.2 more hi in
        (suc i, rw found refl, ground (arith, erased))
    | no last ↦
        let starts = seqno_of_lem w s a isn_word small (omega arith) near c.0 in
        (
          0,
          ground (arith, starts, entries_before_none ss (a + len s) k (omega arith) c.2),
          ground (
            arith,
            starts,
            unacked_none w.isn ss (a + len s) k w.next_seqno c.2,
            Covers-le w.isn (a + len s) ss w.next_seqno c.2,
          ),
        )
  ]
