-- ===== src/Sender/Fill/Rule.antt =====
-- What every round of `fill_window` keeps, `fill_window` keeps.
use cpp_tcp.Common.{
  ℕ, zero, suc, ◌≤◌, ◌<◌, ◌≡◌, true, arith, Returns, Bool-cases, inl, inr, ℕ_discrete,
}
use cpp_tcp.Sender.{TcpSender, may_send, fill_loop, fill_window, fill_fuel}
use cpp_tcp.Sender.Shape.{IsValid, after_round, round_lem}
use cpp_tcp.Sender.Round.{rounds, rounds_fall, round_pos}
use cpp_tcp.Sender.Syn.{opened, open_connection_closed, open_connection_open}
use cpp_tcp.Sender.Fill.{fill_loop_next, fill_loop_stop, enough_rounds}

module _ (Q : TcpSender → Type 0)
    (keeps : (s : TcpSender)
      → IsValid s
      → 1 ≤ s.window.next_seqno
      → may_send s ≡ true
      → Q s
      → Q (after_round s)) where
  fill_loop_rule :
      (fuel : ℕ) (s : TcpSender)
      → IsValid s
      → 1 ≤ s.window.next_seqno
      → rounds s < fuel
      → Q s
      → Returns Q (fill_loop fuel s)
  fill_loop_rule zero s v begun h q = absurd (omega arith)
  fill_loop_rule (suc fuel) s v begun h q = elim (Bool-cases (may_send s)) [
    | inl e ↦ rw (fill_loop_next fuel v begun e) (
        fill_loop_rule fuel (after_round s) (round_lem v begun e (round_pos v e)).1 (omega arith)
          (omega (arith, rounds_fall v begun e)) (keeps s v begun e q))
    | inr e ↦ rw (fill_loop_stop fuel s e) q
  ]

  pub fill_window_rule :
      (s : TcpSender)
      → IsValid s
      → Q s
      → (s.window.next_seqno ≡ 0 → Q (opened s))
      → Returns Q (fill_window s)
  unfolding fill_window
  fill_window_rule s v q opens = elim (ℕ_discrete s.window.next_seqno 0) [
    | yes e ↦
        let (opening, kept) = open_connection_closed v e in
        rw opening (
          fill_loop_rule (fill_fuel (opened s)) (opened s) kept (omega arith)
            (omega (arith, kept.in_step)) (opens e))
    | no ne ↦
        rw (open_connection_open v ne)
          (fill_loop_rule (fill_fuel s) s v (omega arith) (enough_rounds s ne v.in_step) q)
  ]
