-- ===== src/Socket/Ending.antt =====
-- When the thread of a socket ends.
use cpp_tcp.Common.{
  ◌≡◌, ◌≢◌, ◌⊎◌, inl, inr, refl, sym, Bool, true, false, ◌&&◌, ◌||◌, not, List, [], ◌∷◌, some, none,
  ok, All, IfReturns, Sublist, All-Sublist, ltb, arith,
}
use cpp_tcp.EventLoop.{Rule, Request, Polled, interrupted, is_exit, wait_next_event}
use cpp_tcp.EventLoop.Quiet.{
  IsLive, some_interest, unwanted, quiet_exits, wait_next_event-ExitsUnless,
}
use cpp_tcp.Connection.{remaining_outbound_capacity}
use cpp_tcp.Socket.{SpongeSocket, wants_pipe, wants_segments}
use cpp_tcp.Socket.Running.{
  AdaptT, Running, Moment, state_of, from_datagrams, from_pipe, to_pipe, to_datagrams, rules,
  run_loop, tcp_main, aborting,
}

-- The connection is over, all inbound bytes have been passed on and their end noted, and no segment
-- waits to be sent.
pub record IsDone (s : SpongeSocket) : Type 0 where
  pub over : s.tcp.active ≡ false
  pub passed_on : wants_pipe s ≡ false
  pub sent : wants_segments s ≡ false

-- What keeps the thread running.
abbrev pub has_work : SpongeSocket → Bool
has_work s = s.tcp.active || wants_pipe s || wants_segments s

-- Rule 2 is interested only when rule 1 is.
work_lem :
    (active open_yet room piped queued : Bool)
    → ((active || (active && open_yet && room || (piped || (queued || false))))
        ≡ active || piped || queued)
      × ((active || (piped || (queued || false))) ≡ active || piped || queued)
work_lem active open_yet room piped queued = ground arith

module _ (Line Sent : Type 0) (adapt : AdaptT Line Sent) where
  abbrev pub SocketRule : Type 0
  SocketRule = Rule (Running Line) (state_of Line Sent adapt)

  -- The rules when the pipe has ended and rule 2 has been cancelled.
  abbrev pub rules_without_pipe : List SocketRule
  rules_without_pipe =
      from_datagrams Line Sent adapt ∷ to_pipe Line Sent adapt ∷ to_datagrams Line Sent adapt ∷ []

  done_unwanted :
      (w : Running Line)
      → IsDone w.socket
      → All (λ (r : SocketRule). r.interest w ≡ false) (rules Line Sent adapt)
  unfolding from_datagrams from_pipe to_pipe to_datagrams
  done_unwanted w d = (d.over, (rw d.over refl, (d.passed_on, (d.sent, tt))))

  leaves_loop :
      (w : Running Line) (rs : List SocketRule) (now : Moment) (later_on : List Moment)
      → Sublist rs (rules Line Sent adapt)
      → All (IsLive (Running Line) (state_of Line Sent adapt) w) rs
      → IsDone w.socket
      → run_loop Line Sent adapt (λ _. true) (now ∷ later_on) w rs
        ≡ ok (true, aborting Line Sent adapt now w, rs)
  unfolding run_loop
  leaves_loop w rs now later_on left live d =
      rw
        (quiet_exits (Running Line) (state_of Line Sent adapt) w rs now.poll live (
          unwanted (Running Line) (state_of Line Sent adapt) w rs
            (All-Sublist (λ (r : SocketRule). r.interest w ≡ false) left (done_unwanted w d))))
        refl

  -- A thread in a round with live rules, whose connection is over, all inbound bytes passed on and no
  -- segment waiting, leaves the loop in that round and drops the connection, without a call of `poll`.
  pub tcp_main_ends :
      (w : Running Line) (rs : List SocketRule) (now : Moment) (later_on : List Moment)
      → Sublist rs (rules Line Sent adapt)
      → All (IsLive (Running Line) (state_of Line Sent adapt) w) rs
      → IsDone w.socket
      → tcp_main Line Sent adapt (now ∷ later_on) (some (w, rs)) ≡ ok none
  unfolding tcp_main
  tcp_main_ends w rs now later_on left live d = rw (leaves_loop w rs now later_on left live d) refl

  wanted_lem :
      (w : Running Line) (rs : List SocketRule)
      → (rs ≡ rules Line Sent adapt) ⊎ (rs ≡ rules_without_pipe)
      → some_interest (Running Line) (state_of Line Sent adapt) w rs ≡ has_work w.socket
  unfolding from_datagrams from_pipe to_pipe to_datagrams
  wanted_lem w rs (inl all) =
      rw all
        (work_lem w.socket.tcp.active (not w.socket.outbound_shutdown)
          (ltb 0 (remaining_outbound_capacity w.socket.tcp)) (wants_pipe w.socket)
          (wants_segments w.socket)).0
  wanted_lem w rs (inr rest) =
      rw rest
        (work_lem w.socket.tcp.active true true (wants_pipe w.socket) (wants_segments w.socket)).1

  -- With all four rules, or without rule 2 when the pipe has ended, live descriptors and no signal, a
  -- round that returns comes back with `Exit`, the end of the thread, exactly if the connection is over,
  -- nothing is left to pass on to the application, and no segment waits to be sent.
  pub exits_without_work :
      (w : Running Line) (rs : List SocketRule) (poll : List Request → Polled)
      → (rs ≡ rules Line Sent adapt) ⊎ (rs ≡ rules_without_pipe)
      → All (IsLive (Running Line) (state_of Line Sent adapt) w) rs
      → ((asks : List Request) → poll asks ≢ interrupted)
      → IfReturns
          (λ out. is_exit out.0 ≡ not (has_work w.socket))
          (wait_next_event (Running Line) (state_of Line Sent adapt) w rs poll)
  exits_without_work w rs poll which live no_signal = rw (sym (wanted_lem w rs which)) (
      wait_next_event-ExitsUnless (Running Line) (state_of Line Sent adapt) w rs poll live
        no_signal)
