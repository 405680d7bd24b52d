-- ===== src/Socket/Emptying.antt =====
-- How the thread of a socket sends what is left and ends.
use cpp_tcp.Common.{
  ◌≡◌, refl, Bool, true, false, List, [], ◌∷◌, some, none, ok, All, Sublist, keeps, leaves, nothing,
  if-both, Result, Option, ℕ, ap, if◌then◌else◌, ◌>>=◌,
}
use cpp_tcp.EventLoop.{outward, success, wait_next_event}
use cpp_tcp.EventLoop.Quiet.{IsLive, serves_last, writable_only}
use cpp_tcp.Connection.{remaining_outbound_capacity}
use cpp_tcp.Connection
use cpp_tcp.Socket
use cpp_tcp.Socket.{SpongeSocket, wants_pipe, wants_segments, segments_out, segments_write}
use cpp_tcp.Socket.Running.{
  AdaptT, Running, Moment, state_of, from_datagrams, to_pipe, to_datagrams, rules, run_loop,
  tcp_main, aborting,
}
use cpp_tcp.Socket.Ending.{SocketRule, rules_without_pipe, tcp_main_ends}

module _ (Line Sent : Type 0) (adapt : AdaptT Line Sent) where
  -- The adapter's descriptor is open, also when segments have been sent, and the pipe's is.
  pub record IsOpen (w : Running Line) : Type 0 where
    pub line : ((adapt.fd w.line).eof ≡ false) × ((adapt.fd w.line).closed ≡ false)
    pub sent :
        (sent : List Sent)
        → ((adapt.fd (adapt.send sent w.line)).eof ≡ false)
          × ((adapt.fd (adapt.send sent w.line)).closed ≡ false)
    pub pipe : w.pipe.closed ≡ false

  -- What is left when the segments have been sent.
  abbrev pub after_sending : Running Line → List Sent → Running Line
  after_sending w sent = record w {
    socket = record w.socket { tcp = record w.socket.tcp { segments_out = [] } };
    line = adapt.send sent w.line;
  }

  sends :
      (w : Running Line) (sent : List Sent)
      → segments_write (adapt.write w.socket.adapter) w.socket.tcp.segments_out ≡ ok sent
      → (to_datagrams Line Sent adapt).callback w ≡ ok (after_sending w sent)
  unfolding to_datagrams segments_out
  sends w sent goes = rw goes refl

  live :
      (w : Running Line)
      → ((adapt.fd w.line).eof ≡ false) × ((adapt.fd w.line).closed ≡ false)
      → w.pipe.closed ≡ false
      → All
          (IsLive (Running Line) (state_of Line Sent adapt) w)
          (rules_without_pipe Line Sent adapt)
  unfolding from_datagrams to_pipe to_datagrams
  live w (eof, closed) pipe = (rw (eof, closed) refl, (rw pipe refl, (rw closed refl, tt)))

  waits :
      (w : Running Line)
      → wants_segments w.socket ≡ true
      → (to_datagrams Line Sent adapt).interest w ≡ true
  unfolding to_datagrams
  waits w queued = queued

  outwards : (to_datagrams Line Sent adapt).direction ≡ outward
  unfolding to_datagrams
  outwards = refl

  settles :
      (w : Running Line) (sent : List Sent)
      → (to_datagrams Line Sent adapt).interest (after_sending w sent) ≡ false
  unfolding to_datagrams
  settles w sent = refl

  sends_rest :
      (w : Running Line) (sent : List Sent)
      → IsOpen w
      → w.socket.tcp.active ≡ false
      → wants_pipe w.socket ≡ false
      → wants_segments w.socket ≡ true
      → segments_write (adapt.write w.socket.adapter) w.socket.tcp.segments_out ≡ ok sent
      → wait_next_event
          (Running Line)
          (state_of Line Sent adapt)
          w
          (rules_without_pipe Line Sent adapt)
          writable_only
        ≡ ok (success, after_sending w sent, rules_without_pipe Line Sent adapt)
  unfolding from_datagrams to_pipe
  sends_rest w sent o over passed queued goes =
      serves_last (Running Line) (state_of Line Sent adapt) w (after_sending w sent)
        (from_datagrams Line Sent adapt ∷ to_pipe Line Sent adapt ∷ [])
        (to_datagrams Line Sent adapt) (live w o.line o.pipe) (over, (passed, tt)) (waits w queued)
        outwards (sends w sent goes) (settles w sent)

  over_ticks :
      (s : SpongeSocket) (elapsed : ℕ) → s.tcp.active ≡ false → Socket.tick s elapsed ≡ ok s
  unfolding Socket.tick
  over_ticks s elapsed over =
      ap
        (λ b.
          if b
          then (Connection.tick s.tcp elapsed >>= λ tcp. ok (record s { tcp = tcp }))
          else ok s)
        over

  -- The loop goes on with the rules, if the owner has not told it to stop.
  next_round :
      (now : Moment) (later_on : List Moment) (w w' : Running Line)
      (rs : List (SocketRule Line Sent adapt))
      → wait_next_event (Running Line) (state_of Line Sent adapt) w rs now.poll
        ≡ ok (success, w', rs)
      → w'.socket.tcp.active ≡ false
      → let w'' = aborting Line Sent adapt now w' in
        run_loop Line Sent adapt (λ _. true) (now ∷ later_on) w rs ≡ (
          if w''.socket.abort
          then ok (true, w'', rs)
          else run_loop Line Sent adapt (λ _. true) later_on w'' rs)
  unfolding run_loop
  next_round now later_on w w' rs round over =
      let w'' = aborting Line Sent adapt now w' in
      rw round (
        ap
          (λ (m : Result SpongeSocket).
            if w''.socket.abort
            then ok (true, w'', rs)
            else (m >>= λ s.
                run_loop Line Sent adapt (λ _. true) later_on (record w'' { socket = s }) rs))
          (over_ticks w''.socket now.elapsed over))

  abbrev Looped : Type 0
  Looped = Bool × Running Line × List (SocketRule Line Sent adapt)

  abbrev dropped : Looped → Result (Option (Running Line × List (SocketRule Line Sent adapt)))
  dropped out = ok (if out.0 then none else some (out.1, out.2))

  -- A connection that is over does not keep its thread. Let all inbound bytes be passed on, rule 2 be
  -- cancelled with the pipe, the descriptors be open, and segments wait: a round in which only writing
  -- is possible sends them, if the adapter writes each without an error, and the thread leaves the loop
  -- in that round or the next, whatever `poll` would find then, and drops the connection.
  pub tcp_main_sends_rest :
      (w : Running Line) (sent : List Sent) (aborts : Bool) (elapsed : ℕ) (next : Moment)
      (later_on : List Moment)
      → IsOpen w
      → w.socket.tcp.active ≡ false
      → wants_pipe w.socket ≡ false
      → wants_segments w.socket ≡ true
      → segments_write (adapt.write w.socket.adapter) w.socket.tcp.segments_out ≡ ok sent
      → (wait_next_event
            (Running Line)
            (state_of Line Sent adapt)
            w
            (rules_without_pipe Line Sent adapt)
            writable_only
          ≡ ok (success, after_sending w sent, rules_without_pipe Line Sent adapt))
        × (tcp_main Line Sent adapt
              (record { poll = writable_only; aborts = aborts; elapsed = elapsed }
                ∷ next
                ∷ later_on)
              (some (w, rules_without_pipe Line Sent adapt))
            ≡ ok none)
  unfolding tcp_main
  tcp_main_sends_rest w sent aborts elapsed next later_on o over passed queued goes =
      let now : Moment = record { poll = writable_only; aborts = aborts; elapsed = elapsed } in
      let rs = rules_without_pipe Line Sent adapt in
      let w' = aborting Line Sent adapt now (after_sending w sent) in
      let Dropped = λ (m : Result Looped). (m >>= dropped) ≡ ok none in
      (
        sends_rest w sent o over passed queued goes,
        rw
            (next_round now (next ∷ later_on) w (after_sending w sent) rs
              (sends_rest w sent o over passed queued goes) over)
            (if-both Dropped w'.socket.abort (ok (true, w', rs))
              (run_loop Line Sent adapt (λ _. true) (next ∷ later_on) w' rs) (λ _. refl)
              λ _.
                tcp_main_ends Line Sent adapt w' rs next later_on without_pipe
                  (live w' (o.sent sent) o.pipe)
                  (record { over = over; passed_on = passed; sent = refl })),
      )
    where
      without_pipe : Sublist (rules_without_pipe Line Sent adapt) (rules Line Sent adapt)
      without_pipe = keeps _ (leaves _ (keeps _ (keeps _ nothing)))
