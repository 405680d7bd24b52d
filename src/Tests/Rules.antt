-- ===== src/Tests/Rules.antt =====
-- The event loop with rules on one descriptor.
use cpp_tcp.Common.{ℕ, ◌+◌, ◌≡◌, refl, true, false, [], ◌∷◌, List, ok, map}
use cpp_tcp.EventLoop
use cpp_tcp.EventLoop.{
  Direction, inward, outward, FdState, Request, Revents, Polled, broken, events_of, LoopResult,
  success, Rule, Prepared, wait_next_event, prepare,
}
use cpp_tcp.EventLoop.Rounds.{poll_error_lost}

-- The world is the state of the one descriptor.
abbrev the_state : FdState → ℕ → FdState
the_state w fd = w

abbrev fresh : FdState
fresh = record { eof = false; closed = false; read_count = 0; write_count = 0 }

-- It reads once whenever it can.
abbrev reader : Rule FdState the_state
reader = record {
  fd = 3;
  direction = inward;
  callback = λ w. ok (record w { read_count = w.read_count + 1 });
  interest = λ w. true;
  cancel = λ w. ok w;
}

abbrev readable : List Request → Polled
readable [] = events_of []
readable (ask ∷ asks) = events_of (
    map (λ (a : Request). record { readable = true; writable = false; failed = false; hup = false })
      (ask ∷ asks))

reads_once :
    wait_next_event FdState the_state fresh (reader ∷ []) readable
    ≡ ok (success, record fresh { read_count = 1 }, reader ∷ [])
unfolding wait_next_event EventLoop.prepare EventLoop.dispatch
reads_once = refl

abbrev failing : List Request → Polled
failing asks = broken

abbrev prepared : Prepared FdState the_state
prepared = record {
  world = fresh;
  rules = (reader, EventLoop.request FdState the_state fresh reader) ∷ [];
  something_to_poll = true;
}

-- The reader's descriptor can be read, and that of a writer, which stands first, has hung up.
abbrev writer : Rule FdState the_state
writer = record reader { direction = outward }

abbrev one_gone : List Request → Polled
one_gone asks = events_of (
    record { readable = false; writable = false; failed = false; hup = true }
    ∷ record { readable = true; writable = false; failed = false; hup = false }
    ∷ [])

abbrev both : Prepared FdState the_state
both = record {
  world = fresh;
  rules =
      (writer, EventLoop.request FdState the_state fresh writer)
      ∷ (reader, EventLoop.request FdState the_state fresh reader)
      ∷ [];
  something_to_poll = true;
}

poll_error_lost_example :
    wait_next_event FdState the_state fresh (reader ∷ []) failing ≡ ok (success, fresh, reader ∷ [])
unfolding EventLoop.prepare
poll_error_lost_example =
    poll_error_lost FdState the_state fresh (reader ∷ []) prepared failing refl refl refl
