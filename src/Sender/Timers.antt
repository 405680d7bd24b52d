-- ===== src/Sender/Timers.antt =====
-- `tick` of the sender: the oldest segment is sent again, and the timeout backs off.
use cpp_tcp.Common.{
  ℕ, ◌*◌, ◌-◌, ◌%◌, ◌^◌, ◌≤◌, ◌<◌, ◌≡◌, inl, inr, refl, ap, ◌∙◌, false, arith, List, [], ◌∷◌, ◌++◌,
  ltb, if◌then◌else◌, add64, to_u32, map, Bool-cases,
}
use cpp_tcp.Segment.{TcpSegment}
use cpp_tcp.Window
use cpp_tcp.Window.{TcpSendingWindow, SegmentForSender}
use cpp_tcp.Window.Timers.{expired, tick-expired}
use mathlib.Core.Path.{subst}
use cpp_tcp.Common.{Returns}
use cpp_tcp.Sender.{TcpSender, tick, retransmit, add_and_send}

-- The timeout after a timer has run out: it doubles, unless the peer's window is closed.
abbrev pub backed_off : TcpSender → ℕ
backed_off s = if s.window_size_is_zero then s.rto else s.rto * 2 % 2 ^ 64

-- What `tick` does, by the segments whose timer has run out.
abbrev pub Ticked : TcpSender → ℕ → TcpSender → List TcpSegment → Type 0
Ticked s ms s' [] = s' ≡ record s { window = (Window.tick s.window ms).0 }
Ticked s ms s' (seg ∷ _) = s' ≡ record s {
  segments_out = s.segments_out ++ seg ∷ [];
  rto = backed_off s;
  window = Window.reset_timer (Window.tick s.window ms).0 (backed_off s);
  consecutive_retransmission_count = add64 s.consecutive_retransmission_count 1;
}

retransmit-Ticked :
    (s : TcpSender) (ms : ℕ) (segs : List TcpSegment)
    → Ticked s ms (retransmit (record s { window = (Window.tick s.window ms).0 }) segs) segs
unfolding retransmit
retransmit-Ticked s ms [] = refl
retransmit-Ticked s ms (seg ∷ _) = refl

-- `tick` on both branches. With no timer run out only the timers run on. Otherwise the first segment
-- whose timer has run out is sent again, the timeout backs off, every timer is set to it, and the
-- count of retransmissions goes up by 1.
pub tick_cases : (s : TcpSender) (ms : ℕ) → Ticked s ms (tick s ms) (expired ms s.window.buffer)
unfolding tick
tick_cases s ms =
    rw (← tick-expired s.window ms) (retransmit-Ticked s ms (Window.tick s.window ms).1)

-- Timers that climb from `lo` to at most `hi`.
abbrev pub Climb : ℕ → List SegmentForSender → ℕ → Type 0
Climb lo [] hi = lo ≤ hi
Climb lo (e ∷ es) hi = (lo ≤ e.remaining_rto) × Climb e.remaining_rto es hi

-- In the sender the timers climb from the oldest segment to the newest, up to the timeout.
abbrev pub Climbing : TcpSender → Type 0
Climbing s = Climb 0 s.window.buffer (to_u32 s.rto)

Climb-lower :
    (lo lo' : ℕ) (es : List SegmentForSender) (hi : ℕ) → lo' ≤ lo → Climb lo es hi → Climb lo' es hi
Climb-lower lo lo' [] hi le c = omega arith
Climb-lower lo lo' (e ∷ es) hi le c = (omega (arith, c.0), c.1)

Climb-bound : (lo : ℕ) (es : List SegmentForSender) (hi : ℕ) → Climb lo es hi → lo ≤ hi
Climb-bound lo [] hi c = c
Climb-bound lo (e ∷ es) hi c = omega (arith, c.0, Climb-bound e.remaining_rto es hi c.1)

Climb-append :
    (lo : ℕ) (es : List SegmentForSender) (hi : ℕ) (seg : TcpSegment)
    → Climb lo es hi
    → Climb lo (es ++ record { segment = seg; remaining_rto = hi } ∷ []) hi
Climb-append lo [] hi seg c = (c, omega arith)
Climb-append lo (e ∷ es) hi seg c = (c.0, Climb-append e.remaining_rto es hi seg c.1)

Climb-reset :
    (hi : ℕ) (lo : ℕ) (es : List SegmentForSender)
    → lo ≤ hi
    → Climb lo (map (λ (e : SegmentForSender). record e { remaining_rto = hi }) es) hi
Climb-reset hi lo [] le = le
Climb-reset hi lo (e ∷ es) le = (le, Climb-reset hi hi es (omega arith))

-- Above `ms` no timer runs out, and all of them run on.
expired_none :
    (ms lo : ℕ) (es : List SegmentForSender) (hi : ℕ)
    → ms < lo
    → Climb lo es hi
    → expired ms es ≡ []
expired_none ms lo [] hi lt c = refl
expired_none ms lo (e ∷ es) hi lt c =
    ground (arith, c.0, expired_none ms e.remaining_rto es hi (omega (arith, c.0)) c.1)

Climb-tick :
    (ms lo : ℕ) (es : List SegmentForSender) (hi : ℕ)
    → Climb lo es hi
    → expired ms es ≡ []
    → Climb (lo - ms) (Window.tick_entries ms es).0 hi
unfolding Window.tick_entries
Climb-tick ms lo [] hi c none_out = omega arith
Climb-tick ms lo (e ∷ es) hi c none_out = elim (Bool-cases (ltb ms e.remaining_rto)) [
  | inl runs ↦
      rw runs (
        omega (arith, c.0),
        Climb-tick ms e.remaining_rto es hi c.1 (ground (arith, runs, none_out)),
      )
  | inr out ↦ absurd (ground (arith, out, none_out))
]

-- A new segment gets the whole timeout, so the timers still climb.
pub add_and_send-Climbing :
    (s : TcpSender) (seg : TcpSegment)
    → Climbing s
    → Window.full s.window ≡ false
    → Returns Climbing (add_and_send s seg)
unfolding add_and_send Window.add_segment
add_and_send-Climbing s seg c free = rw free (Climb-append 0 s.window.buffer (to_u32 s.rto) seg c)

Ticked-Climbing :
    (s : TcpSender) (ms : ℕ) (s' : TcpSender) (segs : List TcpSegment)
    → expired ms s.window.buffer ≡ segs
    → Ticked s ms s' segs
    → Climbing s
    → Climbing s'
unfolding Window.tick Window.reset_timer
Ticked-Climbing s ms s' [] e t c =
    rw t (Climb-lower (0 - ms) 0 _ _ (omega arith) (Climb-tick ms 0 s.window.buffer _ c e))
Ticked-Climbing s ms s' (seg ∷ _) e t c =
    rw t (
      Climb-reset (to_u32 (backed_off s)) 0 (Window.tick_entries ms s.window.buffer).0
        (omega arith))

-- `tick` keeps the timers in order.
pub tick-Climbing : (s : TcpSender) (ms : ℕ) → Climbing s → Climbing (tick s ms)
tick-Climbing s ms c = Ticked-Climbing s ms (tick s ms) _ refl (tick_cases s ms) c

Ticked-sent :
    (s s' : TcpSender) (ms : ℕ) (seg : TcpSegment) (rest segs : List TcpSegment)
    → segs ≡ seg ∷ rest
    → Ticked s ms s' segs
    → s'.segments_out ≡ s.segments_out ++ seg ∷ []
Ticked-sent s s' ms seg rest [] e t = absurd (ground (arith, e))
Ticked-sent s s' ms seg rest (x ∷ xs) e t =
    ap (λ (y : TcpSender). y.segments_out) t
    ∙ ap (λ y. s.segments_out ++ y ∷ []) (ground (arith, e))

Ticked-quiet :
    (s s' : TcpSender) (ms : ℕ) (segs : List TcpSegment)
    → segs ≡ []
    → Ticked s ms s' segs
    → s'.segments_out ≡ s.segments_out
Ticked-quiet s s' ms [] e t = ap (λ (x : TcpSender). x.segments_out) t
Ticked-quiet s s' ms (_ ∷ _) e t = absurd (ground (arith, e))

Climb-head :
    (hi : ℕ) (e : SegmentForSender) (es : List SegmentForSender)
    → Climb 0 (e ∷ es) hi
    → Climb e.remaining_rto (e ∷ es) hi
Climb-head hi e es c = (omega arith, c.1)

-- With the timers in order, `tick` sends the oldest unacknowledged segment again exactly when its
-- timer has run out, and no other segment.
pub tick_oldest :
    (s : TcpSender) (ms : ℕ) (e : SegmentForSender) (es : List SegmentForSender)
    → Climbing s
    → s.window.buffer ≡ e ∷ es
    → (ms < e.remaining_rto → (tick s ms).segments_out ≡ s.segments_out)
      × (e.remaining_rto ≤ ms → (tick s ms).segments_out ≡ s.segments_out ++ e.segment ∷ [])
tick_oldest s ms e es c b =
    let above : Climb e.remaining_rto (e ∷ es) (to_u32 s.rto) =
      Climb-head _ e es (subst (λ x. Climb 0 x (to_u32 s.rto)) b c) in
    (
      (λ lt.
          Ticked-quiet s (tick s ms) ms _
            (ap (expired ms) b ∙ expired_none ms e.remaining_rto (e ∷ es) (to_u32 s.rto) lt above)
            (tick_cases s ms)),
      (λ le.
          Ticked-sent s (tick s ms) ms e.segment (expired ms es) _
            (ap (expired ms) b ∙ ground (arith, le)) (tick_cases s ms)),
    )
