-- ===== src/Window/Timers.antt =====
-- The retransmission timers of the entries.
use cpp_tcp.Common.{
  ℕ, ◌+◌, ◌-◌, ◌^◌, ◌≤◌, ◌<◌, ◌≡◌, refl, sym, ◌∙◌, ◌≢◌, false, ap, List, [], ◌∷◌, arith, leb, ltb,
  map, Bool-cases, inl, inr, if◌then◌else◌, to_u32,
}
use cpp_tcp.Segment.{TcpSegment}
use cpp_tcp.Window.{
  TcpSendingWindow, SegmentForSender, tick, tick_entries, reset_timer, full, space, bytes_in_flight,
}
use cpp_tcp.Window.Covers.{Covers, EndsBehind, len}
use cpp_tcp.Window.Shape.{IsValid}

-- Two lists of entries with the same segments in the same order.
abbrev pub SameSegments : List SegmentForSender → List SegmentForSender → Type 0
SameSegments [] [] = Unit {0}
SameSegments [] (t ∷ ts) = ⊥
SameSegments (s ∷ ss) [] = ⊥
SameSegments (s ∷ ss) (t ∷ ts) = (s.segment ≡ t.segment) × SameSegments ss ts

Covers-same :
    (isn a : ℕ) (ss ts : List SegmentForSender) (b : ℕ)
    → SameSegments ss ts
    → Covers isn a ss b
    → Covers isn a ts b
Covers-same isn a [] [] b e c = c
Covers-same isn a [] (t ∷ ts) b e c = absurd e
Covers-same isn a (s ∷ ss) [] b e c = absurd e
Covers-same isn a (s ∷ ss) (t ∷ ts) b (e, es) c =
    (rw (← e) c.0, rw (← e) c.1, Covers-same isn (a + len t) ss ts b es (rw (← e) c.2))

EndsBehind-same :
    (a k : ℕ) (ss ts : List SegmentForSender)
    → SameSegments ss ts
    → EndsBehind a k ss
    → EndsBehind a k ts
EndsBehind-same a k [] [] e h = h
EndsBehind-same a k [] (t ∷ ts) e h = absurd e
EndsBehind-same a k (s ∷ ss) [] e h = absurd e
EndsBehind-same a k (s ∷ ss) (t ∷ ts) e h = rw (← e.0) h

same-IsValid :
    {w : TcpSendingWindow} (ss : List SegmentForSender)
    → SameSegments w.buffer ss
    → IsValid w
    → IsValid (record w { buffer = ss })
same-IsValid {w} ss e v = record {
  front = v.front;
  isn_word = v.isn_word;
  small = v.small;
  window_word = v.window_word;
  near = v.near;
  front_le = v.front_le;
  first_le = v.first_le;
  covers = Covers-same w.isn v.front w.buffer ss w.next_seqno e v.covers;
  ends_behind = EndsBehind-same v.front w.first_seqno w.buffer ss e v.ends_behind;
}

tick_entries-SameSegments :
    (ms : ℕ) (ss : List SegmentForSender) → SameSegments ss (tick_entries ms ss).0
unfolding tick_entries
tick_entries-SameSegments ms [] = tt
tick_entries-SameSegments ms (s ∷ ss) = elim (Bool-cases (ltb ms s.remaining_rto)) [
  | inl runs ↦ rw runs (refl, tick_entries-SameSegments ms ss)
  | inr out ↦ rw out (refl, tick_entries-SameSegments ms ss)
]

-- `tick` keeps the invariant: it changes timers only.
pub tick-IsValid : {w : TcpSendingWindow} (ms : ℕ) → IsValid w → IsValid (tick w ms).0
unfolding tick
tick-IsValid {w} ms v =
    same-IsValid (tick_entries ms w.buffer).0 (tick_entries-SameSegments ms w.buffer) v

map-SameSegments :
    (rto : ℕ) (ss : List SegmentForSender)
    → SameSegments ss (map (λ (s : SegmentForSender). record s { remaining_rto = to_u32 rto }) ss)
map-SameSegments rto [] = tt
map-SameSegments rto (s ∷ ss) = (refl, map-SameSegments rto ss)

pub reset_timer-IsValid : {w : TcpSendingWindow} (rto : ℕ) → IsValid w → IsValid (reset_timer w rto)
unfolding reset_timer
reset_timer-IsValid {w} rto v = same-IsValid _ (map-SameSegments rto w.buffer) v

-- What `tick` returns: the segments of the entries whose timer is at most `ms`, in order.
abbrev pub expired : ℕ → List SegmentForSender → List TcpSegment
expired ms [] = []
expired ms (s ∷ ss) = if leb s.remaining_rto ms then s.segment ∷ expired ms ss else expired ms ss

tick_entries-expired :
    (ms : ℕ) (ss : List SegmentForSender) → (tick_entries ms ss).1 ≡ expired ms ss
unfolding tick_entries
tick_entries-expired ms [] = refl
tick_entries-expired ms (s ∷ ss) = ground (arith, tick_entries-expired ms ss)

pub tick-expired : (w : TcpSendingWindow) (ms : ℕ) → (tick w ms).1 ≡ expired ms w.buffer
unfolding tick
tick-expired w ms = tick_entries-expired ms w.buffer

-- Two ticks in a row that let no timer run out count like one tick of their sum.
tick_entries_add :
    (m n : ℕ) (ss : List SegmentForSender)
    → expired (m + n) ss ≡ []
    → tick_entries n (tick_entries m ss).0 ≡ tick_entries (m + n) ss
unfolding tick_entries
tick_entries_add m n [] e = refl
tick_entries_add m n (s ∷ ss) e = ground (arith, tick_entries_add m n ss)

-- Two ticks in a row count like one tick of their sum, if that one lets no timer run out.
pub tick_add :
    (w : TcpSendingWindow) (m n : ℕ)
    → (tick w (m + n)).1 ≡ []
    → tick (tick w m).0 n ≡ tick w (m + n)
unfolding tick
tick_add w m n e =
    ap (λ (p : List SegmentForSender × List TcpSegment). (record w { buffer = p.0 }, p.1))
      (tick_entries_add m n w.buffer (sym (tick_entries-expired (m + n) w.buffer) ∙ e))

-- The window of a peer that shrank it below what is in flight does not count as full: the unsigned
-- difference of the two wraps round.
pub shrunk_window_not_full :
    (w : TcpSendingWindow)
    → w.window_size ≢ 0
    → w.buffer ≢ []
    → w.first_seqno ≤ w.next_seqno
    → w.next_seqno < 2 ^ 32
    → w.window_size < w.next_seqno - w.first_seqno
    → (full w ≡ false) × (2 ^ 63 ≤ space w)
unfolding full space bytes_in_flight
shrunk_window_not_full w open_window some_sent le small shrunk = ground arith
