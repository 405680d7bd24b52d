-- ===== src/Network/Ticking.antt =====
-- Ticks and empty segments at the sender.
use cpp_tcp.Common.{
  ℕ, ◌≡◌, inl, inr, refl, sym, ap, ◌∙◌, List, [], ◌∷◌, ◌++◌, map, All, subst, add64, to_u32, leb,
  ltb, Bool-cases,
}
use cpp_tcp.Wrapping.{WrappingInt32}
use cpp_tcp.Segment.{TcpSegment}
use cpp_tcp.Window
use cpp_tcp.Window.{SegmentForSender}
use cpp_tcp.Window.Shape
use cpp_tcp.Window.Shape.{acks}
use cpp_tcp.Window.Timers.{expired, tick-IsValid, reset_timer-IsValid}
use cpp_tcp.Sender.{TcpSender, tick, send_empty_segment}
use cpp_tcp.Sender.Timers.{Ticked, tick_cases, backed_off}
use cpp_tcp.Network.Genuine.{Genuine}
use cpp_tcp.Network.Sending.{segments, All-snoc}
use cpp_tcp.Network.Hearing.{Sends, segments-reset}

segments-tick :
    (ms : ℕ) (es : List SegmentForSender) → segments (Window.tick_entries ms es).0 ≡ segments es
unfolding Window.tick_entries
segments-tick ms [] = refl
segments-tick ms (e ∷ es) = elim (Bool-cases (ltb ms e.remaining_rto)) [
  | inl runs ↦ rw runs (ap (λ ys. e.segment ∷ ys) (segments-tick ms es))
  | inr out ↦ rw out (ap (λ ys. e.segment ∷ ys) (segments-tick ms es))
]

-- Another queue, other timers: only what is queued and what is in flight matters.
requeued :
    {src : ℕ → ℕ} {isn : WrappingInt32} {total : ℕ} (s : TcpSender) (queue : List TcpSegment)
    (es : List SegmentForSender) (rto count : ℕ)
    → Sends src isn total s
    → Shape.IsValid (record s.window { buffer = es })
    → All (Genuine src isn) queue
    → All (Genuine src isn) (segments es)
    → Sends src isn total (record s {
      segments_out = queue;
      rto = rto;
      window = record s.window { buffer = es };
      consecutive_retransmission_count = count;
    })
requeued s queue es rto count h w all flight =
    let v = h.valid in
    let c = h.carrying in
    let bounded = v.bounded in
    record {
      valid = record {
        stream = v.stream;
        window = w;
        in_step = v.in_step;
        sound = v.sound;
        usable = v.usable;
        bounded = bounded;
        syn_first = v.syn_first;
      };
      carrying = record {
        same_isn = c.same_isn;
        held = c.held;
        come_in = c.come_in;
        queue = all;
        flight = flight;
      };
    }

-- `tick` sends again what is in flight.
Ticked-Sends :
    {src : ℕ → ℕ} {isn : WrappingInt32} {total : ℕ} (s s' : TcpSender) (ms : ℕ)
    (segs : List TcpSegment)
    → Sends src isn total s
    → All (Genuine src isn) segs
    → Ticked s ms s' segs
    → Sends src isn total s'
unfolding Window.tick Window.reset_timer
Ticked-Sends {src} {isn} {total} s s' ms [] h all t = subst (Sends src isn total) (sym t) (
    requeued s s.segments_out (Window.tick_entries ms s.window.buffer).0 s.rto
      s.consecutive_retransmission_count h (tick-IsValid ms h.valid.window) h.carrying.queue
      (subst (All (Genuine src isn)) (sym (segments-tick ms s.window.buffer)) h.carrying.flight))
Ticked-Sends {src} {isn} {total} s s' ms (seg ∷ segs) h all t =
    let es = (Window.tick_entries ms s.window.buffer).0 in
    subst (Sends src isn total) (sym t) (
      requeued s (s.segments_out ++ seg ∷ [])
        (map (λ (e : SegmentForSender). record e { remaining_rto = to_u32 (backed_off s) }) es)
        (backed_off s) (add64 s.consecutive_retransmission_count 1) h
        (reset_timer-IsValid (backed_off s) (tick-IsValid ms h.valid.window))
        (All-snoc (Genuine src isn) s.segments_out seg h.carrying.queue all.0)
        (subst (All (Genuine src isn))
          (sym (segments-reset (backed_off s) es ∙ segments-tick ms s.window.buffer))
          h.carrying.flight))

All-expired :
    (P : TcpSegment → Type 0) (ms : ℕ) (es : List SegmentForSender)
    → All P (segments es)
    → All P (expired ms es)
All-expired P ms [] h = tt
All-expired P ms (e ∷ es) h = elim (Bool-cases (leb e.remaining_rto ms)) [
  | inl out ↦ rw out (h.0, All-expired P ms es h.1)
  | inr runs ↦ rw runs (All-expired P ms es h.1)
]

pub tick-Sends :
    {src : ℕ → ℕ} {isn : WrappingInt32} {total : ℕ} (s : TcpSender) (ms : ℕ)
    → Sends src isn total s
    → Sends src isn total (tick s ms)
tick-Sends {src} {isn} {total} s ms h =
    Ticked-Sends s (tick s ms) ms (expired ms s.window.buffer) h
      (All-expired (Genuine src isn) ms s.window.buffer h.carrying.flight) (tick_cases s ms)

-- An empty segment takes no number.
pub send_empty_segment-Sends :
    {src : ℕ → ℕ} {isn : WrappingInt32} {total : ℕ} (s : TcpSender)
    → Sends src isn total s
    → Sends src isn total (send_empty_segment s)
unfolding send_empty_segment
send_empty_segment-Sends {src} {isn} {total} s h =
    requeued s _ s.window.buffer s.rto s.consecutive_retransmission_count h h.valid.window
      (All-snoc (Genuine src isn) s.segments_out _ h.carrying.queue (inl refl)) h.carrying.flight

pub drained-Sends :
    {src : ℕ → ℕ} {isn : WrappingInt32} {total : ℕ} (s : TcpSender)
    → Sends src isn total s
    → Sends src isn total (record s { segments_out = [] })
drained-Sends s h =
    requeued s [] s.window.buffer s.rto s.consecutive_retransmission_count h h.valid.window tt
      h.carrying.flight
