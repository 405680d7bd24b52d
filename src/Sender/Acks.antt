-- ===== src/Sender/Acks.antt =====
-- `ack_received` of the sender.
use cpp_tcp.Common.{subst, sym, ℕ, ◌^◌, ◌≤◌, ◌<◌, ◌≡◌, ◌⊎◌, arith, ◌==◌, Returns, Returns-map, max}
use cpp_tcp.Wrapping.{unwrap}
use cpp_tcp.Window
use cpp_tcp.Window.{TcpSendingWindow}
use cpp_tcp.Window.Shape
use cpp_tcp.Window.Shape.{
  acked, acks, ack_received_new, ack_received_repeated, ack_received_outside,
}
use cpp_tcp.Window.Timers.{reset_timer-IsValid}
use cpp_tcp.Sender.{TcpSender, ack_received, fill_window, restart_timers}
use cpp_tcp.Sender.Shape.{IsValid}
use cpp_tcp.Sender.Fill.{Filled, fill_window-Filled}

-- The state between the window's answer and `fill_window`.
abbrev pub answered : TcpSender → TcpSendingWindow → ℕ → TcpSender
answered s w size = record s { window = w; window_size_is_zero = size == 0 }

-- The state before `fill_window`, after an acknowledgment of new data.
abbrev pub advanced : (s : TcpSender) → Shape.IsValid s.window → ℕ → ℕ → TcpSender
advanced s v k size = restart_timers (answered s (acked s.window v.front k (max size 1)) size)

-- An acknowledgment of new data restarts the timers, and the window is filled.
pub ack_received-eq_new :
    {s : TcpSender} (v : IsValid s) (k size : ℕ)
    → s.window.first_seqno < k
    → k ≤ s.window.next_seqno
    → size < 2 ^ 16
    → (ack_received s (acks s.window k) size ≡ fill_window (advanced s v.window k size))
      × IsValid (advanced s v.window k size)
unfolding ack_received Window.reset_timer
ack_received-eq_new {s} v k size lo hi word =
    let (taken, kept) = ack_received_new v.window k (max size 1) lo hi (omega arith) in
    let bounded = v.bounded in
    (
      rw taken,
      record {
        stream = v.stream;
        window = reset_timer-IsValid s.initial_retransmission_timeout kept;
        in_step = v.in_step;
        sound = v.sound;
        usable = omega arith;
        bounded = bounded;
        syn_first = λ z. absurd (omega (arith, z));
      },
    )

resized-IsValid :
    {w : TcpSendingWindow} (v : Shape.IsValid w) (size : ℕ)
    → size < 2 ^ 16
    → Shape.IsValid (record w { window_size = size })
resized-IsValid v size word = record {
  front = v.front;
  isn_word = v.isn_word;
  small = v.small;
  window_word = word;
  near = v.near;
  front_le = v.front_le;
  first_le = v.first_le;
  covers = v.covers;
  ends_behind = v.ends_behind;
}

-- The state before `fill_window`, after a repeated acknowledgment.
abbrev pub resized : TcpSender → ℕ → TcpSender
resized s size = answered s (record s.window { window_size = max size 1 }) size

pub ack_received-eq_again :
    {s : TcpSender} (v : IsValid s) (size : ℕ)
    → size < 2 ^ 16
    → (1 ≤ s.window.first_seqno) ⊎ (size ≤ 1)
    → (ack_received s (acks s.window s.window.first_seqno) size ≡ fill_window (resized s size))
      × IsValid (resized s size)
unfolding ack_received
ack_received-eq_again {s} v size word opened =
    let bounded = v.bounded in
    (
      rw (ack_received_repeated v.window (max size 1)),
      record {
        stream = v.stream;
        window = resized-IsValid v.window (max size 1) (omega arith);
        in_step = v.in_step;
        sound = v.sound;
        usable = omega arith;
        bounded = bounded;
        syn_first = λ z. (omega (arith, v.syn_first z), omega (arith, opened, z));
      },
    )

pub ack_received-eq_ignored :
    {s : TcpSender} (v : IsValid s) (ackno size : ℕ)
    → (s.window.next_seqno < unwrap ackno s.window.isn s.window.next_seqno)
      ⊎ (unwrap ackno s.window.isn s.window.next_seqno < s.window.first_seqno)
    → (ack_received s ackno size ≡ fill_window (answered s s.window size))
      × IsValid (answered s s.window size)
unfolding ack_received
ack_received-eq_ignored {s} v ackno size out =
    let bounded = v.bounded in
    (
      rw (ack_received_outside s.window ackno (max size 1) out),
      record {
        stream = v.stream;
        window = v.window;
        in_step = v.in_step;
        sound = v.sound;
        usable = v.usable;
        bounded = bounded;
        syn_first = v.syn_first;
      },
    )

-- After an acknowledgment of new data `k` the window begins at `k` and has the advertised size, at
-- least 1; the timeout is the initial one and the count of retransmissions 0; then `fill_window`
-- has filled the window, and the sender is valid.
pub ack_received_new_data :
    {s : TcpSender} (v : IsValid s) (k size : ℕ)
    → s.window.first_seqno < k
    → k ≤ s.window.next_seqno
    → size < 2 ^ 16
    → Returns
        (λ s'.
          IsValid s'
          × (s'.window.first_seqno ≡ k)
          × (s'.window.window_size ≡ max size 1)
          × (s'.rto ≡ s.initial_retransmission_timeout)
          × (s'.consecutive_retransmission_count ≡ 0))
        (ack_received s (acks s.window k) size)
unfolding Window.reset_timer
ack_received_new_data {s} v k size lo hi word =
    let (same, kept) = ack_received-eq_new v k size lo hi word in
    subst (Returns _) (sym same) (
      Returns-map (Filled (advanced s v.window k size)) _ (fill_window (advanced s v.window k size))
        (λ s' f. (f.valid, f.first_seqno, f.window_size, f.rto, f.retransmissions))
        (fill_window-Filled kept))

-- A repeated acknowledgment sets the window size, at least 1, and the window is filled; the timeout
-- and the count stay. Before the SYN is acknowledged the size must not grow.
pub ack_received_again :
    {s : TcpSender} (v : IsValid s) (size : ℕ)
    → size < 2 ^ 16
    → (1 ≤ s.window.first_seqno) ⊎ (size ≤ 1)
    → Returns
        (λ s'.
          IsValid s'
          × (s'.window.first_seqno ≡ s.window.first_seqno)
          × (s'.window.window_size ≡ max size 1)
          × (s'.rto ≡ s.rto)
          × (s'.consecutive_retransmission_count ≡ s.consecutive_retransmission_count))
        (ack_received s (acks s.window s.window.first_seqno) size)
ack_received_again {s} v size word opened =
    let (same, kept) = ack_received-eq_again v size word opened in
    subst (Returns _) (sym same) (
      Returns-map (Filled (resized s size)) _ (fill_window (resized s size))
        (λ s' f. (f.valid, f.first_seqno, f.window_size, f.rto, f.retransmissions))
        (fill_window-Filled kept))

-- An acknowledgment outside the window changes neither the window nor the timeout nor the count; the
-- window is filled.
pub ack_received_ignored :
    {s : TcpSender} (v : IsValid s) (ackno size : ℕ)
    → (s.window.next_seqno < unwrap ackno s.window.isn s.window.next_seqno)
      ⊎ (unwrap ackno s.window.isn s.window.next_seqno < s.window.first_seqno)
    → Returns
        (λ s'.
          IsValid s'
          × (s'.window.first_seqno ≡ s.window.first_seqno)
          × (s'.window.window_size ≡ s.window.window_size)
          × (s'.rto ≡ s.rto)
          × (s'.consecutive_retransmission_count ≡ s.consecutive_retransmission_count))
        (ack_received s ackno size)
ack_received_ignored {s} v ackno size out =
    let (same, kept) = ack_received-eq_ignored v ackno size out in
    subst (Returns _) (sym same) (
      Returns-map (Filled (answered s s.window size)) _ (fill_window (answered s s.window size))
        (λ s' f. (f.valid, f.first_seqno, f.window_size, f.rto, f.retransmissions))
        (fill_window-Filled kept))
