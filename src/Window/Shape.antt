-- ===== src/Window/Shape.antt =====
-- The invariant of the sending window, and what its operations do to it.
use cpp_tcp.Common.{
  ℕ, ◌+◌, ◌^◌, ◌≤◌, ◌<◌, ◌≡◌, ◌⊎◌, inl, refl, [], ◌∷◌, ◌++◌, arith, sub64, ok, ◌>>=◌, true, false,
  to_u32,
}
use cpp_tcp.Wrapping.{WrappingInt32, wrap, unwrap}
use cpp_tcp.Wrapping.Laws.{unwrap-wrap}
use cpp_tcp.Segment.{TcpSegment, length_in_sequence_space}
use cpp_tcp.Window.{
  TcpSendingWindow, create, full, seqno_of, add_segment, accept_ack, ack_received, advance,
  shrink_front, expand_back, set_window_size,
}
use cpp_tcp.Window.Covers.{
  Covers, Covers-append, unacked, front_after, unacked-Covers, unacked_front, EndsBehind,
  EndsBehind-append, le-front_after,
}
use cpp_tcp.Window.Acks.{erase_all_acked}

-- The entries cover the numbers in flight without gap. The first entry may begin below
-- `first_seqno`, when it is acknowledged in part. `next_seqno` stays below 2 ^ 32: the numbers of
-- the first block (see `Wrapping.Laws`).
pub record IsValid (w : TcpSendingWindow) : Type 0 where
  pub front : ℕ
  pub isn_word : w.isn < 2 ^ 32
  pub small : w.next_seqno < 2 ^ 32
  pub window_word : w.window_size < 2 ^ 16
  pub near : w.next_seqno < front + 2 ^ 31
  pub front_le : front ≤ w.first_seqno
  pub first_le : w.first_seqno ≤ w.next_seqno
  pub covers : Covers w.isn front w.buffer w.next_seqno
  pub ends_behind : EndsBehind front w.first_seqno w.buffer

pub create-IsValid : (isn size : ℕ) → isn < 2 ^ 32 → size < 2 ^ 16 → IsValid (create isn size)
unfolding create
create-IsValid isn size hi hs = record {
  front = 0;
  isn_word = hi;
  small = omega arith;
  window_word = hs;
  near = omega arith;
  front_le = omega arith;
  first_le = omega arith;
  covers = refl;
  ends_behind = refl;
}

-- `advance` moves the front, and the window ends where it is set to end.
advance_lem :
    (w : TcpSendingWindow) (k size : ℕ)
    → w.window_size < 2 ^ 16
    → w.first_seqno < k
    → k < 2 ^ 32
    → (advance w (sub64 k w.first_seqno) >>= λ w'. ok (set_window_size w' size))
      ≡ ok (record w { window_size = size; first_seqno = k })
unfolding advance shrink_front expand_back set_window_size
advance_lem w k size hw lo hi = ground arith

-- The window after an acknowledgment up to `k`.
abbrev pub acked : TcpSendingWindow → ℕ → ℕ → ℕ → TcpSendingWindow
acked w front k size = record w {
  buffer = unacked front k w.buffer;
  first_seqno = k;
  window_size = size;
}

accept_ack_lem :
    {w : TcpSendingWindow} (v : IsValid w) (k size : ℕ)
    → w.first_seqno < k
    → k ≤ w.next_seqno
    → accept_ack w k size ≡ ok (acked w v.front k size)
unfolding accept_ack
accept_ack_lem {w} v k size lo hi =
    let (i, found, erased) =
      erase_all_acked w v.isn_word v.small w.buffer v.front k v.near v.covers
        (omega (arith, v.front_le)) hi in
    rw (found, erased)
      (advance_lem (record w { buffer = unacked v.front k w.buffer }) k size v.window_word lo
        (omega (arith, v.small)))

acked-IsValid :
    {w : TcpSendingWindow} (v : IsValid w) (k size : ℕ)
    → w.first_seqno < k
    → k ≤ w.next_seqno
    → size < 2 ^ 16
    → IsValid (acked w v.front k size)
acked-IsValid {w} v k size lo hi hs =
    let (begins, ends) =
      unacked_front w.isn v.front k w.buffer w.next_seqno v.covers (omega (arith, v.front_le)) hi in
    record {
      front = front_after v.front k w.buffer;
      isn_word = v.isn_word;
      small = v.small;
      window_word = hs;
      near = omega (arith, v.near, le-front_after v.front k w.buffer);
      front_le = begins;
      first_le = hi;
      covers = unacked-Covers w.isn v.front k w.buffer w.next_seqno v.covers;
      ends_behind = ends;
    }

-- The ackno that the peer sends for the absolute number `k`.
abbrev pub acks : TcpSendingWindow → ℕ → WrappingInt32
acks w k = wrap k w.isn

-- An acknowledgment of new data is taken: exactly the entries that end behind it stay, the window
-- begins at it and has the advertised size, and the invariant holds.
pub ack_received_new :
    {w : TcpSendingWindow} (v : IsValid w) (k size : ℕ)
    → w.first_seqno < k
    → k ≤ w.next_seqno
    → size < 2 ^ 16
    → (ack_received w (acks w k) size ≡ ok (true, acked w v.front k size))
      × IsValid (acked w v.front k size)
unfolding ack_received
ack_received_new {w} v k size lo hi hs =
    let here : unwrap (wrap k w.isn) w.isn w.next_seqno ≡ k =
      unwrap-wrap k w.isn w.next_seqno (omega (arith, v.small)) v.isn_word (omega (arith, v.small))
        (omega (arith)) (omega (arith, v.near, v.front_le)) (inl (omega (arith, v.small))) in
    (ground (arith, here, accept_ack_lem v k size lo hi), acked-IsValid v k size lo hi hs)

-- A repeated acknowledgment only sets the window size.
pub ack_received_repeated :
    {w : TcpSendingWindow} (v : IsValid w) (size : ℕ)
    → ack_received w (acks w w.first_seqno) size ≡ ok (false, record w { window_size = size })
unfolding ack_received set_window_size
ack_received_repeated {w} v size =
    let here : unwrap (wrap w.first_seqno w.isn) w.isn w.next_seqno ≡ w.first_seqno =
      unwrap-wrap w.first_seqno w.isn w.next_seqno (omega (arith, v.small, v.first_le)) v.isn_word
        (omega (arith, v.small)) (omega (arith, v.first_le)) (omega (arith, v.near, v.front_le))
        (inl (omega (arith, v.small))) in
    ground (arith, here, v.first_le)

-- An acknowledgment outside the window changes nothing.
pub ack_received_outside :
    (w : TcpSendingWindow) (ackno size : ℕ)
    → (w.next_seqno < unwrap ackno w.isn w.next_seqno)
      ⊎ (unwrap ackno w.isn w.next_seqno < w.first_seqno)
    → ack_received w ackno size ≡ ok (false, w)
unfolding ack_received
ack_received_outside w ackno size out = ground arith

-- A segment that carries the next number is added behind the others.
pub add_segment-IsValid :
    {w : TcpSendingWindow} (v : IsValid w) (seg : TcpSegment) (rto : ℕ)
    → full w ≡ false
    → seg.header.seqno ≡ wrap w.next_seqno w.isn
    → 0 < length_in_sequence_space seg
    → w.next_seqno + length_in_sequence_space seg < 2 ^ 32
    → w.next_seqno + length_in_sequence_space seg < v.front + 2 ^ 31
    → let w' = record w {
      buffer = w.buffer ++ record { segment = seg; remaining_rto = to_u32 rto } ∷ [];
      next_seqno = w.next_seqno + length_in_sequence_space seg;
    } in
      (add_segment w seg rto ≡ ok w') × IsValid w'
unfolding add_segment seqno_of
add_segment-IsValid {w} v seg rto room e pos small near =
    let here : unwrap (wrap w.next_seqno w.isn) w.isn w.next_seqno ≡ w.next_seqno =
      unwrap-wrap w.next_seqno w.isn w.next_seqno (omega arith) v.isn_word (omega arith)
        (omega arith) (omega arith) (inl (omega (arith, v.small))) in
    (
      ground (arith, here),
      record {
        front = v.front;
        isn_word = v.isn_word;
        small = small;
        window_word = v.window_word;
        near = near;
        front_le = v.front_le;
        first_le = omega (arith, v.first_le);
        covers =
            Covers-append w.isn v.front w.buffer
              (record { segment = seg; remaining_rto = to_u32 rto }) w.next_seqno v.covers e pos;
        ends_behind =
            EndsBehind-append v.front w.first_seqno w.buffer
              (record { segment = seg; remaining_rto = to_u32 rto }) pos v.ends_behind;
      },
    )
