-- ===== src/Connection/Outgoing.antt =====
-- `_add_ack_info` and `_collect_sender_segments_out`: what leaves an endpoint.
use mathlib.Core.Path.{subst}
use cpp_tcp.Common.{
  ◌≡◌, ◌%◌, ◌^◌, refl, sym, ap, ◌∙◌, true, false, List, [], ◌∷◌, Returns, Returns-bind, ok, ◌>>=◌,
  none, some, if◌then◌else◌,
}
use cpp_tcp.Wrapping.{WrappingInt32}
use cpp_tcp.Segment.{TcpSegment}
use cpp_tcp.Receiver
use cpp_tcp.Receiver.{TcpReceiver}
use cpp_tcp.Connection.{stamp, add_ack_info, has_ackno}

-- A segment as the sender made it, with the acknowledgment of the receiver put in.
abbrev pub Stamped : TcpReceiver → WrappingInt32 → TcpSegment → TcpSegment → Type 0
Stamped r n seg seg' =
    (seg'.header.ack ≡ true)
    × (seg'.header.ackno ≡ n)
    × (seg'.header.win ≡ Receiver.window_size r % 2 ^ 16)
    × (seg'.header.sport ≡ seg.header.sport)
    × (seg'.header.dport ≡ seg.header.dport)
    × (seg'.header.seqno ≡ seg.header.seqno)
    × (seg'.header.doff ≡ seg.header.doff)
    × (seg'.header.urg ≡ seg.header.urg)
    × (seg'.header.psh ≡ seg.header.psh)
    × (seg'.header.rst ≡ seg.header.rst)
    × (seg'.header.syn ≡ seg.header.syn)
    × (seg'.header.fin ≡ seg.header.fin)
    × (seg'.header.cksum ≡ seg.header.cksum)
    × (seg'.header.uptr ≡ seg.header.uptr)
    × (seg'.payload ≡ seg.payload)

pub Stamped-payload :
    (r : TcpReceiver) (n : WrappingInt32) (seg seg' : TcpSegment)
    → Stamped r n seg seg'
    → seg'.payload ≡ seg.payload
Stamped-payload r n seg seg' (_, _, _, _, _, _, _, _, _, _, _, _, _, _, same) = same

abbrev pub AllStamped : TcpReceiver → WrappingInt32 → List TcpSegment → List TcpSegment → Type 0
AllStamped r n [] [] = Unit {0}
AllStamped r n [] (_ ∷ _) = ⊥
AllStamped r n (_ ∷ _) [] = ⊥
AllStamped r n (seg ∷ segs) (seg' ∷ segs') = Stamped r n seg seg' × AllStamped r n segs segs'

add_ack_info-Stamped :
    (r : TcpReceiver) (n : WrappingInt32) (seg : TcpSegment)
    → Receiver.ackno r ≡ some n
    → Returns (Stamped r n seg) (add_ack_info r seg)
unfolding add_ack_info
add_ack_info-Stamped r n seg known =
    rw known
      (refl, refl, refl, refl, refl, refl, refl, refl, refl, refl, refl, refl, refl, refl, refl)

has_ackno-known :
    (r : TcpReceiver) (n : WrappingInt32) → Receiver.ackno r ≡ some n → has_ackno r ≡ true
has_ackno-known r n known = rw (known, has_ackno) refl

has_ackno-unknown : (r : TcpReceiver) → Receiver.ackno r ≡ none → has_ackno r ≡ false
has_ackno-unknown r unknown = rw (unknown, has_ackno) refl

stamp_one :
    (r : TcpReceiver) (n : WrappingInt32) (seg : TcpSegment)
    → Receiver.ackno r ≡ some n
    → Returns (Stamped r n seg) (if has_ackno r then add_ack_info r seg else ok seg)
stamp_one r n seg known =
    subst (λ b. Returns (Stamped r n seg) (if b then add_ack_info r seg else ok seg))
      (sym (has_ackno-known r n known)) (add_ack_info-Stamped r n seg known)

-- Once the receiver has an acknowledgment number, every segment of the sender's queue leaves with
-- it and with the receiver's window, cut to 16 bits, and is otherwise unchanged; none is lost.
pub stamp-AllStamped :
    (r : TcpReceiver) (n : WrappingInt32) (segs : List TcpSegment)
    → Receiver.ackno r ≡ some n
    → Returns (AllStamped r n segs) (stamp r segs)
unfolding stamp
stamp-AllStamped r n [] known = tt
stamp-AllStamped r n (seg ∷ segs) known =
    Returns-bind (Stamped r n seg) (AllStamped r n (seg ∷ segs)) _ _ (stamp_one r n seg known)
      λ seg' h.
        Returns-bind (AllStamped r n segs) (AllStamped r n (seg ∷ segs)) (stamp r segs) _
          (stamp-AllStamped r n segs known) λ segs' hs. (h, hs)

stamp_none :
    (r : TcpReceiver) (seg : TcpSegment)
    → Receiver.ackno r ≡ none
    → (if has_ackno r then add_ack_info r seg else ok seg) ≡ ok seg
stamp_none r seg unknown =
    ap (λ b. if b then add_ack_info r seg else ok seg) (has_ackno-unknown r unknown)

-- Before it has one, the queue leaves as the sender made it.
pub stamp_unknown :
    (r : TcpReceiver) (segs : List TcpSegment) → Receiver.ackno r ≡ none → stamp r segs ≡ ok segs
unfolding stamp
stamp_unknown r [] unknown = refl
stamp_unknown r (seg ∷ segs) unknown =
    ap (λ m. m >>= λ seg'. stamp r segs >>= λ segs'. ok (seg' ∷ segs')) (stamp_none r seg unknown)
    ∙ ap (λ m. m >>= λ segs'. ok (seg ∷ segs')) (stamp_unknown r segs unknown)
