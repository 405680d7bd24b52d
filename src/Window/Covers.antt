-- ===== src/Window/Covers.antt =====
-- The entries of the window as a chain of segments, and the part of it that an acknowledgment leaves.
use cpp_tcp.Common.{
  ℕ, ◌+◌, ◌≤◌, ◌<◌, ◌≡◌, inl, inr, refl, sym, ap, ◌∙◌, List, [], ◌∷◌, ◌++◌, arith, leb,
  if◌then◌else◌, Bool-cases,
}
use cpp_tcp.Wrapping.{WrappingInt32, wrap}
use cpp_tcp.Segment.{length_in_sequence_space}
use cpp_tcp.Window.{SegmentForSender}

abbrev pub len : SegmentForSender → ℕ
len s = length_in_sequence_space s.segment

-- The entries cover the absolute numbers from `a` up to `b`, one behind the other, none empty.
abbrev pub Covers : WrappingInt32 → ℕ → List SegmentForSender → ℕ → Type 0
Covers isn a [] b = a ≡ b
Covers isn a (s ∷ ss) b =
    (s.segment.header.seqno ≡ wrap a isn) × (0 < len s) × Covers isn (a + len s) ss b

pub Covers-le : (isn a : ℕ) (ss : List SegmentForSender) (b : ℕ) → Covers isn a ss b → a ≤ b
Covers-le isn a [] b c = omega arith
Covers-le isn a (s ∷ ss) b (e, pos, c) = omega (arith, Covers-le isn (a + len s) ss b c)

pub Covers-append :
    (isn a : ℕ) (ss : List SegmentForSender) (s : SegmentForSender) (b : ℕ)
    → Covers isn a ss b
    → s.segment.header.seqno ≡ wrap b isn
    → 0 < len s
    → Covers isn a (ss ++ s ∷ []) (b + len s)
Covers-append isn a [] s b c e pos =
    (e ∙ ap (λ k. wrap k isn) (sym c), pos, ap (λ (k : ℕ). k + len s) c)
Covers-append isn a (t ∷ ss) s b (e', pos', c) e pos =
    (e', pos', Covers-append isn (a + len t) ss s b c e pos)

-- What is left of the entries when all below `k` is acknowledged: an entry goes if it ends by `k`.
unfoldable pub unacked : ℕ → ℕ → List SegmentForSender → List SegmentForSender
unacked a k [] = []
unacked a k (s ∷ ss) =
    let rest = unacked (a + len s) k ss in if leb (a + len s) k then rest else s ∷ ss

-- Where the entries that are left begin.
unfoldable pub front_after : ℕ → ℕ → List SegmentForSender → ℕ
front_after a k [] = a
front_after a k (s ∷ ss) =
    let rest = front_after (a + len s) k ss in if leb (a + len s) k then rest else a

pub unacked-Covers :
    (isn a k : ℕ) (ss : List SegmentForSender) (b : ℕ)
    → Covers isn a ss b
    → Covers isn (front_after a k ss) (unacked a k ss) b
unfolding unacked front_after
unacked-Covers isn a k [] b c = c
unacked-Covers isn a k (s ∷ ss) b c = elim (Bool-cases (leb (a + len s) k)) [
  | inl gone ↦ rw gone (unacked-Covers isn (a + len s) k ss b c.2)
  | inr kept ↦ rw kept c
]

-- The entries that are left begin by `k` and, where some are left, the first ends behind `k`.
abbrev pub EndsBehind : ℕ → ℕ → List SegmentForSender → Type 0
EndsBehind a k [] = a ≡ k
EndsBehind a k (s ∷ ss) = k < a + len s

pub unacked_front :
    (isn a k : ℕ) (ss : List SegmentForSender) (b : ℕ)
    → Covers isn a ss b
    → a ≤ k
    → k ≤ b
    → (front_after a k ss ≤ k) × EndsBehind (front_after a k ss) k (unacked a k ss)
unfolding unacked front_after
unacked_front isn a k [] b c lo hi = (lo, omega arith)
unacked_front isn a k (s ∷ ss) b c lo hi = elim (Bool-cases (leb (a + len s) k)) [
  | inl gone ↦ rw gone (unacked_front isn (a + len s) k ss b c.2 (ground arith) hi)
  | inr kept ↦ rw kept (lo, ground arith)
]

-- Nothing goes below the first entry.
pub unacked_none :
    (isn : ℕ) (ss : List SegmentForSender) (a k b : ℕ)
    → Covers isn a ss b
    → k ≤ a
    → unacked a k ss ≡ ss
unfolding unacked
unacked_none isn [] a k b c h = refl
unacked_none isn (s ∷ ss) a k b c h = ground arith

pub le-front_after : (a k : ℕ) (ss : List SegmentForSender) → a ≤ front_after a k ss
unfolding front_after
le-front_after a k [] = omega arith
le-front_after a k (s ∷ ss) = ground (arith, le-front_after (a + len s) k ss)

pub EndsBehind-append :
    (a k : ℕ) (ss : List SegmentForSender) (s : SegmentForSender)
    → 0 < len s
    → EndsBehind a k ss
    → EndsBehind a k (ss ++ s ∷ [])
EndsBehind-append a k [] s pos e = omega arith
EndsBehind-append a k (t ∷ ss) s pos e = e
