-- ===== src/ByteStream/Window.antt =====
-- The bytes that a ring holds, and how a write or a pop at its ends changes them.
use cpp_tcp.Common.{
  ℕ, zero, suc, ◌+◌, ◌-◌, ◌≤◌, ◌<◌, ◌≡◌, refl, ap, ap₂, sym, ◌∙◌, List, [], ◌∷◌, ◌++◌, arith,
  length, get_or, set, take, drop, ltb, if◌then◌else◌, get_or-set_self, get_or-set_ne,
}
use cpp_tcp.ByteStream.{ByteStream, buffer_size, peek_loop}
use cpp_tcp.ByteStream.Invariant.{IsValid, next_index_lem, buffer_size_lem}

-- The place `k` steps after `h` in a ring of `m` places, for `k` up to `m`.
abbrev pub place : ℕ → ℕ → ℕ → ℕ
place m h k = if ltb (h + k) m then h + k else h + k - m

module _ (m : ℕ) where
  abbrev pub window : List ℕ → ℕ → ℕ → List ℕ
  window ch h zero = []
  window ch h (suc n) = get_or ch h 0 ∷ window ch (place m h 1) n

  pub length-window : (ch : List ℕ) (h n : ℕ) → length (window ch h n) ≡ n
  length-window ch h zero = refl
  length-window ch h (suc n) = ap suc (length-window ch (place m h 1) n)

  place_step : (h k : ℕ) → h < m → k < m → place m h (suc k) ≡ place m (place m h 1) k
  place_step h k hh hk = ground arith

  -- Writing just past a window extends it by that byte.
  pub window-set :
      (ch : List ℕ) (x h n : ℕ)
      → m ≤ length ch
      → h < m
      → n < m
      → window (set ch (place m h n) x) h (suc n) ≡ window ch h n ++ x ∷ []
  window-set ch x h zero hm hh hn = ground (arith, get_or-set_self ch h x 0)
  window-set ch x h (suc n) hm hh hn =
      ap₂ ◌∷◌ (get_or-set_ne ch (place m h (suc n)) h x 0 (ground arith)) (
        ap (λ i. window (set ch i x) (place m h 1) (suc n)) (place_step h n hh (omega arith))
        ∙ window-set ch x (place m h 1) n hm (ground arith) (omega arith))

  -- Dropping bytes moves the start of the window.
  pub drop-window :
      (ch : List ℕ) (h n k : ℕ)
      → h < m
      → n ≤ m
      → k ≤ n
      → drop k (window ch h n) ≡ window ch (place m h k) (n - k)
  drop-window ch h n zero hh hn hk = ground arith
  drop-window ch h zero (suc k) hh hn hk = absurd (omega arith)
  drop-window ch h (suc n) (suc k) hh hn hk =
      drop-window ch (place m h 1) n k (ground arith) (omega arith) (omega arith)
      ∙ ap₂ (window ch) (sym (place_step h k hh (omega arith))) (omega arith)

-- The bytes of the stream that were written and not yet popped, oldest first.
abbrev pub contents : ByteStream → List ℕ
contents s = window (s.capacity + 1) s.channel s.read_index (buffer_size s)

pub length-contents : (s : ByteStream) → length (contents s) ≡ buffer_size s
length-contents s = length-window (s.capacity + 1) s.channel s.read_index (buffer_size s)

-- The write index is where the window ends.
pub write_place :
    {s : ByteStream}
    → IsValid s
    → place (s.capacity + 1) s.read_index (buffer_size s) ≡ s.write_index
write_place {s} v = ground (arith, buffer_size_lem s)

-- The loop of `peek_output` returns the front of the `n` bytes that lie between `i` and the write index.
pub peek_loop-window :
    (s : ByteStream) (wanted i n : ℕ)
    → IsValid s
    → i ≤ s.capacity
    → n ≤ s.capacity
    → place (s.capacity + 1) i n ≡ s.write_index
    → peek_loop s i wanted ≡ take wanted (window (s.capacity + 1) s.channel i n)
unfolding peek_loop
peek_loop-window s zero i n v hi hn e = refl
peek_loop-window s (suc w) i zero v hi hn e = ground arith
peek_loop-window s (suc w) i (suc n) v hi hn e =
    ground (arith, next_index_lem s i 1, peek_loop-window s w (place (s.capacity + 1) i 1) n v)
