-- ===== src/ByteStream/Invariant.antt =====
-- The representation invariant of the ring, and that each operation keeps it.
use cpp_tcp.Common.{
  ℕ, zero, ◌+◌, ◌-◌, ◌^◌, ◌≤◌, ◌<◌, ◌≡◌, true, false, arith, min, add64, length, length-set,
  length-replicate, if◌then◌else◌, ltb, leb, mod_once, ◌↔◌,
}
use native.Mathlib.Nat.{mod-eq_of_lt}
use cpp_tcp.ByteStream.{
  ByteStream, create, next_index_of, buffer_size, buffer_full, buffer_empty, remaining_capacity,
  put, pop_output,
}

-- The ring has `capacity + 1` places (no vector of bytes is longer than 2 ^ 63 - 1), both indices
-- lie in it, and the two counters differ by the number of bytes held, as 64-bit numbers.
pub record IsValid (s : ByteStream) : Type 0 where
  pub storage : length s.channel ≡ s.capacity + 1
  pub small : s.capacity + 1 < 2 ^ 63
  pub read_in : s.read_index ≤ s.capacity
  pub write_in : s.write_index ≤ s.capacity
  pub counted : add64 s.read_count (buffer_size s) ≡ s.written_count
  pub read_word : s.read_count < 2 ^ 64

-- The bytes held, without the wrap-around.
pub buffer_size_lem :
    (s : ByteStream)
    → s.capacity + 1 < 2 ^ 63
    → s.read_index ≤ s.capacity
    → s.write_index ≤ s.capacity
    → buffer_size s ≡ (
        if leb s.read_index s.write_index
        then s.write_index - s.read_index
        else s.capacity + 1 + s.write_index - s.read_index)
unfolding buffer_size
buffer_size_lem s small hr hw =
    ground (arith, mod_once (s.capacity + 1 + s.write_index - s.read_index) (s.capacity + 1))

-- A step of at most the capacity goes on, or round once.
pub next_index_lem :
    (s : ByteStream) (i step : ℕ)
    → s.capacity + 1 < 2 ^ 63
    → i ≤ s.capacity
    → step ≤ s.capacity + 1
    → next_index_of s i step
      ≡ (if ltb (i + step) (s.capacity + 1) then i + step else i + step - (s.capacity + 1))
unfolding next_index_of
next_index_lem s i step small hi hs = ground (
  arith,
  mod_once step (s.capacity + 1),
  mod_once (i + step) (s.capacity + 1),
  mod-eq_of_lt {n = i} {m = s.capacity + 1},
)

pub buffer_size-le : {s : ByteStream} → IsValid s → buffer_size s ≤ s.capacity
buffer_size-le {s} v = ground (arith, buffer_size_lem s)

-- `remaining_capacity` and `buffer_size` make up the capacity, and `buffer_empty` and `buffer_full`
-- tell when one of them is 0.
pub sizes_lem :
    {s : ByteStream}
    → IsValid s
    → (remaining_capacity s + buffer_size s ≡ s.capacity)
      × ((buffer_empty s ≡ true) ↔ (buffer_size s ≡ 0))
      × ((buffer_full s ≡ true) ↔ (remaining_capacity s ≡ 0))
unfolding remaining_capacity buffer_empty buffer_full
sizes_lem {s} v = ground (arith, buffer_size_lem s, next_index_lem s s.write_index 1)

-- A new stream is valid and empty.
pub create-IsValid :
    (capacity : ℕ)
    → capacity + 1 < 2 ^ 63
    → IsValid (create capacity) × (buffer_size (create capacity) ≡ 0)
unfolding create
create-IsValid capacity h =
    ground (arith, buffer_size_lem (create capacity), length-replicate (add64 capacity 1) zero)

pub put-IsValid :
    {s : ByteStream} (x : ℕ)
    → IsValid s
    → buffer_full s ≡ false
    → IsValid (put s x) × (buffer_size (put s x) ≡ buffer_size s + 1)
unfolding put buffer_full
put-IsValid {s} x v h = ground (
  arith,
  buffer_size_lem s,
  buffer_size_lem (put s x),
  next_index_lem s s.write_index 1,
  length-set s.channel s.write_index x,
)

pub pop_output-IsValid :
    {s : ByteStream} (len : ℕ)
    → IsValid s
    → IsValid (pop_output s len) × (buffer_size (pop_output s len) ≡ buffer_size s - len)
unfolding pop_output
pop_output-IsValid {s} len v = ground (
  arith,
  buffer_size_lem s,
  buffer_size_lem (pop_output s len),
  next_index_lem s s.read_index (min len (buffer_size s)),
)
