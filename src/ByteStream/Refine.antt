-- ===== src/ByteStream/Refine.antt =====
-- The ring implements the bounded queue of `Spec`.
use cpp_tcp.Common.{
  ℕ, suc, ◌+◌, ◌-◌, ◌≤◌, ◌≡◌, refl, true, false, Bool-cases, inl, inr, List, [], ◌∷◌, ◌++◌, arith,
  length, length-append, take, drop, take-nil, append-nil, append_assoc, drop-min, take_long, min,
  add64,
}
use cpp_tcp.ByteStream.{
  ByteStream, buffer_full, buffer_size, remaining_capacity, put, write_loop, write, peek_output,
  pop_output, read, end_input, set_error,
}
use cpp_tcp.ByteStream.Invariant.{
  IsValid, buffer_size-le, sizes_lem, put-IsValid, pop_output-IsValid, next_index_lem,
  buffer_size_lem,
}
use cpp_tcp.ByteStream.Window.{
  contents, length-contents, window-set, drop-window, write_place, peek_loop-window,
}
use cpp_tcp.ByteStream.Spec
use cpp_tcp.ByteStream.Spec.{Pipe}

abbrev pub view : ByteStream → Pipe
view s = record {
  held = contents s;
  limit = s.capacity;
  popped = s.read_count;
  accepted = s.written_count;
  ended = s.end_flag;
  broken = s.failed;
}

put-contents :
    {s : ByteStream} (x : ℕ)
    → IsValid s
    → buffer_full s ≡ false
    → contents (put s x) ≡ contents s ++ x ∷ []
unfolding put
put-contents {s} x v h = ground (
  arith,
  put-IsValid x v h,
  write_place v,
  sizes_lem v,
  window-set (s.capacity + 1) s.channel x s.read_index (buffer_size s),
)

-- What the loop of `write` has done when it stops.
record Wrote (s : ByteStream) (bytes : List ℕ) (count : ℕ) (out : ByteStream × ℕ) : Type 0 where
  valid : IsValid out.0
  number : out.1 ≡ count + min (length bytes) (remaining_capacity s)
  seen : view out.0 ≡ record (view s) {
    held = contents s ++ take (remaining_capacity s) bytes;
    accepted = add64 s.written_count (min (length bytes) (remaining_capacity s));
  }

put-view :
    {s : ByteStream} (x : ℕ)
    → IsValid s
    → buffer_full s ≡ false
    → view (put s x)
      ≡ record (view s) { held = contents s ++ x ∷ []; accepted = add64 s.written_count 1 }
unfolding put
put-view {s} x v h = ground (arith, put-contents x v h)

remaining_capacity-put :
    {s : ByteStream} (x : ℕ)
    → IsValid s
    → buffer_full s ≡ false
    → remaining_capacity s ≡ suc (remaining_capacity (put s x))
unfolding put
remaining_capacity-put {s} x v h =
    ground (arith, sizes_lem v, put-IsValid x v h, sizes_lem (put-IsValid x v h).0)

-- The bytes of a list from its first on, put one by one or together.
take-put :
    (x : ℕ) (xs held : List ℕ) (n : ℕ)
    → (held ++ x ∷ []) ++ take n xs ≡ held ++ take (suc n) (x ∷ xs)
take-put x xs held n = append_assoc held (x ∷ []) (take n xs)

write_step :
    (x : ℕ) (xs : List ℕ) {s : ByteStream} {count : ℕ} {out : ByteStream × ℕ}
    → IsValid s
    → buffer_full s ≡ false
    → Wrote (put s x) xs (count + 1) out
    → Wrote s (x ∷ xs) count out
write_step x xs {s} {count} {out} v h w = ground (
  arith,
  put-view x v h,
  remaining_capacity-put x v h,
  take-put x xs (contents s) (remaining_capacity (put s x)),
)

write_loop-Wrote :
    (bytes : List ℕ) {s : ByteStream} (count : ℕ)
    → IsValid s
    → Wrote s bytes count (write_loop s bytes count)
unfolding write_loop
write_loop-Wrote [] {s} count v = record {
  valid = v;
  number = omega arith;
  seen = ground (arith, append-nil (contents s), take-nil {A = ℕ} (remaining_capacity s));
}
write_loop-Wrote (x ∷ xs) {s} count v = elim (Bool-cases (buffer_full s)) [
  | inl full ↦ ground (arith, sizes_lem v, append-nil (contents s))
  | inr spare ↦
      rw spare (write_step x xs v spare (write_loop-Wrote xs (count + 1) (put-IsValid x v spare).0))
]

-- `write` does to a valid stream what the queue's `write` does: it keeps the invariant, appends as
-- many bytes as fit, counts and returns their number, and takes none once the input has ended.
pub write_refines :
    {s : ByteStream} (bytes : List ℕ)
    → IsValid s
    → IsValid (write s bytes).0
      × (view (write s bytes).0 ≡ (Spec.write (view s) bytes).0)
      × ((write s bytes).1 ≡ (Spec.write (view s) bytes).1)
unfolding write Spec.write
write_refines {s} bytes v =
    ground (arith, write_loop-Wrote bytes 0 v, sizes_lem v, length-contents s)

-- `peek_output` returns the oldest bytes held, up to the length asked for.
pub peek_refines :
    {s : ByteStream} (len : ℕ) → IsValid s → peek_output s len ≡ Spec.peek (view s) len
unfolding peek_output Spec.peek
peek_refines {s} len v =
    peek_loop-window s len s.read_index (buffer_size s) v v.read_in (buffer_size-le v)
      (write_place v)

pop_output-contents :
    {s : ByteStream} (len : ℕ)
    → IsValid s
    → contents (pop_output s len) ≡ drop (min len (buffer_size s)) (contents s)
unfolding pop_output
pop_output-contents {s} len v = ground (
  arith,
  pop_output-IsValid len v,
  buffer_size-le v,
  next_index_lem s s.read_index (min len (buffer_size s)),
  drop-window (s.capacity + 1) s.channel s.read_index (buffer_size s) (min len (buffer_size s)),
)

-- `pop_output` does to a valid stream what the queue's `pop` does: it keeps the invariant, removes
-- that many of the oldest bytes, or all where there are fewer, and counts them.
pub pop_refines :
    {s : ByteStream} (len : ℕ)
    → IsValid s
    → IsValid (pop_output s len) × (view (pop_output s len) ≡ Spec.pop (view s) len)
unfolding pop_output Spec.pop
pop_refines {s} len v = ground (
  arith,
  pop_output-IsValid len v,
  pop_output-contents len v,
  length-contents s,
  drop-min len (contents s),
)

-- `read` returns what `peek` of the queue returns and leaves what `pop` leaves.
pub read_refines :
    {s : ByteStream} (len : ℕ)
    → IsValid s
    → ((read s len).0 ≡ Spec.peek (view s) len)
      × IsValid (read s len).1
      × (view (read s len).1 ≡ Spec.pop (view s) len)
unfolding read
read_refines {s} len v = (peek_refines len v, (pop_refines len v).0, (pop_refines len v).1)

pub end_input_refines :
    {s : ByteStream}
    → IsValid s
    → IsValid (end_input s) × (view (end_input s) ≡ Spec.end_input (view s))
unfolding end_input Spec.end_input
end_input_refines {s} v = ground (arith, buffer_size_lem s, buffer_size_lem (end_input s))

pub set_error_refines :
    {s : ByteStream}
    → IsValid s
    → IsValid (set_error s) × (view (set_error s) ≡ Spec.set_error (view s))
unfolding set_error Spec.set_error
set_error_refines {s} v = ground (arith, buffer_size_lem s, buffer_size_lem (set_error s))

-- What a client needs of `pop_output`.
pub record Popped (s : ByteStream) (len : ℕ) (out : ByteStream) : Type 0 where
  pub valid : IsValid out
  pub rest : contents out ≡ drop (min len (buffer_size s)) (contents s)
  pub size : buffer_size out ≡ buffer_size s - len
  pub capacity : out.capacity ≡ s.capacity
  pub read_count : out.read_count ≡ add64 s.read_count (min len (buffer_size s))
  pub written_count : out.written_count ≡ s.written_count
  pub end_flag : out.end_flag ≡ s.end_flag
  pub failed : out.failed ≡ s.failed

pub pop_output-Popped : {s : ByteStream} (len : ℕ) → IsValid s → Popped s len (pop_output s len)
unfolding pop_output
pop_output-Popped len v = record {
  valid = (pop_output-IsValid len v).0;
  rest = pop_output-contents len v;
  size = (pop_output-IsValid len v).1;
  capacity = refl;
  read_count = refl;
  written_count = refl;
  end_flag = refl;
  failed = refl;
}

-- What a client needs of `write` when the bytes fit.
pub record Appended (s : ByteStream) (bytes : List ℕ) (out : ByteStream) : Type 0 where
  pub valid : IsValid out
  pub joined : contents out ≡ contents s ++ bytes
  pub size : buffer_size out ≡ buffer_size s + length bytes
  pub capacity : out.capacity ≡ s.capacity
  pub read_count : out.read_count ≡ s.read_count
  pub written_count : out.written_count ≡ add64 s.written_count (length bytes)
  pub end_flag : out.end_flag ≡ false
  pub failed : out.failed ≡ s.failed

pub write-Appended :
    {s : ByteStream} (bytes : List ℕ)
    → IsValid s
    → s.end_flag ≡ false
    → length bytes ≤ s.capacity - buffer_size s
    → Appended s bytes (write s bytes).0
unfolding Spec.write
write-Appended {s} bytes v e fits = ground (
  arith,
  write_refines bytes v,
  length-contents s,
  length-contents (write s bytes).0,
  length-append (contents s) bytes,
  take_long (s.capacity - buffer_size s) bytes,
)

pub write_ended : (s : ByteStream) (bytes : List ℕ) → s.end_flag ≡ true → (write s bytes).0 ≡ s
unfolding write
write_ended s bytes e = ground arith

pub contents-end_input :
    (s : ByteStream)
    → (contents (end_input s) ≡ contents s) × (buffer_size (end_input s) ≡ buffer_size s)
unfolding end_input buffer_size
contents-end_input s = (refl, refl)

pub write-read_count :
    {s : ByteStream} (bytes : List ℕ) → IsValid s → (write s bytes).0.read_count ≡ s.read_count
unfolding Spec.write
write-read_count bytes v = ground (arith, write_refines bytes v)
