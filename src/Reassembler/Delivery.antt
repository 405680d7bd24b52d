-- ===== src/Reassembler/Delivery.antt =====
-- In-order delivery: whatever order substrings of a stream come in, the output holds that stream.
use cpp_tcp.Common.{
  ℕ, ◌+◌, ◌-◌, ◌^◌, ◌≤◌, ◌<◌, ◌≡◌, inl, inr, refl, sym, ap, ap₂, ◌∙◌, Bool, false, ◌&&◌, List, [],
  ◌++◌, arith, add64, length, get_or, segment, segment-append, segment-eq, length-segment,
  length-resize, get_or-resize, length-replicate, get_or-replicate, Bool-cases,
}
use cpp_tcp.ByteStream
use cpp_tcp.ByteStream.{ByteStream, buffer_size, end_input}
use cpp_tcp.ByteStream.Invariant.{IsValid, create-IsValid, buffer_size-le}
use cpp_tcp.ByteStream.Window.{contents}
use cpp_tcp.ByteStream.Refine.{Appended, write-Appended, write_ended, end_input_refines}
use cpp_tcp.Reassembler.{StreamReassembler, create, update_size, store, flush, empty}
use cpp_tcp.Reassembler.Assemble.{Run}
use cpp_tcp.Reassembler.Store.{Stored, Agrees, Keeps, store-Keeps, store-Stored}

-- The stored bytes and the output are those of the stream `src`, up to `first_unassembled`.
pub record Delivers (src : ℕ → ℕ) (r : StreamReassembler) : Type 0 where
  pub valid : IsValid r.output
  pub same_capacity : r.output.capacity ≡ r.capacity
  pub same_length : length r.count ≡ length r.buffer
  pub in_buffer : r.first_unassembled ≤ length r.buffer
  pub in_window : length r.buffer ≤ r.output.read_count + r.capacity
  pub stored : Stored src r
  pub held : contents r.output ≡ segment src r.output.read_count (buffer_size r.output)
  pub progress : r.output.end_flag ≡ false → r.output.written_count ≡ r.first_unassembled

-- A new reassembler delivers any stream.
pub create-Delivers :
    (src : ℕ → ℕ) (capacity : ℕ) → capacity + 1 < 2 ^ 63 → Delivers src (create capacity)
unfolding create ByteStream.create
create-Delivers src capacity small = record {
  valid = (create-IsValid capacity small).0;
  same_capacity = refl;
  same_length = refl;
  in_buffer = omega arith;
  in_window = omega (arith, length-replicate {A = ℕ} capacity 0);
  stored = λ j ne. absurd (ne (get_or-replicate capacity j 0));
  held = ground (arith, create-IsValid capacity small);
  progress = λ e. refl;
}

pub update_size-Delivers :
    {src : ℕ → ℕ} {r : StreamReassembler}
    → Delivers src r
    → r.output.read_count + r.capacity < 2 ^ 63
    → (e : Bool)
    → Delivers src (record (update_size r) { eofed = e })
      × (length (update_size r).buffer ≡ r.output.read_count + r.capacity)
unfolding update_size
update_size-Delivers {src} {r} d small e = (
  record {
    valid = d.valid;
    same_capacity = d.same_capacity;
    same_length = length-resize n 0 r.count ∙ sym (length-resize n 0 r.buffer);
    in_buffer = rw (length-resize n 0 r.buffer) (omega (arith, plain, d.in_buffer, d.in_window));
    in_window = rw (length-resize n 0 r.buffer) (omega (arith, plain));
    stored = λ j ne.
        rw (get_or-resize n 0 r.buffer j grows)
          (d.stored j (λ e. ne (rw (get_or-resize n 0 r.count j (omega (arith, grows))) e)));
    held = d.held;
    progress = d.progress;
  },
  length-resize n 0 r.buffer ∙ plain,
)
  where
    n : ℕ
    n = add64 r.output.read_count r.capacity

    plain : n ≡ r.output.read_count + r.capacity
    plain = omega arith

    grows : length r.buffer ≤ n
    grows = omega (arith, plain)

pub store-Delivers :
    {src : ℕ → ℕ} {r : StreamReassembler} (xs : List ℕ) (i : ℕ)
    → length r.buffer < 2 ^ 63
    → Agrees src xs i
    → Delivers src r
    → Delivers src (store r xs i)
store-Delivers {src} {r} xs i small a d = record {
  valid = rw k.output d.valid;
  same_capacity = rw (k.output, k.capacity) d.same_capacity;
  same_length = k.count ∙ d.same_length ∙ sym k.buffer;
  in_buffer = rw (k.first_unassembled, k.buffer) d.in_buffer;
  in_window = rw (k.output, k.capacity, k.buffer) d.in_window;
  stored = store-Stored src xs r i small a d.stored;
  held = rw k.output d.held;
  progress = rw (k.output, k.first_unassembled) d.progress;
}
  where
    k : Keeps r (store r xs i)
    k = store-Keeps xs r i

-- The bytes that the loop of `_update_output` takes are those of the stream.
Run-segment :
    {src : ℕ → ℕ} (r : StreamReassembler) (s : List ℕ) (first : ℕ)
    → Stored src r
    → Run r.buffer r.count r.first_unassembled [] (s, first)
    → s ≡ segment src r.first_unassembled (first - r.first_unassembled)
Run-segment {src} r s first stored run =
    run.bytes
    ∙ segment-eq (λ i. get_or r.buffer i 0) src r.first_unassembled _
        (λ k lo hi. stored k (run.filled k lo (omega (arith, run.onward))))

-- Writing them extends the stream that the output holds.
write-held :
    {src : ℕ → ℕ} {r : StreamReassembler} (s : List ℕ) (first : ℕ)
    → r.output.read_count + r.capacity < 2 ^ 63
    → r.output.end_flag ≡ false
    → Delivers src r
    → Run r.buffer r.count r.first_unassembled [] (s, first)
    → let out = (ByteStream.write r.output s).0 in
      IsValid out
      × (out.capacity ≡ r.output.capacity)
      × (out.read_count ≡ r.output.read_count)
      × (out.written_count ≡ first)
      × (contents out ≡ segment src out.read_count (buffer_size out))
write-held {src} {r} s first small e d run = (
  f.valid,
  f.capacity,
  f.read_count,
  omega (arith, f.written_count, taken, behind, run.onward),
  same ∙ sym (ap₂ (segment src) f.read_count (f.size ∙ ap (λ k. size + k) taken)),
)
  where
    size : ℕ
    size = buffer_size r.output

    first' : ℕ
    first' = r.first_unassembled

    taken : length s ≡ first - first'
    taken =
        ap length (Run-segment r s first d.stored run) ∙ length-segment src first' (first - first')

    behind : r.output.read_count + size ≡ first'
    behind = omega (arith, d.progress e, buffer_size-le d.valid)

    f : Appended r.output s (ByteStream.write r.output s).0
    f = write-Appended s d.valid e (omega (arith, taken, behind, run.onward))

    same :
        contents (ByteStream.write r.output s).0
        ≡ segment src r.output.read_count (size + (first - first'))
    same =
        f.joined
        ∙ ap₂ ◌++◌ d.held (Run-segment r s first d.stored run)
        ∙ ap (λ k. segment src r.output.read_count size ++ segment src k (first - first'))
            (sym behind)
        ∙ segment-append src r.output.read_count size (first - first')

pub end-Delivers :
    {src : ℕ → ℕ} {r : StreamReassembler}
    → Delivers src r
    → Delivers src (record r { output = ByteStream.end_input r.output })
end-Delivers {src} {r} d = record {
  valid = (end_input_refines d.valid).0;
  same_capacity = unfold ByteStream.end_input in d.same_capacity;
  same_length = d.same_length;
  in_buffer = d.in_buffer;
  in_window = unfold ByteStream.end_input in d.in_window;
  stored = d.stored;
  held = unfold ByteStream.end_input buffer_size in d.held;
  progress = unfold ByteStream.end_input in λ e. cc;
}

-- The state of `flush` before it looks for the end.
abbrev written : StreamReassembler → List ℕ → ℕ → StreamReassembler
written r s first = record r { output = (ByteStream.write r.output s).0; first_unassembled = first }

written-Delivers :
    {src : ℕ → ℕ} {r : StreamReassembler} (s : List ℕ) (first : ℕ)
    → r.output.read_count + r.capacity < 2 ^ 63
    → Delivers src r
    → Run r.buffer r.count r.first_unassembled [] (s, first)
    → Delivers src (written r s first)
written-Delivers {src} {r} s first small d run = elim (Bool-cases r.output.end_flag) [
  | inl ended ↦
      let same = write_ended r.output s ended in
      record {
        valid = rw same d.valid;
        same_capacity = rw same d.same_capacity;
        same_length = d.same_length;
        in_buffer = omega (arith, run.inside, d.same_length);
        in_window = rw same d.in_window;
        stored = d.stored;
        held = rw same d.held;
        progress = rw same (λ e. cc);
      }
  | inr open_input ↦
      let (valid, capacity, read, count, held) = write-held s first small open_input d run in
      record {
        valid = valid;
        same_capacity = capacity ∙ d.same_capacity;
        same_length = d.same_length;
        in_buffer = omega (arith, run.inside, d.same_length);
        in_window = rw read d.in_window;
        stored = d.stored;
        held = held;
        progress = λ e. count;
      }
]

pub flush-Delivers :
    {src : ℕ → ℕ} {r : StreamReassembler} (s : List ℕ) (first : ℕ)
    → r.output.read_count + r.capacity < 2 ^ 63
    → Delivers src r
    → Run r.buffer r.count r.first_unassembled [] (s, first)
    → Delivers src (flush r s first)
unfolding flush
flush-Delivers {src} {r} s first small d run =
    elim (Bool-cases (r.eofed && empty (written r s first))) [
      | inl ends ↦ rw ends (end-Delivers (written-Delivers s first small d run))
      | inr goes_on ↦ rw goes_on (written-Delivers s first small d run)
    ]

-- If the output has not ended before, `flush` writes all bytes that are there, also when it then ends
-- the output.
pub flush-written_count :
    {src : ℕ → ℕ} {r : StreamReassembler} (s : List ℕ) (first : ℕ)
    → r.output.read_count + r.capacity < 2 ^ 63
    → r.output.end_flag ≡ false
    → Delivers src r
    → Run r.buffer r.count r.first_unassembled [] (s, first)
    → (flush r s first).output.written_count ≡ first
unfolding flush ByteStream.end_input
flush-written_count {src} {r} s first small open_input d run =
    let (_, _, _, count, _) = write-held s first small open_input d run in ground (arith, count)
