-- ===== src/Reassembler/Calls.antt =====
-- Any history of calls: substrings pushed in any order, and reads of the output in between.
use cpp_tcp.Common.{
  ℕ, ◌+◌, ◌-◌, ◌^◌, ◌≤◌, ◌<◌, ◌≡◌, refl, ap, ap₂, ◌∙◌, sym, Bool, List, arith, length, segment,
  drop, take, drop-segment, take-segment, length-segment, segment-append, length-append, min,
  Result, ok, ◌>>=◌, >>=-eq-ok, ok-injective, [], ◌∷◌, ◌++◌,
}
use mathlib.Core.Path.{subst}
use cpp_tcp.ByteStream
use cpp_tcp.ByteStream.{ByteStream, buffer_size, pop_output, peek_output}
use cpp_tcp.ByteStream.Invariant.{buffer_size-le}
use cpp_tcp.ByteStream.Refine.{pop_output-Popped, peek_refines}
use cpp_tcp.ByteStream.Spec
use cpp_tcp.Reassembler.{StreamReassembler, create, push_substring}
use cpp_tcp.Reassembler.Store.{Agrees}
use cpp_tcp.Reassembler.Delivery.{Delivers, create-Delivers}
use cpp_tcp.Reassembler.Push.{Pushed, push_substring_ok}

-- What the reader of `stream_out()` does to the reassembler.
abbrev pub pop : StreamReassembler → ℕ → StreamReassembler
pop r len = record r { output = pop_output r.output len }

pop-Delivers :
    {src : ℕ → ℕ} {r : StreamReassembler} (len : ℕ)
    → r.output.read_count + r.capacity < 2 ^ 63
    → Delivers src r
    → Delivers src (pop r len)
pop-Delivers {src} {r} len small d =
    let p = pop_output-Popped len d.valid in
    let n = min len (buffer_size r.output) in
    let moved : (pop_output r.output len).read_count ≡ r.output.read_count + n =
      omega (arith, p.read_count, buffer_size-le d.valid, d.same_capacity) in
    let left : buffer_size (pop_output r.output len) ≡ buffer_size r.output - n =
      omega (arith, p.size) in
    record {
      valid = p.valid;
      same_capacity = p.capacity ∙ d.same_capacity;
      same_length = d.same_length;
      in_buffer = d.in_buffer;
      in_window = omega (arith, moved, d.in_window);
      stored = d.stored;
      held =
          p.rest
          ∙ ap (drop n) d.held
          ∙ drop-segment src r.output.read_count n (buffer_size r.output)
          ∙ sym (ap₂ (segment src) moved left);
      progress = λ e. p.written_count ∙ d.progress (sym p.end_flag ∙ e);
    }

pub data Call : Type 0 where
  pushes : List ℕ → ℕ → Bool → Call
  reads : ℕ → Call

-- A call returns the bytes that it read, and the new state.
unfoldable pub step : StreamReassembler → Call → Result (List ℕ × StreamReassembler)
step r (pushes xs i eof) = do r' ← push_substring r xs i eof; ok ([], r')
step r (reads len) = ok (peek_output r.output len, pop r len)

-- The bytes read by all calls together, and the last state.
unfoldable pub run : StreamReassembler → List Call → Result (List ℕ × StreamReassembler)
run r [] = ok ([], r)
run r (c ∷ cs) = do (got, r') ← step r c; (more, r'') ← run r' cs; ok (got ++ more, r'')

-- Every substring is a part of the stream.
abbrev pub AllAgree : (ℕ → ℕ) → List Call → Type 0
AllAgree src [] = Unit {0}
AllAgree src (pushes xs i eof ∷ cs) = Agrees src xs i × AllAgree src cs
AllAgree src (reads len ∷ cs) = AllAgree src cs

abbrev pub total_reads : List Call → ℕ
total_reads [] = 0
total_reads (pushes xs i eof ∷ cs) = total_reads cs
total_reads (reads len ∷ cs) = len + total_reads cs

-- What a history of calls has read is the part of the stream from where the reader stood.
pub record Reads (src : ℕ → ℕ) (r : StreamReassembler) (out : List ℕ × StreamReassembler)
    : Type 0 where
  pub delivers : Delivers src out.1
  pub got : out.0 ≡ segment src r.output.read_count (length out.0)
  pub moved : out.1.output.read_count ≡ r.output.read_count + length out.0
  pub capacity : out.1.capacity ≡ r.capacity

Reads-join :
    {src : ℕ → ℕ} {r : StreamReassembler} (got more : List ℕ) (r' r'' : StreamReassembler)
    → Reads src r (got, r')
    → Reads src r' (more, r'')
    → Reads src r (got ++ more, r'')
Reads-join {src} {r} got more r' r'' p q = record {
  delivers = q.delivers;
  got =
      ap₂ ◌++◌ p.got (q.got ∙ ap (λ k. segment src k (length more)) p.moved)
      ∙ segment-append src r.output.read_count (length got) (length more)
      ∙ ap (segment src r.output.read_count) (sym (length-append got more));
  moved = omega (arith, p.moved, q.moved, length-append got more);
  capacity = q.capacity ∙ p.capacity;
}

push-Reads : {src : ℕ → ℕ} {r r' : StreamReassembler} → Pushed src r r' → Reads src r ([], r')
push-Reads p = record {
  delivers = p.delivers;
  got = refl;
  moved = omega (arith, p.read_count);
  capacity = p.capacity;
}

pub pop-Reads :
    {src : ℕ → ℕ} {r : StreamReassembler} (len : ℕ)
    → r.output.read_count + r.capacity < 2 ^ 63
    → Delivers src r
    → Reads src r (peek_output r.output len, pop r len) × (length (peek_output r.output len) ≤ len)
unfolding Spec.peek
pop-Reads {src} {r} len small d =
    let size = buffer_size r.output in
    let n = min len size in
    let got : peek_output r.output len ≡ segment src r.output.read_count n =
      peek_refines len d.valid
      ∙ ap (take len) d.held
      ∙ take-segment src r.output.read_count len size in
    let many : length (peek_output r.output len) ≡ n =
      ap length got ∙ length-segment src r.output.read_count n in
    (
      record {
        delivers = pop-Delivers len small d;
        got = got ∙ ap (segment src r.output.read_count) (sym many);
        moved = omega (
          arith,
          (pop_output-Popped len d.valid).read_count,
          many,
          buffer_size-le d.valid,
          d.same_capacity,
        );
        capacity = refl;
      },
      omega (arith, many),
    )

run-Reads :
    (src : ℕ → ℕ) (cs : List Call) (r : StreamReassembler) (out : List ℕ × StreamReassembler)
    → r.output.read_count + r.capacity + total_reads cs < 2 ^ 63
    → Delivers src r
    → AllAgree src cs
    → run r cs ≡ ok out
    → Reads src r out
unfolding run step
run-Reads src [] r out small d a e =
    subst (Reads src r) (ok-injective e)
      (record { delivers = d; got = refl; moved = omega arith; capacity = refl })
run-Reads src (pushes xs i eof ∷ cs) r out small d a e =
    let (first, stepped, next) = >>=-eq-ok (step r (pushes xs i eof)) _ e in
    let (r', pushed, same) = >>=-eq-ok (push_substring r xs i eof) _ stepped in
    let ((more, r''), ran, joined) = >>=-eq-ok (run first.1 cs) _ next in
    let p : Reads src r first =
      subst (Reads src r) (ok-injective same)
        (push-Reads (push_substring_ok xs i eof (omega arith) d a.0 pushed)) in
    let none_read : 0 ≡ length first.0 =
      ap (λ (x : List ℕ × StreamReassembler). length x.0) (ok-injective same) in
    subst (Reads src r) (ok-injective joined) (
      Reads-join first.0 more first.1 r'' p (
        run-Reads src cs first.1 (more, r'') (omega (arith, p.moved, p.capacity, none_read))
          p.delivers a.1 ran))
run-Reads src (reads len ∷ cs) r out small d a e =
    let ((more, r''), ran, joined) = >>=-eq-ok (run (pop r len) cs) _ e in
    let (p, few) = pop-Reads len (omega arith) d in
    subst (Reads src r) (ok-injective joined) (
      Reads-join (peek_output r.output len) more (pop r len) r'' p
        (run-Reads src cs (pop r len) (more, r'') (omega (arith, few, p.moved)) p.delivers a ran))

-- Reassembly is correct over every history: if the substrings pushed into a new reassembler, in any
-- order and overlapping at will, are parts of one stream, then all that was read is a front part of
-- that stream.
pub reads_are_prefix :
    (src : ℕ → ℕ) (capacity : ℕ) (cs : List Call) (got : List ℕ) (r : StreamReassembler)
    → capacity + 1 + total_reads cs < 2 ^ 63
    → AllAgree src cs
    → run (create capacity) cs ≡ ok (got, r)
    → got ≡ segment src 0 (length got)
unfolding create ByteStream.create
reads_are_prefix src capacity cs got r small a e =
    (run-Reads src cs (create capacity) (got, r) (omega arith)
      (create-Delivers src capacity (omega arith)) a e).got
