-- ===== src/Reassembler/Push.antt =====
-- `push_substring` as a whole: what it delivers, and when it reads behind its vectors.
use cpp_tcp.Common.{
  ℕ, suc, ◌+◌, ◌-◌, ◌^◌, ◌≤◌, ◌<◌, ◌≡◌, ◌≢◌, ◌⊎◌, sym, ap, ◌∙◌, Bool, Bool-cases, inl, inr, true,
  ◌||◌, List, [], arith, add64, length, get_or, get_or-resize, >>=-eq-ok, ok-injective, ok, err,
  Error,
}
use cpp_tcp.ByteStream
use cpp_tcp.ByteStream.{ByteStream, buffer_size, end_input}
use cpp_tcp.ByteStream.Invariant.{IsValid}
use cpp_tcp.ByteStream.Refine.{write-read_count}
use cpp_tcp.Reassembler.{
  StreamReassembler, update_size, store, assemble, flush, update_output, push_substring,
}
use cpp_tcp.Reassembler.Assemble.{Run, assemble_undefined, assemble_ok}
use cpp_tcp.Reassembler.Store.{Agrees, store-Keeps, store-count_inside}
use cpp_tcp.Reassembler.Delivery.{
  Delivers, update_size-Delivers, store-Delivers, flush-Delivers, flush-written_count,
}
use mathlib.Core.Path.{subst}

-- An index that the substring leaves without a byte in the window.
pub record Missing (r : StreamReassembler) (xs : List ℕ) (i k : ℕ) : Type 0 where
  pub after : r.first_unassembled ≤ k
  pub before : k < r.output.read_count + r.capacity
  pub unstored : get_or r.count k 0 ≡ 0
  pub uncovered : (k < i) ⊎ (i + length xs ≤ k)

-- The state of `push_substring` before `_update_output`.
abbrev pub ready : StreamReassembler → List ℕ → ℕ → Bool → StreamReassembler
ready r xs i eof =
    let sized = update_size r in store (record sized { eofed = sized.eofed || eof }) xs i

pub record IsReady (src : ℕ → ℕ) (r r' : StreamReassembler) : Type 0 where
  pub delivers : Delivers src r'
  pub size : length r'.buffer ≡ r.output.read_count + r.capacity
  pub output : r'.output ≡ r.output
  pub capacity : r'.capacity ≡ r.capacity
  pub first_unassembled : r'.first_unassembled ≡ r.first_unassembled

pub ready-IsReady :
    {src : ℕ → ℕ} {r : StreamReassembler} (xs : List ℕ) (i : ℕ) (eof : Bool)
    → r.output.read_count + r.capacity < 2 ^ 63
    → Delivers src r
    → Agrees src xs i
    → IsReady src r (ready r xs i eof)
unfolding update_size
ready-IsReady {src} {r} xs i eof small d a =
    let (sized, size) = update_size-Delivers d small (r.eofed || eof) in
    let k = store-Keeps xs (record (update_size r) { eofed = r.eofed || eof }) i in
    record {
      delivers = store-Delivers xs i (rw size small) a sized;
      size = k.buffer ∙ size;
      output = k.output;
      capacity = k.capacity;
      first_unassembled = k.first_unassembled;
    }

-- What a call of `push_substring` has done: the output still holds the stream `src` without gap or
-- change, all indices before `first_unassembled` have their bytes and this one has none, and if the
-- output had not ended before the call, the bytes written reach up to this index.
pub record Pushed (src : ℕ → ℕ) (r r' : StreamReassembler) : Type 0 where
  pub delivers : Delivers src r'
  pub onward : r.first_unassembled ≤ r'.first_unassembled
  pub filled :
      (j : ℕ) → r.first_unassembled ≤ j → j < r'.first_unassembled → get_or r'.count j 0 ≢ 0
  pub stopped : get_or r'.count r'.first_unassembled 0 ≡ 0
  pub reached : (r.output.end_flag ≡ true) ⊎ (r'.output.written_count ≡ r'.first_unassembled)
  pub capacity : r'.capacity ≡ r.capacity
  pub read_count : r'.output.read_count ≡ r.output.read_count

flush_fields :
    (r : StreamReassembler) (s : List ℕ) (first : ℕ)
    → ((flush r s first).first_unassembled ≡ first) × ((flush r s first).count ≡ r.count)
unfolding flush
flush_fields r s first = ground arith

flush-capacity :
    (r : StreamReassembler) (s : List ℕ) (first : ℕ) → (flush r s first).capacity ≡ r.capacity
unfolding flush
flush-capacity r s first = ground arith

flush-read_count :
    (r : StreamReassembler) (s : List ℕ) (first : ℕ)
    → IsValid r.output
    → (flush r s first).output.read_count ≡ r.output.read_count
unfolding flush ByteStream.end_input
flush-read_count r s first v = ground (arith, write-read_count s v)

pub flush-Pushed :
    {src : ℕ → ℕ} {r : StreamReassembler} (r' : StreamReassembler) (s : List ℕ) (first : ℕ)
    → r.output.read_count + r.capacity < 2 ^ 63
    → IsReady src r r'
    → Run r'.buffer r'.count r'.first_unassembled [] (s, first)
    → Pushed src r (flush r' s first)
flush-Pushed {r = r} r' s first small q run =
    let (moved, same) = flush_fields r' s first in
    record {
      delivers = flush-Delivers s first (rw (q.output, q.capacity) small) q.delivers run;
      onward = rw (moved, ← q.first_unassembled) run.onward;
      filled = rw (moved, same, ← q.first_unassembled) run.filled;
      stopped = rw (moved, same) run.stopped;
      reached = elim (Bool-cases r.output.end_flag) [
        | inl ended ↦ inl ended
        | inr open_yet ↦ inr (
            flush-written_count s first (rw (q.output, q.capacity) small)
              (ap (λ (o : ByteStream). o.end_flag) q.output ∙ open_yet) q.delivers run
            ∙ sym moved)
      ];
      capacity = flush-capacity r' s first ∙ q.capacity;
      read_count =
          flush-read_count r' s first q.delivers.valid
          ∙ ap (λ (o : ByteStream). o.read_count) q.output;
    }

-- The counts of the indices in the window that it covers.
ready-count_inside :
    {src : ℕ → ℕ} {r : StreamReassembler} (xs : List ℕ) (i k : ℕ) (eof : Bool)
    → r.output.read_count + r.capacity < 2 ^ 63
    → Delivers src r
    → get_or r.count k 0 < 2 ^ 64 - 1
    → i ≤ k
    → k < i + length xs
    → k < r.output.read_count + r.capacity
    → get_or (ready r xs i eof).count k 0 ≡ get_or r.count k 0 + 1
unfolding update_size
ready-count_inside {src} {r} xs i k eof small d max lo hi inside =
    let (sized, size) = update_size-Delivers d small eof in
    let same =
      get_or-resize (add64 r.output.read_count r.capacity) 0 r.count k
        (omega (arith, d.same_length, d.in_window)) in
    store-count_inside xs (record (update_size r) { eofed = r.eofed || eof }) i k (rw size small)
      sized.same_length (rw same max) lo hi (rw size inside)
    ∙ ap (λ (c : ℕ). c + 1) same

-- The same holds whenever `push_substring` returns.
pub push_substring_ok :
    {src : ℕ → ℕ} {r r' : StreamReassembler} (xs : List ℕ) (i : ℕ) (eof : Bool)
    → r.output.read_count + r.capacity < 2 ^ 63
    → Delivers src r
    → Agrees src xs i
    → push_substring r xs i eof ≡ ok r'
    → Pushed src r r'
unfolding push_substring update_output
push_substring_ok {src} {r} {r'} xs i eof small d a e =
    let q = ready-IsReady xs i eof small d a in
    let mid = ready r xs i eof in
    let counted : length mid.count ≡ r.output.read_count + r.capacity =
      q.delivers.same_length ∙ q.size in
    let (out, runs, flushed) = >>=-eq-ok (assemble _ _ _ _ _) _ e in
    subst (Pushed src r) (ok-injective flushed) (
      flush-Pushed mid out.0 out.1 small q (
        assemble_ok mid.buffer mid.count (suc (length mid.count)) mid.first_unassembled [] out
          (sym q.delivers.same_length) (rw counted small) runs))

-- If the substring reaches from the first unassembled index to the end of the window, the loop of
-- `_update_output` reads `_count` behind its end, which has no defined result.
pub push_substring_undefined :
    {src : ℕ → ℕ} {r : StreamReassembler} (xs : List ℕ) (i : ℕ) (eof : Bool)
    → r.output.read_count + r.capacity < 2 ^ 63
    → Delivers src r
    → Agrees src xs i
    → ((k : ℕ) → get_or r.count k 0 < 2 ^ 64 - 1)
    → i ≤ r.first_unassembled
    → r.output.read_count + r.capacity ≤ i + length xs
    → push_substring r xs i eof ≡ err Error.undefined
unfolding push_substring update_output
push_substring_undefined {src} {r} xs i eof small d a max lo hi =
    let q = ready-IsReady xs i eof small d a in
    let r' = ready r xs i eof in
    let counted : length r'.count ≡ r.output.read_count + r.capacity =
      q.delivers.same_length ∙ q.size in
    rw (
      assemble_undefined r'.buffer r'.count (suc (length r'.count)) r'.first_unassembled []
        (sym q.delivers.same_length) (rw counted small)
        (rw q.delivers.same_length q.delivers.in_buffer) (omega arith)
        (λ k after before.
          let bumped =
            ready-count_inside xs i k eof small d (max k) (omega (arith, q.first_unassembled))
              (omega (arith, counted)) (omega (arith, counted)) in
          omega (arith, bumped)))
