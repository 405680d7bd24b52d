-- ===== src/Tests/Streams.antt =====
-- Sequence numbers, byte streams and reassembly at concrete inputs.
use cpp_tcp.Common.{
  ◌⊎◌, ℕ, ◌+◌, ◌*◌, ◌-◌, ◌^◌, ◌≤◌, ◌≡◌, refl, true, false, arith, List, [], ◌∷◌, ok, err, Error,
  Result, Returns, segment, get_or-replicate,
}
use cpp_tcp.Wrapping.{wrap, unwrap}
use cpp_tcp.Wrapping.Laws.{unwrap_closest, unwrap-wrap_first_block, dist}
use cpp_tcp.ByteStream
use cpp_tcp.ByteStream.{ByteStream}
use cpp_tcp.ByteStream.Invariant
use cpp_tcp.ByteStream.Invariant.{sizes_lem}
use cpp_tcp.ByteStream.Spec
use cpp_tcp.ByteStream.Refine.{view, write_refines, pop_refines}
use cpp_tcp.Reassembler
use cpp_tcp.Reassembler.{StreamReassembler, push_substring, empty}
use cpp_tcp.Reassembler.Store
use cpp_tcp.Reassembler.Delivery.{create-Delivers}
use cpp_tcp.Reassembler.Ends.{push_substring_ends}
use cpp_tcp.Reassembler.Push.{Pushed, push_substring_undefined}
use cpp_tcp.Reassembler.Calls.{Call, pushes, reads, run, step, reads_are_prefix}
use cpp_tcp.Reassembler.Ending.{empty_last_substring_ends}

unwrap_closest_example :
    dist (unwrap 3 0 (3 * 2 ^ 32 + 100)) (3 * 2 ^ 32 + 100) ≤ dist (2 ^ 32 + 3) (3 * 2 ^ 32 + 100)
unfolding wrap
unwrap_closest_example =
    unwrap_closest 3 0 (3 * 2 ^ 32 + 100) (2 ^ 32 + 3) (omega arith) (omega arith) (omega arith)
      (λ e. absurd (ground (arith, e))) (omega arith) refl

-- The checkpoint is 2 ^ 32 + 1 and the number meant is 2 ^ 32 - 1.
unwrap-wrap_first_block_example : unwrap (wrap (2 ^ 32 - 1) 0) 0 (2 ^ 32 + 1) ≡ 2 ^ 32 - 1 + 2 ^ 32
unwrap-wrap_first_block_example =
    unwrap-wrap_first_block (2 ^ 32 - 1) 0 (2 ^ 32 + 1) (omega arith) (omega arith) (omega arith)
      refl refl

abbrev three_bytes : List ℕ
three_bytes = 1 ∷ 2 ∷ 3 ∷ []

abbrev three : ByteStream
three = (ByteStream.write (ByteStream.create 4) three_bytes).0

write_refines_example :
    Invariant.IsValid three
    × (view three ≡ (Spec.write (view (ByteStream.create 4)) three_bytes).0)
    × ((ByteStream.write (ByteStream.create 4) three_bytes).1
        ≡ (Spec.write (view (ByteStream.create 4)) three_bytes).1)
write_refines_example =
    write_refines {s = ByteStream.create 4} three_bytes (Invariant.create-IsValid 4 (omega arith)).0

three-IsValid : Invariant.IsValid three
three-IsValid = (write_refines three_bytes (Invariant.create-IsValid 4 (omega arith)).0).0

pop_refines_example :
    Invariant.IsValid (ByteStream.pop_output three 2)
    × (view (ByteStream.pop_output three 2) ≡ Spec.pop (view three) 2)
pop_refines_example = pop_refines {s = three} 2 three-IsValid

-- Reading more than is held gives what is held.
read_more : (ByteStream.read three 9).0 ≡ three_bytes
unfolding ByteStream.read ByteStream.write ByteStream.create ByteStream.write_loop ByteStream.put
    ByteStream.peek_output ByteStream.peek_loop ByteStream.buffer_size ByteStream.buffer_full
    ByteStream.next_index_of
read_more = refl

-- A stream whose byte at index `j` is `j + 10`.
abbrev tens : ℕ → ℕ
tens j = j + 10

-- The second byte arrives before the first.
abbrev history : List Call
history = pushes (11 ∷ []) 1 false ∷ pushes (10 ∷ []) 0 false ∷ reads 2 ∷ []

abbrev outcome : {A : Type 0} → A → Result A → A
outcome a (ok b) = b
outcome a (err e) = a

abbrev after_history : StreamReassembler
after_history = (outcome ([], Reassembler.create 4) (run (Reassembler.create 4) history)).1

tens_11 : Store.Agrees tens (11 ∷ []) 1
tens_11 k lt = ground (arith, lt)

tens_10 : Store.Agrees tens (10 ∷ []) 0
tens_10 k lt = ground (arith, lt)

reads_are_prefix_example : 10 ∷ 11 ∷ [] ≡ segment tens 0 2
unfolding run step Reassembler.create ByteStream.create push_substring Reassembler.update_output
    Reassembler.update_size Reassembler.store Reassembler.store_byte Reassembler.assemble
    Reassembler.flush Reassembler.empty Reassembler.count_stored ByteStream.write
    ByteStream.write_loop ByteStream.put ByteStream.peek_output ByteStream.peek_loop
    ByteStream.pop_output ByteStream.buffer_size ByteStream.buffer_full ByteStream.next_index_of
    ByteStream.end_input
reads_are_prefix_example =
    reads_are_prefix tens 4 history (10 ∷ 11 ∷ []) after_history (omega arith)
      (tens_11, (tens_10, tt)) refl

push_substring_ends_example :
    Returns
      (Pushed tens (Reassembler.create 4))
      (push_substring (Reassembler.create 4) (10 ∷ []) 0 false)
    ⊎ (push_substring (Reassembler.create 4) (10 ∷ []) 0 false ≡ err Error.undefined)
unfolding Reassembler.create ByteStream.create
push_substring_ends_example =
    push_substring_ends {src = tens} {r = Reassembler.create 4} (10 ∷ []) 0 false (omega arith)
      (create-Delivers tens 4 (omega arith)) tens_10

-- The substring fills the window of one byte.
push_substring_undefined_example :
    push_substring (Reassembler.create 1) (10 ∷ []) 0 false ≡ err Error.undefined
unfolding Reassembler.create ByteStream.create
push_substring_undefined_example =
    push_substring_undefined {src = tens} {r = Reassembler.create 1} (10 ∷ []) 0 false (omega arith)
      (create-Delivers tens 1 (omega arith)) tens_10
      (λ k. ground (arith, get_or-replicate {A = ℕ} 1 k 0)) (omega arith) (omega arith)

-- The last substring is said to begin at index 3, and nothing has arrived before it.
empty_last_substring_ends_example :
    Returns
      (λ r'. (ByteStream.input_ended r'.output ≡ true) × (r'.first_unassembled ≡ 0))
      (push_substring (Reassembler.create 4) [] 3 true)
unfolding Reassembler.create ByteStream.create Reassembler.empty Reassembler.count_stored
empty_last_substring_ends_example =
    empty_last_substring_ends {src = tens} {r = Reassembler.create 4} 3 (omega arith)
      (create-Delivers tens 4 (omega arith)) refl refl (omega arith)
