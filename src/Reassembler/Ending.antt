-- ===== src/Reassembler/Ending.antt =====
-- When `push_substring` ends the output: it compares the bytes assembled with the bytes seen.
use cpp_tcp.Common.{
  ℕ, ◌+◌, ◌^◌, ◌<◌, ◌≡◌, ap, ◌∙◌, true, [], arith, length, get_or, get_elem?-eq-get_or,
  get_or-resize, length-resize, resize, add64, some, Returns,
}
use cpp_tcp.ByteStream
use cpp_tcp.Reassembler.{
  StreamReassembler, update_size, store, flush, empty, update_output, push_substring,
}
use cpp_tcp.Reassembler.Assemble.{assemble_stop}
use cpp_tcp.Reassembler.Delivery.{Delivers}

-- An empty last substring ends the output at once if nothing waits, wherever in the stream the
-- substring stands: its index is never compared with the bytes assembled so far.
pub empty_last_substring_ends :
    {src : ℕ → ℕ} {r : StreamReassembler} (i : ℕ)
    → r.output.read_count + r.capacity < 2 ^ 63
    → Delivers src r
    → empty r ≡ true
    → get_or r.count r.first_unassembled 0 ≡ 0
    → r.first_unassembled < r.output.read_count + r.capacity
    → Returns
        (λ r'.
          (ByteStream.input_ended r'.output ≡ true) × (r'.first_unassembled ≡ r.first_unassembled))
        (push_substring r [] i true)
unfolding push_substring update_output update_size store flush empty ByteStream.end_input
empty_last_substring_ends {src} {r} i small d e gap lo =
    let n : ℕ = add64 r.output.read_count r.capacity in
    let size : length (resize n 0 r.count) ≡ n = length-resize n 0 r.count in
    let zero_there =
      get_elem?-eq-get_or (resize n 0 r.count) r.first_unassembled 0 (omega (arith, size))
      ∙ ap some (
          get_or-resize n 0 r.count r.first_unassembled (omega (arith, d.same_length, d.in_window))
          ∙ gap) in
    ground (
      arith,
      assemble_stop (resize n 0 r.buffer) (resize n 0 r.count) (length (resize n 0 r.count))
          r.first_unassembled [] zero_there,
    )
