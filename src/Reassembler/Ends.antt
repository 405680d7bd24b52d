-- ===== src/Reassembler/Ends.antt =====
-- The loop of `_update_output` ends within its fuel, and so does `push_substring`.
use cpp_tcp.Common.{
  ℕ, zero, suc, ◌+◌, ◌^◌, ◌≤◌, ◌<◌, ◌≡◌, ◌⊎◌, inl, inr, sym, ap, ◌∙◌, Bool, List, [], ◌∷◌, ◌++◌,
  arith, length, get_or, get_elem?-eq-get_or, ℕ_discrete, dec_lt, some, Returns, Returns-bind, ok,
  err, Error, ◌>>=◌,
}
use cpp_tcp.Reassembler.{StreamReassembler, assemble, flush, update_output, push_substring}
use cpp_tcp.Reassembler.Assemble.{
  Run, Run-step, Run-here, assemble_past, assemble_next, assemble_stop,
}
use cpp_tcp.Reassembler.Store.{Agrees}
use cpp_tcp.Reassembler.Delivery.{Delivers}
use cpp_tcp.Reassembler.Push.{Pushed, ready, ready-IsReady, flush-Pushed}

module _ (buffer count : List ℕ) where
  assemble_ends :
      (fuel first : ℕ) (s : List ℕ)
      → length buffer ≡ length count
      → length count < 2 ^ 63
      → first ≤ length count
      → length count < first + fuel
      → Returns (Run buffer count first s) (assemble fuel buffer count first s)
        ⊎ (assemble fuel buffer count first s ≡ err Error.undefined)
  assemble_ends zero first s same small lo hf = absurd (omega arith)
  assemble_ends (suc fuel) first s same small lo hf = elim (dec_lt first (length count)) [
    | no past ↦ inr (assemble_past buffer count fuel first s (omega arith))
    | yes inside ↦ elim (ℕ_discrete (get_or count first 0) 0) [
      | yes z ↦ inl (
          rw
            (assemble_stop buffer count fuel first s
              (get_elem?-eq-get_or count first 0 inside ∙ ap some z))
            (Run-here buffer count first s inside z))
      | no ne ↦
          let next =
            assemble_next buffer count fuel first s _ (get_elem?-eq-get_or count first 0 inside) ne
              (omega arith) (omega arith) in
          elim (assemble_ends fuel (suc first) (s ++ get_or buffer first 0 ∷ []) same small
            (omega arith) (omega arith)) [
              | inl run ↦ inl (rw next (Run-step buffer count first s _ ne run))
              | inr over ↦ inr (next ∙ over)
            ]
    ]
  ]

-- Every call of `push_substring` with a part of the stream ends: it returns, and the output then holds
-- the stream, if it had not ended before the call up to the first index with no byte, or it reads `_count` behind its end.
pub push_substring_ends :
    {src : ℕ → ℕ} {r : StreamReassembler} (xs : List ℕ) (i : ℕ) (eof : Bool)
    → r.output.read_count + r.capacity < 2 ^ 63
    → Delivers src r
    → Agrees src xs i
    → Returns (Pushed src r) (push_substring r xs i eof)
      ⊎ (push_substring r xs i eof ≡ err Error.undefined)
unfolding push_substring update_output
push_substring_ends {src} {r} xs i eof small d a =
    let q = ready-IsReady xs i eof small d a in
    let r' = ready r xs i eof in
    let counted : length r'.count ≡ r.output.read_count + r.capacity =
      q.delivers.same_length ∙ q.size in
    elim (assemble_ends r'.buffer r'.count (suc (length r'.count)) r'.first_unassembled []
      (sym q.delivers.same_length) (omega (arith, counted, small))
      (omega (arith, q.delivers.in_buffer, q.delivers.same_length)) (omega arith)) [
        | inl run ↦ inl (
            Returns-bind (Run r'.buffer r'.count r'.first_unassembled []) (Pushed src r) _ _ run
              λ (out : List ℕ × ℕ) done. flush-Pushed r' out.0 out.1 small q done)
        | inr over ↦ inr (ap (λ m. m >>= λ out. ok (flush r' out.0 out.1)) over)
      ]
