-- ===== src/Reassembler/Assemble.antt =====
-- The loop of `_update_output`: which bytes it takes, and when it reads past the vectors.
use cpp_tcp.Common.{
  ℕ, zero, suc, ◌+◌, ◌-◌, ◌^◌, ◌≤◌, ◌<◌, ◌≡◌, ◌≢◌, refl, sym, ap, ◌∙◌, List, [], ◌∷◌, ◌++◌, some,
  arith, length, get_or, get_elem?, get_elem?-eq-get_or, get_elem?-eq-none, segment, append_assoc,
  append-nil, ℕ_discrete, dec_lt, Returns, Result, ok, err, Error,
}
use cpp_tcp.Reassembler.{assemble}

-- The bytes of `out` are the stored ones from `first` up to the first index with no byte.
pub record Run (buffer count : List ℕ) (first : ℕ) (s : List ℕ) (out : List ℕ × ℕ) : Type 0 where
  pub onward : first ≤ out.1
  pub inside : out.1 < length count
  pub filled : (i : ℕ) → first ≤ i → i < out.1 → get_or count i 0 ≢ 0
  pub stopped : get_or count out.1 0 ≡ 0
  pub bytes : out.0 ≡ s ++ segment (λ i. get_or buffer i 0) first (out.1 - first)

module _ (buffer count : List ℕ) where
  pub assemble_stop :
      (fuel first : ℕ) (s : List ℕ)
      → get_elem? count first ≡ some 0
      → assemble (suc fuel) buffer count first s ≡ ok (s, first)
  unfolding assemble
  assemble_stop fuel first s e = rw (e, assemble)

  pub assemble_next :
      (fuel first : ℕ) (s : List ℕ) (n : ℕ)
      → get_elem? count first ≡ some n
      → n ≢ 0
      → first < length buffer
      → first < 2 ^ 63
      → assemble (suc fuel) buffer count first s
        ≡ assemble fuel buffer count (suc first) (s ++ get_or buffer first 0 ∷ [])
  unfolding assemble
  assemble_next fuel first s zero e ne lt small = absurd (ne refl)
  assemble_next fuel first s (suc n) e ne lt small = ground arith

  segment_first :
      (first k : ℕ) (s : List ℕ)
      → suc first ≤ k
      → (s ++ get_or buffer first 0 ∷ [])
          ++ segment (λ i. get_or buffer i 0) (suc first) (k - suc first)
        ≡ s ++ segment (λ i. get_or buffer i 0) first (k - first)
  segment_first first k s h =
      let e : k - first ≡ suc (k - suc first) = omega arith in rw (e, append_assoc)

  pub Run-step :
      (first : ℕ) (s : List ℕ) (r : Result (List ℕ × ℕ))
      → get_or count first 0 ≢ 0
      → Returns (Run buffer count (suc first) (s ++ get_or buffer first 0 ∷ [])) r
      → Returns (Run buffer count first s) r
  Run-step first s (ok (t, k)) ne w = record {
    onward = omega arith;
    inside = w.inside;
    filled = λ i lo hi. elim (ℕ_discrete i first) [
      | yes e ↦ rw e ne
      | no other ↦ w.filled i (omega arith) hi
    ];
    stopped = w.stopped;
    bytes = w.bytes ∙ segment_first first k s w.onward;
  }
  Run-step first s (err e) ne w = w

  pub Run-here :
      (first : ℕ) (s : List ℕ)
      → first < length count
      → get_or count first 0 ≡ 0
      → Run buffer count first s (s, first)
  Run-here first s inside e = record {
    onward = omega arith;
    inside = inside;
    filled = λ i lo hi. absurd (omega arith);
    stopped = e;
    bytes = ground (arith, append-nil s);
  }

  -- If some index from `first` on has no byte yet, the loop ends by its test at the first such index.
  pub assemble-Run :
      (fuel first : ℕ) (s : List ℕ) (k : ℕ)
      → length buffer ≡ length count
      → length count < 2 ^ 63
      → length count < first + fuel
      → first ≤ k
      → k < length count
      → get_or count k 0 ≡ 0
      → Returns (Run buffer count first s) (assemble fuel buffer count first s)
  assemble-Run zero first s k same small hf lo hi gap = absurd (omega arith)
  assemble-Run (suc fuel) first s k same small hf lo hi gap =
      elim (ℕ_discrete (get_or count first 0) 0) [
        | yes e ↦ rw (assemble_stop fuel first s (found e)) (Run-here first s (omega arith) e)
        | no ne ↦ rw (assemble_next fuel first s _ (found refl) ne (omega arith) (omega arith)) (
            Run-step first s _ ne (
              assemble-Run fuel (suc first) (s ++ get_or buffer first 0 ∷ []) k same small
                (omega arith) (after ne) hi gap))
      ]
    where
      found : {n : ℕ} → get_or count first 0 ≡ n → get_elem? count first ≡ some n
      found e = get_elem?-eq-get_or count first 0 (omega arith) ∙ ap some e

      after : get_or count first 0 ≢ 0 → first < k
      after ne = elim (ℕ_discrete first k) [
        | yes e ↦ absurd (ne (rw e gap))
        | no other ↦ omega arith
      ]

  -- If every index from `first` on has a byte, the loop reads `_count` behind its end.
  pub assemble_undefined :
      (fuel first : ℕ) (s : List ℕ)
      → length buffer ≡ length count
      → length count < 2 ^ 63
      → first ≤ length count
      → length count < first + fuel
      → ((i : ℕ) → first ≤ i → i < length count → get_or count i 0 ≢ 0)
      → assemble fuel buffer count first s ≡ err Error.undefined
  unfolding assemble
  assemble_undefined zero first s same small lo hf filled = absurd (omega arith)
  assemble_undefined (suc fuel) first s same small lo hf filled =
      elim (ℕ_discrete first (length count)) [
        | yes e ↦ rw (get_elem?-eq-none count first (omega arith), assemble)
        | no other ↦
            rw
              (assemble_next fuel first s _ (get_elem?-eq-get_or count first 0 (omega arith))
                (filled first (omega arith) (omega arith)) (omega arith) (omega arith))
              (assemble_undefined fuel (suc first) (s ++ get_or buffer first 0 ∷ []) same small
                (omega arith) (omega arith) (λ i lo' hi. filled i (omega arith) hi))
      ]

  pub assemble_past :
      (fuel first : ℕ) (s : List ℕ)
      → length count ≤ first
      → assemble (suc fuel) buffer count first s ≡ err Error.undefined
  unfolding assemble
  assemble_past fuel first s h = rw (get_elem?-eq-none count first h, assemble)

  -- If the loop ends, it took a run of stored bytes.
  pub assemble_ok :
      (fuel first : ℕ) (s : List ℕ) (out : List ℕ × ℕ)
      → length buffer ≡ length count
      → length count < 2 ^ 63
      → assemble fuel buffer count first s ≡ ok out
      → Run buffer count first s out
  assemble_ok zero first s out same small e = unfold assemble in cc
  assemble_ok (suc fuel) first s out same small e = elim (dec_lt first (length count)) [
    | no past ↦ cc (e, assemble_past fuel first s (omega arith))
    | yes inside ↦ elim (ℕ_discrete (get_or count first 0) 0) [
      | yes z ↦
          let here : ◌≡◌ {A = List ℕ × ℕ} (s, first) out = cc (
            e,
            assemble_stop fuel first s (get_elem?-eq-get_or count first 0 inside ∙ ap some z),
          ) in
          rw (← here) (Run-here first s inside z)
      | no ne ↦
          let next =
            assemble_next fuel first s _ (get_elem?-eq-get_or count first 0 inside) ne (omega arith)
              (omega arith) in
          Run-step first s (ok out) ne (
            assemble_ok fuel (suc first) (s ++ get_or buffer first 0 ∷ []) out same small
              (sym next ∙ e))
    ]
  ]
