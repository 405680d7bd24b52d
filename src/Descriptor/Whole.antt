-- ===== src/Descriptor/Whole.antt =====
-- Writing all of a buffer.
use cpp_tcp.Common.{
  ℕ, zero, suc, ◌+◌, ◌-◌, ◌^◌, ◌≤◌, ◌<◌, ◌≡◌, ◌⊎◌, refl, ap, ◌∙◌, arith, true, inl, inr, Bool-cases,
  ◌&&◌, not, ◌==◌, ltb, [], ◌∷◌, length, length-drop, if-both, add64, ok, err, Error, Returns,
  Returns-bind, Returns-map, IfReturns, IfReturns-bind, false, List,
}
use cpp_tcp.Buffer.Views
use cpp_tcp.Buffer.Views.{BufferViewList}
use cpp_tcp.EventLoop.{FdState}
use cpp_tcp.Descriptor.{write_loop, write, register_write}

-- The bytes that the views show.
abbrev pub total_length : BufferViewList → ℕ
total_length [] = 0
total_length (v ∷ vs) = length v + total_length vs

size_loop_lem :
    (total : ℕ) (vs : BufferViewList)
    → total + total_length vs < 2 ^ 64
    → Views.size_loop total vs ≡ total + total_length vs
size_loop_lem total [] small = omega arith
size_loop_lem total (v ∷ vs) small =
    let added : add64 total (length v) ≡ total + length v = omega (arith, small) in
    ap (λ k. Views.size_loop k vs) added
    ∙ size_loop_lem (total + length v) vs (omega (arith, small))
    ∙ omega arith

size_lem : (vs : BufferViewList) → total_length vs < 2 ^ 64 → Views.size vs ≡ total_length vs
size_lem vs small = size_loop_lem 0 vs (omega (arith, small)) ∙ omega arith

shortened_lem :
    (vs : BufferViewList) (n : ℕ)
    → n ≤ total_length vs
    → Returns (λ vs'. total_length vs' + n ≡ total_length vs) (Views.remove_prefix vs n)
unfolding Views.remove_prefix
shortened_lem vs zero few = omega arith
shortened_lem [] (suc n) few = absurd (omega (arith, few))
shortened_lem (v ∷ vs) (suc n) few = elim (Bool-cases (ltb (suc n) (length v))) [
  | inl inside ↦ rw inside (ground (arith, inside, length-drop (suc n) v))
  | inr whole ↦
      let long : length v ≤ suc n = ground (arith, whole) in
      rw whole (
        Returns-map _ _ (Views.remove_prefix vs (suc n - length v))
          (λ vs' e. omega (arith, e, long, few))
          (shortened_lem vs (suc n - length v) (omega (arith, few, long))))
]

-- `writev` takes some of what it is given, and never more: what its manual page says of a blocking
-- descriptor when it does not fail.
abbrev pub Progresses : (BufferViewList → ℕ) → Type 0
Progresses writev =
    (vs : BufferViewList) → (writev vs ≤ total_length vs) × (0 < total_length vs → 0 < writev vs)

write_loop_lem :
    (writev : BufferViewList → ℕ) (fuel : ℕ) (fd : FdState) (vs : BufferViewList) (total : ℕ)
    → Progresses writev
    → total_length vs < fuel
    → total + total_length vs < 2 ^ 64
    → Returns (λ out. out.0 ≡ total + total_length vs) (write_loop writev true fuel fd vs total)
unfolding write_loop
write_loop_lem writev zero fd vs total works enough small = absurd (omega (arith, enough))
write_loop_lem writev (suc fuel) fd vs total works enough small =
    let n = writev vs in
    let (few, pos) = works vs in
    let size = size_lem vs (omega (arith, small)) in
    let P = λ (out : ℕ × FdState). out.0 ≡ total + total_length vs in
    if-both (Returns P) (n == 0 && not (Views.size vs == 0)) (err Error.runtime_error) _
      (λ stuck.
        let given : 0 < total_length vs = ground (arith, stuck, size) in
        absurd (ground (arith, stuck, pos given)))
      λ moves.
        if-both (Returns P) (ltb (Views.size vs) n) (err Error.runtime_error) _
          (λ over. absurd (ground (arith, over, size, few)))
          λ fits.
            Returns-bind (λ vs'. total_length vs' + n ≡ total_length vs) P
              (Views.remove_prefix vs n) _ (shortened_lem vs n few)
              λ vs' left.
                let rest = size_lem vs' (omega (arith, left, small)) in
                if-both (Returns P) (not (Views.size vs' == 0))
                  (write_loop writev true fuel (register_write fd) vs' (add64 total n))
                  (ok (add64 total n, register_write fd))
                  (λ more.
                    let left_over : 0 < total_length vs' = ground (arith, more, rest) in
                    let moved = pos (omega (arith, left, left_over)) in
                    Returns-map _ P
                      (write_loop writev true fuel (register_write fd) vs' (add64 total n))
                      (λ out e. omega (arith, e, left, small))
                      (write_loop_lem writev fuel (register_write fd) vs' (add64 total n) works
                        (omega (arith, enough, left, moved)) (omega (arith, small, left))))
                  (λ done.
                    let nothing_left : total_length vs' ≡ 0 = ground (arith, done, rest) in
                    omega (arith, nothing_left, left, small))

-- Writing all of a buffer returns the number of its bytes, whatever pieces `writev` takes, if each call
-- takes a byte at least.
pub write-total :
    (writev : BufferViewList → ℕ) (fd : FdState) (vs : BufferViewList)
    → Progresses writev
    → total_length vs < 2 ^ 64
    → Returns (λ out. out.0 ≡ total_length vs) (write writev true fd vs)
unfolding write
write-total writev fd vs works small =
    Returns-map _ _ (write writev true fd vs) (λ out e. e ∙ omega arith)
      (write_loop_lem writev (suc (Views.size vs)) fd vs 0 works (omega (arith, size_lem vs small))
        (omega (arith, small)))

-- Writing once returns at most the number of the bytes.
pub write_once :
    (n : ℕ) (fd : FdState) (bytes : List ℕ)
    → length bytes < 2 ^ 64
    → IfReturns (λ out. out.0 ≤ length bytes) (write (λ _. n) false fd (Views.of_view bytes))
unfolding write write_loop
write_once n fd bytes small =
    let P = λ (out : ℕ × FdState). out.0 ≤ length bytes in
    let size : Views.size (bytes ∷ []) ≡ length bytes = omega (arith, small) in
    if-both (IfReturns P) (n == 0 && not (Views.size (bytes ∷ []) == 0)) (err Error.runtime_error) _
      (λ _. tt)
      λ _.
        if-both (IfReturns P) (ltb (Views.size (bytes ∷ [])) n) (err Error.runtime_error) _
          (λ _. tt)
          λ fits.
            IfReturns-bind P (Views.remove_prefix (bytes ∷ []) n) _
              λ rest. ground (arith, fits, size, small)

-- A write of some bytes of which `writev` takes `n`, one at least unless there are none.
pub write_takes :
    (n : ℕ) (fd : FdState) (bytes : List ℕ)
    → length bytes < 2 ^ 64
    → n ≤ length bytes
    → (0 < n) ⊎ (length bytes ≡ 0)
    → Returns
        (λ out. (out.0 ≡ n) × (out.1 ≡ register_write fd))
        (write (λ _. n) false fd (Views.of_view bytes))
unfolding write write_loop
write_takes n fd bytes small few some_taken =
    let P = λ (out : ℕ × FdState). (out.0 ≡ n) × (out.1 ≡ register_write fd) in
    let size : Views.size (bytes ∷ []) ≡ length bytes = omega (arith, small) in
    if-both (Returns P) (n == 0 && not (Views.size (bytes ∷ []) == 0)) (err Error.runtime_error) _
      (λ stuck. absurd (ground (arith, stuck, size, some_taken)))
      λ _.
        if-both (Returns P) (ltb (Views.size (bytes ∷ [])) n) (err Error.runtime_error) _
          (λ over. absurd (ground (arith, over, size, few)))
          λ fits.
            Returns-bind (λ vs'. total_length vs' + n ≡ total_length (bytes ∷ [])) P
              (Views.remove_prefix (bytes ∷ []) n) _
              (shortened_lem (bytes ∷ []) n (omega (arith, few)))
              λ rest left. (omega (arith, few, small), refl)
