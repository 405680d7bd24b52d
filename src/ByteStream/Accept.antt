-- ===== src/ByteStream/Accept.antt =====
-- `write` with more bytes than fit: what a client needs of it.
use cpp_tcp.Common.{
  min_zero, min-suc, ℕ, zero, suc, ◌+◌, ◌-◌, ◌≤◌, ◌≡◌, sym, ap, ◌∙◌, inl, inr, Bool-cases, true,
  false, arith, List, [], ◌∷◌, ◌++◌, min, length, take, length-append, length-take, drop, ap₂,
  take-append-drop, take-take,
}
use cpp_tcp.ByteStream.{ByteStream, write, buffer_size, peek_output, pop_output}
use cpp_tcp.ByteStream.Invariant.{IsValid}
use cpp_tcp.ByteStream.Window.{contents, length-contents}
use cpp_tcp.ByteStream.Spec
use cpp_tcp.ByteStream.Refine.{write_refines, peek_refines, pop_output-Popped}

pub take-min : {A : Type 0} (n : ℕ) (xs : List A) → take (min (length xs) n) xs ≡ take n xs
take-min zero xs = rw (min_zero (length xs))
take-min (suc n) [] = ground arith
take-min (suc n) (x ∷ xs) = rw (min-suc (length xs) n) (ap (λ ys. x ∷ ys) (take-min n xs))

-- The first bytes are taken, as many as the returned number says.
pub record Accepted (s : ByteStream) (bytes : List ℕ) (out : ByteStream × ℕ) : Type 0 where
  pub valid : IsValid out.0
  pub joined : contents out.0 ≡ contents s ++ take out.1 bytes
  pub few : out.1 ≤ length bytes
  pub taken : out.1 ≡ min (length bytes) (s.capacity - buffer_size s)
  pub size : buffer_size out.0 ≡ buffer_size s + out.1
  pub capacity : out.0.capacity ≡ s.capacity
  pub read_count : out.0.read_count ≡ s.read_count
  pub end_flag : out.0.end_flag ≡ false
  pub failed : out.0.failed ≡ s.failed

pub write-Accepted :
    {s : ByteStream} (bytes : List ℕ)
    → IsValid s
    → s.end_flag ≡ false
    → Accepted s bytes (write s bytes)
unfolding Spec.write
write-Accepted {s} bytes v open_yet =
    let (valid, same, count) = write_refines bytes v in
    let room = s.capacity - length (contents s) in
    let n : (write s bytes).1 ≡ min (length bytes) room = ground (arith, count, open_yet) in
    let joined : contents (write s bytes).0 ≡ contents s ++ take room bytes =
      ground (arith, same, open_yet) in
    let fits : take (write s bytes).1 bytes ≡ take room bytes =
      ap (λ k. take k bytes) n ∙ take-min room bytes in
    record {
      valid = valid;
      joined = joined ∙ ap (λ ys. contents s ++ ys) (sym fits);
      few = omega (arith, n);
      taken = n ∙ omega (arith, length-contents s);
      size =
          sym (length-contents (write s bytes).0)
          ∙ ap length joined
          ∙ omega (
            arith,
            length-append (contents s) (take room bytes),
            length-take room bytes,
            length-contents s,
            n,
          );
      capacity = ground (arith, same, open_yet);
      read_count = ground (arith, same, open_yet);
      end_flag = ground (arith, same, open_yet);
      failed = ground (arith, same, open_yet);
    }

-- After the end of the input nothing is taken.
pub write_refused : (s : ByteStream) (bytes : List ℕ) → s.end_flag ≡ true → write s bytes ≡ (s, 0)
unfolding write
write_refused s bytes e = ground (arith, e)

-- Never more is taken than there is.
pub write-few : (s : ByteStream) (bytes : List ℕ) → IsValid s → (write s bytes).1 ≤ length bytes
write-few s bytes v = elim (Bool-cases s.end_flag) [
  | inl ended ↦ omega (arith, ap (λ (x : ByteStream × ℕ). x.1) (write_refused s bytes ended))
  | inr open_yet ↦ (write-Accepted bytes v open_yet).few
]

-- The oldest bytes of a stream, and what a shorter `pop_output` leaves.
pub peeked_lem :
    {out : ByteStream} (n : ℕ)
    → IsValid out
    → let offer = peek_output out (min 65536 (buffer_size out)) in
      n ≤ length offer
      → (offer ≡ take 65536 (contents out))
        × (contents out ≡ take n offer ++ contents (pop_output out n))
unfolding Spec.peek
peeked_lem {out} n v few =
    let size = length-contents out in
    let offer : peek_output out (min 65536 (buffer_size out)) ≡ take 65536 (contents out) =
      peek_refines (min 65536 (buffer_size out)) v
      ∙ ap (λ m. take m (contents out)) (omega (arith, size))
      ∙ take-min 65536 (contents out) in
    let many : n ≤ buffer_size out =
      omega (arith, few, ap length offer, length-take 65536 (contents out), size) in
    let whole : min n (buffer_size out) ≡ n = omega (arith, many) in
    (
      offer,
      sym (take-append-drop n (contents out))
          ∙ ap₂ ◌++◌
              (sym (
                ap (take n) offer
                ∙ take-take n 65536 (contents out)
                    (omega (arith, few, ap length offer, length-take 65536 (contents out)))))
              (ap (λ m. drop m (contents out)) (sym whole) ∙ sym (pop_output-Popped n v).rest),
    )
