-- ===== src/Buffer/Views.antt =====
-- libsponge/util/buffer.hh and buffer.cc, `BufferViewList`: views of a string in several pieces. A
-- view is the bytes that it shows.
use cpp_tcp.Common.{
  ℕ, zero, suc, ◌-◌, ◌≡◌, refl, sym, ap, inl, inr, Bool-cases, arith, add64, ltb, List, [], ◌∷◌,
  length, drop, map, if◌then◌else◌, Result, ok, err, Error, ◌>>=◌, Returns, All,
}
use cpp_tcp.Buffer
use cpp_tcp.Buffer.{Buffer, str, IsValid, remove_prefix-drop}
use cpp_tcp.Buffer.Pieces
use cpp_tcp.Buffer.Pieces.{BufferList, concatenate}

-- `BufferViewList::_views`
abbrev pub BufferViewList : Type 0
BufferViewList = List (List ℕ)

-- The constructors from a string and from a `BufferList`.
abbrev pub of_view : List ℕ → BufferViewList
of_view bytes = bytes ∷ []

abbrev pub of_buffers : BufferList → BufferViewList
of_buffers bs = map str bs

unfoldable pub remove_prefix : BufferViewList → ℕ → Result BufferViewList
remove_prefix vs zero = ok vs
remove_prefix [] (suc n) = err Error.out_of_range
remove_prefix (v ∷ vs) (suc n) =
    let rest = remove_prefix vs (suc n - length v) in
    if ltb (suc n) (length v) then ok (drop (suc n) v ∷ vs) else rest

-- The loop of `BufferViewList::size`, with the sum so far.
abbrev pub size_loop : ℕ → BufferViewList → ℕ
size_loop total [] = total
size_loop total (v ∷ vs) = size_loop (add64 total (length v)) vs

abbrev pub size : BufferViewList → ℕ
size vs = size_loop 0 vs

-- `iovec`: the bytes at `iov_base`, and `iov_len`.
pub record Iovec : Type 0 where
  pub iov_base : List ℕ
  pub iov_len : ℕ

abbrev pub as_iovecs : BufferViewList → List Iovec
as_iovecs vs = map (λ v. record { iov_base = v; iov_len = length v }) vs

-- The views of a list of buffers have its size.
size_loop-of_buffers :
    (total : ℕ) (bs : BufferList) → size_loop total (of_buffers bs) ≡ Pieces.size_loop total bs
size_loop-of_buffers total [] = refl
size_loop-of_buffers total (b ∷ bs) = size_loop-of_buffers (add64 total (Buffer.size b)) bs

-- Shortening the views of buffers does what shortening the buffers does: the views of the result, or
-- the same exception.
pub remove_prefix-of_buffers :
    (bs : BufferList) (n : ℕ)
    → All IsValid bs
    → remove_prefix (of_buffers bs) n ≡ (Pieces.remove_prefix bs n >>= λ bs'. ok (of_buffers bs'))
unfolding remove_prefix Pieces.remove_prefix
remove_prefix-of_buffers bs zero v = refl
remove_prefix-of_buffers [] (suc n) v = refl
remove_prefix-of_buffers (b ∷ bs) (suc n) v = elim (Bool-cases (ltb (suc n) (Buffer.size b))) [
  | inl inside ↦ rw inside (
      shortened (Buffer.remove_prefix b (suc n))
        ((remove_prefix-drop b (suc n) v.0).0 (ground (arith, inside))))
  | inr whole ↦ rw whole (remove_prefix-of_buffers bs (suc n - Buffer.size b) v.1)
]
  where
    shortened :
        (m : Result Buffer)
        → Returns (λ b'. IsValid b' × (str b' ≡ drop (suc n) (str b))) m
        → ok (drop (suc n) (str b) ∷ of_buffers bs)
          ≡ (m >>= (λ b'. ok (b' ∷ bs)) >>= λ bs'. ok (of_buffers bs'))
    shortened (ok b') p = ap (λ xs. ok (xs ∷ of_buffers bs)) (sym p.1)
    shortened (err e) p = absurd p
