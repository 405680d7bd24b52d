-- ===== src/Buffer/Pieces.antt =====
-- libsponge/util/buffer.hh and buffer.cc, `BufferList`: a string in several pieces.
use cpp_tcp.Common.{
  ℕ, zero, suc, ◌+◌, ◌-◌, ◌^◌, ◌≤◌, ◌<◌, ◌≡◌, refl, sym, ap, ◌∙◌, inl, inr, Bool-cases, arith,
  add64, ltb, List, [], ◌∷◌, ◌++◌, append_assoc, length, drop, length-append, drop-append_front,
  drop-append_back, if◌then◌else◌, Result, ok, err, Error, ◌>>=◌, Returns, Returns-bind,
  Returns-map, All,
}
use cpp_tcp.Buffer
use cpp_tcp.Buffer.{Buffer, str, IsValid, remove_prefix-drop}

-- `BufferList::_buffers`
abbrev pub BufferList : Type 0
BufferList = List Buffer

-- `BufferList(Buffer)` and `BufferList(std::string &&)`
abbrev pub of_buffer : Buffer → BufferList
of_buffer b = b ∷ []

abbrev pub of_string : List ℕ → BufferList
of_string bytes = of_buffer (Buffer.of_string bytes)

abbrev pub append : BufferList → BufferList → BufferList
append bs others = bs ++ others

-- `BufferList::operator Buffer`
unfoldable pub to_buffer : BufferList → Result Buffer
to_buffer [] = ok Buffer.empty
to_buffer (b ∷ []) = ok b
to_buffer (b ∷ c ∷ bs) = err Error.runtime_error

abbrev pub concatenate : BufferList → List ℕ
concatenate [] = []
concatenate (b ∷ bs) = str b ++ concatenate bs

-- The loop of `BufferList::size`, with the sum so far.
abbrev pub size_loop : ℕ → BufferList → ℕ
size_loop total [] = total
size_loop total (b ∷ bs) = size_loop (add64 total (Buffer.size b)) bs

abbrev pub size : BufferList → ℕ
size bs = size_loop 0 bs

-- The loop of `BufferList::remove_prefix`: whole pieces go first.
unfoldable pub remove_prefix : BufferList → ℕ → Result BufferList
remove_prefix bs zero = ok bs
remove_prefix [] (suc n) = err Error.out_of_range
remove_prefix (b ∷ bs) (suc n) =
    let rest = remove_prefix bs (suc n - Buffer.size b) in
    if ltb (suc n) (Buffer.size b)
    then (Buffer.remove_prefix b (suc n) >>= λ b'. ok (b' ∷ bs))
    else rest

size_loop_lem :
    (total : ℕ) (bs : BufferList)
    → total + length (concatenate bs) < 2 ^ 64
    → size_loop total bs ≡ total + length (concatenate bs)
size_loop_lem total [] small = omega arith
size_loop_lem total (b ∷ bs) small =
    let many = length-append (str b) (concatenate bs) in
    let added : add64 total (Buffer.size b) ≡ total + Buffer.size b = omega (arith, small, many) in
    ap (λ k. size_loop k bs) added
    ∙ size_loop_lem (total + Buffer.size b) bs (omega (arith, small, many))
    ∙ omega (arith, many)

-- `size` is the number of the bytes that `concatenate` gives, if that is a machine word.
pub size-concatenate :
    (bs : BufferList) → length (concatenate bs) < 2 ^ 64 → size bs ≡ length (concatenate bs)
size-concatenate bs small = size_loop_lem 0 bs (omega (arith, small)) ∙ omega arith

-- Appending joins the bytes.
pub concatenate-append :
    (bs others : BufferList) → concatenate (append bs others) ≡ concatenate bs ++ concatenate others
concatenate-append [] others = refl
concatenate-append (b ∷ bs) others =
    ap (λ xs. str b ++ xs) (concatenate-append bs others)
    ∙ sym (append_assoc (str b) (concatenate bs) (concatenate others))

-- What a call of `remove_prefix` has left.
abbrev pub Removed : BufferList → ℕ → BufferList → Type 0
Removed bs n bs' = All IsValid bs' × (concatenate bs' ≡ drop n (concatenate bs))

-- `remove_prefix` on pieces with their offsets in place takes exactly the first `n` bytes away,
-- wherever the pieces end, and keeps the offsets in place.
pub remove_prefix-Removed :
    (bs : BufferList) (n : ℕ)
    → All IsValid bs
    → n ≤ length (concatenate bs)
    → Returns (Removed bs n) (remove_prefix bs n)
unfolding remove_prefix
remove_prefix-Removed bs zero v few = (v, refl)
remove_prefix-Removed [] (suc n) v few = absurd (omega (arith, few))
remove_prefix-Removed (b ∷ bs) (suc n) v few = elim (Bool-cases (ltb (suc n) (Buffer.size b))) [
  | inl inside ↦ rw inside (
      Returns-bind _ (Removed (b ∷ bs) (suc n)) (Buffer.remove_prefix b (suc n)) _
        ((remove_prefix-drop b (suc n) v.0).0 (ground (arith, inside)))
        (λ b' p. (
          (p.0, v.1),
          ap (λ xs. xs ++ concatenate bs) p.1
              ∙ sym (drop-append_front (suc n) (str b) (concatenate bs) (ground (arith, inside))),
        )))
  | inr whole ↦
      let long : Buffer.size b ≤ suc n = ground (arith, whole) in
      rw whole (
        Returns-map (Removed bs (suc n - Buffer.size b)) (Removed (b ∷ bs) (suc n)) _
          (λ bs' p. (p.0, p.1 ∙ sym (drop-append_back (suc n) (str b) (concatenate bs) long)))
          (remove_prefix-Removed bs (suc n - Buffer.size b) v.1
            (omega (arith, few, long, length-append (str b) (concatenate bs)))))
]

-- It throws `out_of_range` when there are fewer bytes.
pub remove_prefix_too_many :
    (bs : BufferList) (n : ℕ)
    → length (concatenate bs) < n
    → remove_prefix bs n ≡ err Error.out_of_range
unfolding remove_prefix
remove_prefix_too_many bs zero many = absurd (omega (arith, many))
remove_prefix_too_many [] (suc n) many = refl
remove_prefix_too_many (b ∷ bs) (suc n) many =
    let sum = length-append (str b) (concatenate bs) in
    ground (
      arith,
      sum,
      many,
      remove_prefix_too_many bs (suc n - Buffer.size b) (omega (arith, sum, many)),
    )
