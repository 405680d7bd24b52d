-- ===== src/Reassembler/Store.antt =====
-- The loop of `push_substring`: which entries of the vectors it writes.
use cpp_tcp.Common.{
  ℕ, suc, ◌+◌, ◌-◌, ◌^◌, ◌≤◌, ◌<◌, ◌≡◌, ◌≢◌, ◌⊎◌, inl, inr, refl, ap, ◌∙◌, true, false, List, [],
  ◌∷◌, arith, add64, leb, length, get_or, get_or-set_self, get_or-set_ne, length-set, ℕ_discrete,
  Bool-cases,
}
use cpp_tcp.Reassembler.{StreamReassembler, store, store_byte, raise_bound}

-- What the loop leaves alone.
pub record Keeps (r r' : StreamReassembler) : Type 0 where
  pub output : r'.output ≡ r.output
  pub capacity : r'.capacity ≡ r.capacity
  pub eofed : r'.eofed ≡ r.eofed
  pub first_unassembled : r'.first_unassembled ≡ r.first_unassembled
  pub buffer : length r'.buffer ≡ length r.buffer
  pub count : length r'.count ≡ length r.count

store_byte-Keeps : (r : StreamReassembler) (i x : ℕ) → Keeps r (store_byte r i x)
unfolding store_byte
store_byte-Keeps r i x =
    ground (arith, length-set r.buffer i x, length-set r.count i (add64 (get_or r.count i 0) 1))

pub store-Keeps : (xs : List ℕ) (r : StreamReassembler) (i : ℕ) → Keeps r (store r xs i)
unfolding store
store-Keeps [] r i = ground arith
store-Keeps (x ∷ xs) r i = ground (
  arith,
  store_byte-Keeps (raise_bound r i) i x,
  store-Keeps xs (store_byte (raise_bound r i) i x) (add64 i 1),
)

-- The stored bytes are those of the stream `src`.
abbrev pub Stored : (ℕ → ℕ) → StreamReassembler → Type 0
Stored src r = (j : ℕ) → get_or r.count j 0 ≢ 0 → get_or r.buffer j 0 ≡ src j

-- The substring is the part of the stream `src` that begins at index `i`.
abbrev pub Agrees : (ℕ → ℕ) → List ℕ → ℕ → Type 0
Agrees src xs i = (k : ℕ) → k < length xs → get_or xs k 0 ≡ src (i + k)

store_byte-Stored :
    (src : ℕ → ℕ) (r : StreamReassembler) (i x : ℕ)
    → i < length r.buffer
    → x ≡ src i
    → Stored src r
    → Stored src (store_byte r i x)
unfolding store_byte
store_byte-Stored src r i x hi e h j ne = elim (ℕ_discrete i j) [
  | yes same ↦ ground (arith, get_or-set_self r.buffer i x 0)
  | no other ↦ ground (
    arith,
    get_or-set_ne r.buffer i j x 0,
    get_or-set_ne r.count i j (add64 (get_or r.count i 0) 1) 0,
    h j,
  )
]

-- The state after one more byte was stored.
abbrev stored : StreamReassembler → ℕ → ℕ → StreamReassembler
stored r i x = store_byte (raise_bound r i) i x

store_past :
    (x : ℕ) (xs : List ℕ) (r : StreamReassembler) (i : ℕ)
    → leb (length r.buffer) i ≡ true
    → store r (x ∷ xs) i ≡ raise_bound r i
unfolding store
store_past x xs r i e = rw e

store_next :
    (x : ℕ) (xs : List ℕ) (r : StreamReassembler) (i : ℕ)
    → length r.buffer < 2 ^ 63
    → leb (length r.buffer) i ≡ false
    → store r (x ∷ xs) i ≡ store (stored r i x) xs (suc i)
unfolding store
store_next x xs r i small e = let next : add64 i 1 ≡ suc i = ground arith in rw (e, next)

length-stored : (r : StreamReassembler) (i x : ℕ) → length (stored r i x).buffer ≡ length r.buffer
length-stored r i x = (store_byte-Keeps (raise_bound r i) i x).buffer

pub store-Stored :
    (src : ℕ → ℕ) (xs : List ℕ) (r : StreamReassembler) (i : ℕ)
    → length r.buffer < 2 ^ 63
    → Agrees src xs i
    → Stored src r
    → Stored src (store r xs i)
store-Stored src [] r i small a h = unfold store in h
store-Stored src (x ∷ xs) r i small a h = elim (Bool-cases (leb (length r.buffer) i)) [
  | inl past ↦ rw (store_past x xs r i past) h
  | inr inside ↦ rw (store_next x xs r i small inside) (
      store-Stored src xs (stored r i x) (suc i) (rw length-stored small)
        (λ k hk. a (suc k) (omega arith) ∙ ap src (omega arith))
        (store_byte-Stored src (raise_bound r i) i x (ground arith)
          (a 0 (omega arith) ∙ ap src (omega arith)) h))
]

count-stored_ne :
    (r : StreamReassembler) (i j x : ℕ)
    → i ≢ j
    → get_or (stored r i x).count j 0 ≡ get_or r.count j 0
unfolding store_byte
count-stored_ne r i j x ne = get_or-set_ne r.count i j (add64 (get_or r.count i 0) 1) 0 ne

-- Entries that the substring does not cover keep their counts.
pub store-count_outside :
    (xs : List ℕ) (r : StreamReassembler) (i j : ℕ)
    → length r.buffer < 2 ^ 63
    → (j < i) ⊎ (i + length xs ≤ j)
    → get_or (store r xs i).count j 0 ≡ get_or r.count j 0
store-count_outside [] r i j small out = unfold store in refl
store-count_outside (x ∷ xs) r i j small out = elim (Bool-cases (leb (length r.buffer) i)) [
  | inl past ↦ rw (store_past x xs r i past)
  | inr inside ↦ rw (store_next x xs r i small inside) (
      store-count_outside xs (stored r i x) (suc i) j (rw length-stored small) (shifted out)
      ∙ count-stored_ne r i j x (apart out))
]
  where
    shifted : (j < i) ⊎ (i + length (x ∷ xs) ≤ j) → (j < suc i) ⊎ (suc i + length xs ≤ j)
    shifted (inl h) = inl (omega arith)
    shifted (inr h) = inr (omega arith)

    apart : (j < i) ⊎ (i + length (x ∷ xs) ≤ j) → i ≢ j
    apart (inl h) = omega arith
    apart (inr h) = omega arith

-- Entries in the buffer that the substring covers have a count of at least 1 afterwards, unless a
-- count was at its 64-bit maximum.
pub store-count_inside :
    (xs : List ℕ) (r : StreamReassembler) (i j : ℕ)
    → length r.buffer < 2 ^ 63
    → length r.count ≡ length r.buffer
    → get_or r.count j 0 < 2 ^ 64 - 1
    → i ≤ j
    → j < i + length xs
    → j < length r.buffer
    → get_or (store r xs i).count j 0 ≡ get_or r.count j 0 + 1
store-count_inside [] r i j small same max lo hi inside = absurd (omega arith)
store-count_inside (x ∷ xs) r i j small same max lo hi inside =
    rw (store_next x xs r i small (ground arith)) (elim (ℕ_discrete i j) [
      | yes e ↦
          store-count_outside xs (stored r i x) (suc i) j (rw length-stored small)
            (inl (omega arith))
          ∙ first e
      | no ne ↦
          store-count_inside xs (stored r i x) (suc i) j (rw length-stored small)
            (omega (arith, store_byte-Keeps (raise_bound r i) i x))
            (omega (arith, count-stored_ne r i j x ne)) (omega arith) (omega arith)
            (rw length-stored inside)
          ∙ ap (λ (k : ℕ). k + 1) (count-stored_ne r i j x ne)
    ])
  where
    first : i ≡ j → get_or (stored r i x).count j 0 ≡ get_or r.count j 0 + 1
    first e = rw (← e) (
        unfold store_byte in
        ground (arith, get_or-set_self r.count i (add64 (get_or r.count i 0) 1) 0))
