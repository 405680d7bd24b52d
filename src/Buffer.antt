-- ===== src/Buffer.antt =====
-- libsponge/util/buffer.hh and buffer.cc, `Buffer`: a read-only string that several owners share and
-- that each of them can shorten from the front. The storage is never written, so the model holds the
-- string itself.
pub mod Pieces
pub mod Views
use cpp_tcp.Common.{
  ℕ, ◌+◌, ◌-◌, ◌^◌, ◌≤◌, ◌<◌, ◌≡◌, refl, sym, ap, ◌∙◌, true, false, inl, inr, Bool-cases, arith,
  add64, ltb, ◌==◌, List, [], Option, none, some, length, drop, length-drop, drop-drop, drop-nil,
  drop_long, get_elem?, if◌then◌else◌, Result, ok, err, Error, Returns, dec_lt,
}

pub record Buffer : Type 0 where
  pub storage : Option (List ℕ)
  pub starting_offset : ℕ

-- `Buffer()`
abbrev pub empty : Buffer
empty = record { storage = none; starting_offset = 0 }

-- `Buffer(std::string &&)`
abbrev pub of_string : List ℕ → Buffer
of_string bytes = record { storage = some bytes; starting_offset = 0 }

abbrev pub str_of : Option (List ℕ) → ℕ → List ℕ
str_of none offset = []
str_of (some bytes) offset = drop offset bytes

-- `Buffer::str`, for an offset inside the storage.
abbrev pub str : Buffer → List ℕ
str b = str_of b.storage b.starting_offset

-- `std::string_view::at` of the view.
abbrev pub at : Buffer → ℕ → Result ℕ
at b n = elim (get_elem? (str b) n) [ none ↦ err Error.out_of_range | some x ↦ ok x ]

abbrev pub size : Buffer → ℕ
size b = length (str b)

-- The end of `Buffer::remove_prefix`: the storage is let go when nothing is left of it.
abbrev pub released : Option (List ℕ) → ℕ → Option (List ℕ)
released none offset = none
released (some bytes) offset = if offset == length bytes then none else some bytes

unfoldable pub remove_prefix : Buffer → ℕ → Result Buffer
remove_prefix b n =
    let offset = add64 b.starting_offset n in
    if ltb (size b) n
    then err Error.out_of_range
    else ok (record { storage = released b.storage offset; starting_offset = offset })

abbrev pub Inside : Option (List ℕ) → ℕ → Type 0
Inside none offset = Unit {0}
Inside (some bytes) offset = (offset ≤ length bytes) × (length bytes < 2 ^ 63)

-- The storage has a size in a machine word, and the offset stays inside it.
abbrev pub IsValid : Buffer → Type 0
IsValid b = Inside b.storage b.starting_offset

-- What is left of a storage.
kept_or_let_go :
    (bytes : List ℕ) (m : ℕ)
    → m ≤ length bytes
    → length bytes < 2 ^ 63
    → Inside (released (some bytes) m) m × (str_of (released (some bytes) m) m ≡ drop m bytes)
kept_or_let_go bytes m inside small = elim (Bool-cases (m == length bytes)) [
  | inl over ↦ rw over (tt, sym (drop_long m bytes (ground (arith, over))))
  | inr some_left ↦ rw some_left ((inside, small), refl)
]

released_lem :
    (storage : Option (List ℕ)) (offset n : ℕ)
    → Inside storage offset
    → n ≤ length (str_of storage offset)
    → Inside (released storage (add64 offset n)) (add64 offset n)
      × (str_of (released storage (add64 offset n)) (add64 offset n)
          ≡ drop n (str_of storage offset))
released_lem none offset n inside few = (tt, sym (drop-nil n))
released_lem (some bytes) offset n (inside, small) few =
    let moved : offset + n ≡ add64 offset n =
      omega (arith, few, inside, small, length-drop offset bytes) in
    let (valid, rest) =
      kept_or_let_go bytes (add64 offset n)
        (omega (arith, moved, few, inside, length-drop offset bytes)) small in
    (valid, rest ∙ ap (λ m. drop m bytes) (sym moved) ∙ sym (drop-drop offset n bytes))

-- `remove_prefix` on a buffer with its offset inside the storage takes exactly the first `n` bytes
-- away and keeps the offset inside; it throws `out_of_range` exactly when there are fewer.
pub remove_prefix-drop :
    (b : Buffer) (n : ℕ)
    → IsValid b
    → (n ≤ size b → Returns (λ b'. IsValid b' × (str b' ≡ drop n (str b))) (remove_prefix b n))
      × (size b < n → remove_prefix b n ≡ err Error.out_of_range)
unfolding remove_prefix
remove_prefix-drop b n v = (
  (λ few. elim (Bool-cases (ltb (size b) n)) [
    | inl short ↦ absurd (ground (arith, short, few))
    | inr enough ↦ rw enough (released_lem b.storage b.starting_offset n v few)
  ]),
  λ many. ground (arith, many),
)
