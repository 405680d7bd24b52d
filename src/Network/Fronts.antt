-- ===== src/Network/Fronts.antt =====
-- Front parts of a list, seen as front parts of the streams that begin with it.
use cpp_tcp.Common.{
  ℕ, zero, suc, ◌+◌, ◌<◌, ◌≡◌, refl, sym, ap, ap₂, ◌∙◌, arith, List, [], ◌∷◌, ◌++◌, length, segment,
  take, drop, take-append-drop, take-segment, get_or, dec_lt, IsPrefix,
}

-- A front part of a part of the stream is a part of the stream.
pub front_part :
    (src : ℕ → ℕ) (i : ℕ) (xs ys : List ℕ)
    → xs ++ ys ≡ segment src i (length (xs ++ ys))
    → (xs ≡ segment src i (length xs)) × (ys ≡ segment src (i + length xs) (length ys))
front_part src i [] ys e = (refl, e ∙ ap (λ k. segment src k (length ys)) (omega arith))
front_part src i (x ∷ xs) ys e =
    let (front, back) = front_part src (suc i) xs ys (ap (drop 1) e) in
    (
      ap₂ ◌∷◌ (ap (λ zs. get_or zs 0 0) e) front,
      back ∙ ap (λ k. segment src k (length ys)) (omega arith),
    )

segment-shift : (f : ℕ → ℕ) (i n : ℕ) → segment f (suc i) n ≡ segment (λ k. f (suc k)) i n
segment-shift f i zero = refl
segment-shift f i (suc n) = ap (λ ys. f (suc i) ∷ ys) (segment-shift f (suc i) n)

-- A list is a part of the stream that goes on with `d` for ever.
segment-get_or : (xs : List ℕ) (d : ℕ) → segment (λ i. get_or xs i d) 0 (length xs) ≡ xs
segment-get_or [] d = refl
segment-get_or (x ∷ xs) d =
    ap (λ ys. x ∷ ys) (segment-shift (λ i. get_or (x ∷ xs) i d) 0 (length xs) ∙ segment-get_or xs d)

get_or-segment :
    (src : ℕ → ℕ) (i n k j d : ℕ) → k < n → i + k ≡ j → get_or (segment src i n) k d ≡ src j
get_or-segment src i zero k j d lt e = absurd (omega (arith, lt))
get_or-segment src i (suc n) zero j d lt e = ap src (omega (arith, e))
get_or-segment src i (suc n) (suc k) j d lt e =
    get_or-segment src (suc i) n k j d (omega (arith, lt)) (omega (arith, e))

get_or-end : (xs : List ℕ) (d : ℕ) → get_or xs (length xs) d ≡ d
get_or-end [] d = refl
get_or-end (x ∷ xs) d = get_or-end xs d

-- A list that is a front part of every stream that begins with `xs` is a front part of `xs`.
pub front_of :
    (xs ys : List ℕ)
    → ((src : ℕ → ℕ) → xs ≡ segment src 0 (length xs) → ys ≡ segment src 0 (length ys))
    → IsPrefix ys xs
front_of xs ys h = elim (dec_lt n (length ys)) [
  | yes longer ↦
      let differ : get_or xs n 0 ≡ get_or xs n 1 =
        sym (get_or-segment (λ i. get_or xs i 0) 0 (length ys) n n 0 longer (omega arith))
        ∙ ap (λ zs. get_or zs n 0) (sym (agrees 0) ∙ agrees 1)
        ∙ get_or-segment (λ i. get_or xs i 1) 0 (length ys) n n 0 longer (omega arith) in
      absurd (omega (arith, differ, get_or-end xs 0, get_or-end xs 1))
  | no fits ↦
      let front : take (length ys) xs ≡ ys =
        ap (take (length ys)) (sym (segment-get_or xs 0))
        ∙ take-segment (λ i. get_or xs i 0) 0 (length ys) n
        ∙ ap (segment (λ i. get_or xs i 0) 0) (omega arith)
        ∙ sym (agrees 0) in
      (
        drop (length ys) xs,
        sym (take-append-drop (length ys) xs) ∙ ap (λ zs. zs ++ drop (length ys) xs) front,
      )
]
  where
    n : ℕ
    n = length xs

    agrees : (d : ℕ) → ys ≡ segment (λ i. get_or xs i d) 0 (length ys)
    agrees d = h (λ i. get_or xs i d) (sym (segment-get_or xs d))
