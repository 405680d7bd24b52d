-- ===== src/Common/Members.antt =====
-- A predicate on all members of a list.
use mathlib.Core.Path.{◌≡◌, subst}
use mathlib.Core.List.{List, [], ◌∷◌, ◌++◌}
use mathlib.Core.Option.{some}
use Prim.Native.Nat.{ℕ, zero, suc}
use native.Mathlib.Omega.{arith}
use cpp_tcp.Common.Lists.{get_elem?}

module _ {ℓ} {A : Type ℓ} where
  abbrev pub All : (A → Type 0) → List A → Type 0
  All P [] = Unit {0}
  All P (x ∷ xs) = P x × All P xs

  pub All-append : (P : A → Type 0) (xs ys : List A) → All P xs → All P ys → All P (xs ++ ys)
  All-append P [] ys hx hy = hy
  All-append P (x ∷ xs) ys hx hy = (hx.0, All-append P xs ys hx.1 hy)

  pub All-imp : (P Q : A → Type 0) (xs : List A) → ((x : A) → P x → Q x) → All P xs → All Q xs
  All-imp P Q [] f h = tt
  All-imp P Q (x ∷ xs) f h = (f x h.0, All-imp P Q xs f h.1)

  pub All-get_elem? :
      (P : A → Type 0) (xs : List A) (i : ℕ) (x : A) → All P xs → get_elem? xs i ≡ some x → P x
  All-get_elem? P [] i x h e = absurd (ground (arith, e))
  All-get_elem? P (y ∷ ys) zero x h e = subst P (ground (arith, e)) h.0
  All-get_elem? P (y ∷ ys) (suc i) x h e = All-get_elem? P ys i x h.1 e

  -- `ys` begins with `xs`.
  abbrev pub IsPrefix : List A → List A → Type ℓ
  IsPrefix xs ys = (rest : List A) × (ys ≡ xs ++ rest)

  -- The first list is the second with some members left out.
  pub data Sublist : List A → List A → Type ℓ where
    nothing : Sublist [] []
    leaves : {xs ys : List A} (y : A) → Sublist xs ys → Sublist xs (y ∷ ys)
    keeps : {xs ys : List A} (x : A) → Sublist xs ys → Sublist (x ∷ xs) (x ∷ ys)

  pub All-Sublist : (P : A → Type 0) {xs ys : List A} → Sublist xs ys → All P ys → All P xs
  All-Sublist P nothing h = tt
  All-Sublist P (leaves y p) h = All-Sublist P p h.1
  All-Sublist P (keeps x p) h = (h.0, All-Sublist P p h.1)
