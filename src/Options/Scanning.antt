-- ===== src/Options/Scanning.antt =====
-- The loop over the options: it ends, and leaves the two positional arguments.
use cpp_tcp.Common.{
  ℕ, zero, suc, ◌+◌, ◌≤◌, ◌<◌, ◌≡◌, refl, arith, List, [], ◌∷◌, some, Error, length, get_elem?, ltb,
  leb, if-both,
}
use cpp_tcp.Options.{Run, returned, exits, fails, ◌>>=◌, Settings, argument, with_argument, scan}

-- The run ends with a value of which `P` holds, by `exit`, or by an exception of which `E` holds.
abbrev pub Ends : (Error → Type 0) → {A : Type 0} → (A → Type 0) → Run A → Type 0
Ends E P (returned a) = P a
Ends E P (exits status) = Unit {0}
Ends E P (fails e) = E e

pub Ends-bind :
    (E : Error → Type 0) {A B : Type 0} (P : A → Type 0) (Q : B → Type 0) (m : Run A)
    (f : A → Run B)
    → Ends E P m
    → ((a : A) → P a → Ends E Q (f a))
    → Ends E Q (m >>= f)
Ends-bind E P Q (returned a) f h k = k a h
Ends-bind E P Q (exits status) f h k = tt
Ends-bind E P Q (fails e) f h k = h

pub argument_lem :
    (E : Error → Type 0) (argv : List (List ℕ)) (i : ℕ)
    → i < length argv
    → Ends E (λ v. get_elem? argv i ≡ some v) (argument argv i)
unfolding argument
argument_lem E [] i lt = absurd (omega (arith, lt))
argument_lem E (x ∷ xs) zero lt = refl
argument_lem E (x ∷ xs) (suc i) lt = argument_lem E xs i (omega (arith, lt))

pub argument-some :
    (argv : List (List ℕ)) (i : ℕ) (v : List ℕ)
    → get_elem? argv i ≡ some v
    → argument argv i ≡ returned v
unfolding argument
argument-some argv i v at = rw (at, argument)

-- A round of the loop moves on, and does not pass the positional arguments.
abbrev pub MovesOn : List (List ℕ) → Settings → Settings → Type 0
MovesOn argv s s' = (s.curr < s'.curr) × (s'.curr + 2 ≤ length argv)

pub with_argument-MovesOn :
    (E : Error → Type 0) (argv : List (List ℕ)) (s : Settings) (change : List ℕ → Settings)
    → Ends E (MovesOn argv s) (with_argument argv s change)
unfolding with_argument
with_argument-MovesOn E argv s change =
    if-both (Ends E (MovesOn argv s)) (leb (length argv) (s.curr + 3)) (exits 1) _ (λ _. tt)
      λ more.
        Ends-bind E (λ v. get_elem? argv (s.curr + 1) ≡ some v) (MovesOn argv s)
          (argument argv (s.curr + 1)) _ (argument_lem E argv (s.curr + 1) (ground (arith, more)))
          λ v at. (omega arith, ground (arith, more))

-- The loop ends with two arguments left.
pub scan-TwoLeft :
    (E : Error → Type 0) (round : Settings → Run Settings) (argv : List (List ℕ))
    → ((s : Settings) → s.curr + 2 < length argv → Ends E (MovesOn argv s) (round s))
    → (fuel : ℕ) (s : Settings) → length argv ≤ s.curr + fuel
    → s.curr + 2 ≤ length argv
    → Ends E (λ s'. s'.curr + 2 ≡ length argv) (scan round argv fuel s)
unfolding scan
scan-TwoLeft E round argv step zero s enough some_left = absurd (omega (arith, enough, some_left))
scan-TwoLeft E round argv step (suc fuel) s enough some_left =
    if-both (Ends E (λ s'. s'.curr + 2 ≡ length argv)) (ltb (s.curr + 2) (length argv)) _
      (returned s)
      (λ more.
        Ends-bind E (MovesOn argv s) (λ s'. s'.curr + 2 ≡ length argv) (round s)
          (scan round argv fuel) (step s (ground (arith, more)))
          λ s' (on, left). scan-TwoLeft E round argv step fuel s' (omega (arith, enough, on)) left)
      (λ done. ground (arith, done, some_left))
