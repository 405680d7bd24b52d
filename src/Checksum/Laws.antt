-- ===== src/Checksum/Laws.antt =====
-- What the checksum computes.
use cpp_tcp.Common.{
  ℕ, ◌+◌, ◌-◌, ◌*◌, ◌%◌, ◌^◌, ◌<◌, ◌≡◌, arith, Bool, true, false, not, List, [], ◌∷◌, if◌then◌else◌,
}
use cpp_tcp.Checksum.{add, fold, fold_fuel, value}

-- The 16-bit words of the bytes, added up without wrapping round; the flag says whether the first
-- byte is the low one of its word.
abbrev pub words : Bool → List ℕ → ℕ
words parity [] = 0
words parity (byte ∷ bytes) = (if parity then byte else byte * 256) + words (not parity) bytes

abbrev pub AllBytes : List ℕ → Type 0
AllBytes [] = Unit {0}
AllBytes (byte ∷ bytes) = (byte < 256) × AllBytes bytes

pub add-sum :
    (bytes : List ℕ) (sum : ℕ) (parity : Bool)
    → AllBytes bytes
    → sum + words parity bytes < 2 ^ 32
    → (add (record { sum = sum; parity = parity }) bytes).sum ≡ sum + words parity bytes
unfolding add
add-sum [] sum parity all small = omega arith
add-sum (byte ∷ bytes) sum true all small =
    ground (arith, all.0, add-sum bytes (sum + byte) false all.1)
add-sum (byte ∷ bytes) sum false all small =
    ground (arith, all.0, add-sum bytes (sum + byte * 256) true all.1)

-- The carries are folded in within the fuel.
pub fold_small : (s : ℕ) → s < 2 ^ 32 → fold fold_fuel s < 2 ^ 16
unfolding fold
fold_small s small = ground arith

fold_mod : (s : ℕ) → s < 2 ^ 32 → fold fold_fuel s % 65535 ≡ s % 65535
unfolding fold
fold_mod s small = ground arith

fold_positive : (s : ℕ) → 0 < s → s < 2 ^ 32 → 0 < fold fold_fuel s
unfolding fold
fold_positive s pos small = ground arith

-- A sum to which its own checksum is added has the checksum 0.
pub value_verifies :
    (s : ℕ) (p q : Bool)
    → s + 65535 < 2 ^ 32
    → value (record { sum = s + value (record { sum = s; parity = p }); parity = q }) ≡ 0
unfolding value
value_verifies s p q small =
    let f = fold fold_fuel s in
    let t = s + (65535 - f) in
    ground (
      arith,
      fold_small s (omega arith),
      fold_mod s (omega arith),
      fold_small t (omega arith),
      fold_mod t (omega arith),
      fold_positive t,
    )
