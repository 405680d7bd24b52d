-- ===== src/Common/Words.antt =====
-- Unsigned machine words as native numbers below `2 ^ w`; the wrap-around is written out.
use Prim.Native.Nat.{ℕ, ◌+◌, ◌-◌, ◌*◌, ◌%◌, ◌^◌, ◌<◌}
use mathlib.Core.Path.{◌≡◌}
use native.Mathlib.Nat.{mod-eq_of_lt, mod-eq-sub-mod}
use native.Mathlib.Decide.{dec_lt}
use native.Mathlib.Omega.{arith}
use cpp_tcp.Common.Tests.{ltb, if◌then◌else◌}

-- uint64_t and size_t
abbrev pub add64 : ℕ → ℕ → ℕ
add64 a b = (a + b) % 2 ^ 64

abbrev pub sub64 : ℕ → ℕ → ℕ
sub64 a b = (a + 2 ^ 64 - b) % 2 ^ 64

-- uint32_t
abbrev pub add32 : ℕ → ℕ → ℕ
add32 a b = (a + b) % 2 ^ 32

abbrev pub sub32 : ℕ → ℕ → ℕ
sub32 a b = (a + 2 ^ 32 - b) % 2 ^ 32

-- the conversion to uint16_t
abbrev pub to_u16 : ℕ → ℕ
to_u16 a = a % 2 ^ 16

-- the conversion to uint32_t
abbrev pub to_u32 : ℕ → ℕ
to_u32 a = a % 2 ^ 32

-- Below twice the modulus the remainder takes the modulus off once at most.
pub mod_once : (k m : ℕ) → k < 2 * m → k % m ≡ (if ltb k m then k else k - m)
mod_once k m h = elim (dec_lt k m) [
  | yes p ↦ ground (arith, mod-eq_of_lt p)
  | no p ↦ ground (
    arith,
    mod-eq-sub-mod {n = k} {m = m} (omega arith),
    mod-eq_of_lt {n = k - m} {m = m} (omega arith),
  )
]
