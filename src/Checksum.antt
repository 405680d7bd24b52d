-- ===== src/Checksum.antt =====
-- libsponge/util/util.cc: the Internet checksum. Bytes are numbers below 256.
pub mod Laws
use cpp_tcp.Common.{
  ℕ, zero, suc, ◌+◌, ◌-◌, ◌*◌, ◌/◌, ◌%◌, ◌^◌, Bool, true, false, not, List, [], ◌∷◌, ltb, add32,
  if◌then◌else◌,
}

pub record InternetChecksum : Type 0 where
  pub sum : ℕ
  pub parity : Bool

abbrev pub create : ℕ → InternetChecksum
create initial_sum = record { sum = initial_sum; parity = false }

-- The loop of `add`; `val` is a uint16_t.
unfoldable pub add : InternetChecksum → List ℕ → InternetChecksum
add c [] = c
add c (byte ∷ bytes) =
    let val = if c.parity then byte else byte * 256 % 2 ^ 16 in
    add (record { sum = add32 c.sum val; parity = not c.parity }) bytes

-- The loop of `value`, on fuel.
unfoldable pub fold : ℕ → ℕ → ℕ
fold zero ret = ret
fold (suc fuel) ret =
    let rest = fold fuel (add32 (ret / 2 ^ 16) (ret % 2 ^ 16)) in
    if ltb 65535 ret then rest else ret

abbrev pub fold_fuel : ℕ
fold_fuel = 2

-- `~ret`, as a uint16_t.
unfoldable pub value : InternetChecksum → ℕ
value c = 65535 - fold fold_fuel c.sum % 2 ^ 16
