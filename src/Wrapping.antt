-- ===== src/Wrapping.antt =====
-- libsponge/wrapping_integers.hh and wrapping_integers.cc: 32-bit sequence numbers.
-- A `WrappingInt32` is its raw value.
pub mod Laws
use cpp_tcp.Common.{
  ℕ, ◌+◌, ◌-◌, ◌*◌, ◌/◌, ◌%◌, ◌^◌, ◌&&◌, ltb, if◌then◌else◌, add64, sub64, add32, sub32,
}

abbrev pub WrappingInt32 : Type 0
WrappingInt32 = ℕ

-- `n + isn` is a uint64_t, and the cast keeps its low 32 bits.
unfoldable pub wrap : ℕ → WrappingInt32 → WrappingInt32
wrap n isn = add64 n isn % 2 ^ 32

-- The bits of `n - isn`, put into the 2 ^ 32 block of the checkpoint.
unfoldable pub in_block : WrappingInt32 → WrappingInt32 → ℕ → ℕ
in_block n isn checkpoint = add64 (sub32 n isn) (checkpoint / 2 ^ 32 * 2 ^ 32)

unfoldable pub unwrap : WrappingInt32 → WrappingInt32 → ℕ → ℕ
unfolding in_block
unwrap n isn checkpoint =
    let out = in_block n isn checkpoint in
    if ltb out checkpoint
    then (if ltb (2 ^ 31) (checkpoint - out) && ltb (checkpoint / 2 ^ 32) (2 ^ 32 - 1)
        then add64 out (2 ^ 32)
        else out)
    else (if ltb (2 ^ 31) (out - checkpoint) && ltb 1 (checkpoint / 2 ^ 32)
        then sub64 out (2 ^ 32)
        else out)

-- `a + b` and `a - b` at a uint32_t `b`
unfoldable pub plus : WrappingInt32 → ℕ → WrappingInt32
plus a b = add32 a b

unfoldable pub minus : WrappingInt32 → ℕ → WrappingInt32
minus a b = add32 a (sub32 0 b)
