-- ===== src/Wrapping/Laws.antt =====
-- How `wrap` and `unwrap` invert each other, and how near `unwrap` comes to its checkpoint.
use cpp_tcp.Common.{ℕ, ◌+◌, ◌-◌, ◌/◌, ◌%◌, ◌^◌, ◌≤◌, ◌<◌, ◌≡◌, ◌≢◌, ◌⊎◌, arith}
use cpp_tcp.Wrapping.{wrap, unwrap, in_block}

-- `in_block` in plain arithmetic.
in_block_lem :
    (n isn checkpoint : ℕ)
    → n < 2 ^ 32
    → isn < 2 ^ 32
    → checkpoint < 2 ^ 64
    → (in_block n isn checkpoint / 2 ^ 32 ≡ checkpoint / 2 ^ 32)
      × ((in_block n isn checkpoint + isn) % 2 ^ 32 ≡ n)
      × (in_block n isn checkpoint < 2 ^ 64)
unfolding in_block
in_block_lem n isn checkpoint hn hi hc = omega arith

pub unwrap_bounds :
    (n isn checkpoint : ℕ)
    → n < 2 ^ 32
    → isn < 2 ^ 32
    → checkpoint < 2 ^ 64
    → unwrap n isn checkpoint < 2 ^ 64
unfolding unwrap
unwrap_bounds n isn checkpoint hn hi hc = ground (arith, in_block_lem n isn checkpoint)

-- `unwrap` returns a number that wraps to the sequence number it was given, at every checkpoint.
pub wrap-unwrap :
    (n isn checkpoint : ℕ)
    → n < 2 ^ 32
    → isn < 2 ^ 32
    → checkpoint < 2 ^ 64
    → wrap (unwrap n isn checkpoint) isn ≡ n
unfolding wrap unwrap
wrap-unwrap n isn checkpoint hn hi hc = ground (arith, in_block_lem n isn checkpoint)

-- An absolute number less than 2 ^ 31 away from the checkpoint comes back from its wrapped form,
-- unless it lies in block 0 and the checkpoint in block 1 (blocks of 2 ^ 32 numbers).
pub unwrap-wrap :
    (x isn checkpoint : ℕ)
    → x < 2 ^ 64
    → isn < 2 ^ 32
    → checkpoint < 2 ^ 64
    → x < checkpoint + 2 ^ 31
    → checkpoint < x + 2 ^ 31
    → (checkpoint / 2 ^ 32 ≢ 1) ⊎ (x / 2 ^ 32 ≢ 0)
    → unwrap (wrap x isn) isn checkpoint ≡ x
unfolding wrap unwrap
unwrap-wrap x isn checkpoint hx hi hc near far block = ground arith

-- In the excepted case the result is one block too high: the code steps down a block only from
-- block 2 on.
pub unwrap-wrap_first_block :
    (x isn checkpoint : ℕ)
    → isn < 2 ^ 32
    → x < checkpoint
    → checkpoint < x + 2 ^ 31
    → checkpoint / 2 ^ 32 ≡ 1
    → x / 2 ^ 32 ≡ 0
    → unwrap (wrap x isn) isn checkpoint ≡ x + 2 ^ 32
unfolding wrap unwrap
unwrap-wrap_first_block x isn checkpoint hi near far up down = ground arith

abbrev pub dist : ℕ → ℕ → ℕ
dist a b = (a - b) + (b - a)

-- The documented contract: of all absolute numbers that wrap to `n`, `unwrap` returns one that is
-- closest to the checkpoint, whenever the checkpoint does not lie in block 1.
pub unwrap_closest :
    (n isn checkpoint y : ℕ)
    → n < 2 ^ 32
    → isn < 2 ^ 32
    → checkpoint < 2 ^ 64
    → checkpoint / 2 ^ 32 ≢ 1
    → y < 2 ^ 64
    → wrap y isn ≡ n
    → dist (unwrap n isn checkpoint) checkpoint ≤ dist y checkpoint
unfolding wrap unwrap
unwrap_closest n isn checkpoint y hn hi hc block hy e =
    ground (arith, in_block_lem n isn checkpoint)
