-- ===== src/Parser/Laws.antt =====
-- `NetParser` reads back what `NetUnparser` writes.
use cpp_tcp.Common.{ℕ, zero, suc, ◌^◌, ◌<◌, ◌≡◌, refl, arith, List, ◌++◌, length}
use cpp_tcp.Parser.{create, parse_int, check_size, is_error, int_loop, unparse_int}

unparse_int-length : (len v : ℕ) → length (unparse_int len v) ≡ len
unfolding unparse_int
unparse_int-length zero v = refl
unparse_int-length (suc len) v = omega (arith, unparse_int-length len v)

pub u16_unparse :
    (v : ℕ) (rest : List ℕ)
    → v < 2 ^ 16
    → parse_int 2 (create (unparse_int 2 v ++ rest)) ≡ (v, create rest)
unfolding parse_int check_size is_error int_loop unparse_int
u16_unparse v rest small = ground (arith, unparse_int-length 2 v)

pub u32_unparse :
    (v : ℕ) (rest : List ℕ)
    → v < 2 ^ 32
    → parse_int 4 (create (unparse_int 4 v ++ rest)) ≡ (v, create rest)
unfolding parse_int check_size is_error int_loop unparse_int
u32_unparse v rest small = ground (arith, unparse_int-length 4 v)

pub u8_unparse :
    (v : ℕ) (rest : List ℕ)
    → v < 2 ^ 8
    → parse_int 1 (create (unparse_int 1 v ++ rest)) ≡ (v, create rest)
unfolding parse_int check_size is_error int_loop unparse_int
u8_unparse v rest small = ground (arith, unparse_int-length 1 v)
