-- ===== src/Parser.antt =====
-- libsponge/util/parser.hh and parser.cc. A `Buffer` is the list of its bytes.
pub mod Laws
use cpp_tcp.Common.{
  ℕ, zero, suc, ◌+◌, ◌*◌, ◌/◌, ◌%◌, ◌^◌, Bool, true, false, List, [], ◌∷◌, ltb, if◌then◌else◌,
  length, take, drop,
}

pub data ParseResult : Type 0 where
  no_error bad_checksum packet_too_short wrong_ip_version : ParseResult
  header_too_short truncated_packet unsupported : ParseResult

pub record NetParser : Type 0 where
  pub buffer : List ℕ
  pub result : ParseResult

-- `NetParser::NetParser`
abbrev pub create : List ℕ → NetParser
create buffer = record { buffer = buffer; result = ParseResult.no_error }

unfoldable pub is_error : ParseResult → Bool
is_error ParseResult.no_error = false
is_error _ = true

abbrev pub error : NetParser → Bool
error p = is_error p.result

unfoldable pub check_size : NetParser → ℕ → NetParser
check_size p size =
    if ltb (length p.buffer) size then record p { result = ParseResult.packet_too_short } else p

-- The loop of `_parse_int` for a T of `bits` bits.
unfoldable pub int_loop : ℕ → ℕ → List ℕ → ℕ
int_loop bits ret [] = ret
int_loop bits ret (byte ∷ bytes) = int_loop bits ((ret * 256 % 2 ^ bits + byte) % 2 ^ bits) bytes

-- `_parse_int` for a T of `len` bytes.
unfoldable pub parse_int : ℕ → NetParser → ℕ × NetParser
parse_int len p =
    let p' = check_size p len in
    if error p'
    then (0, p')
    else (int_loop (8 * len) 0 (take len p'.buffer), record p' { buffer = drop len p'.buffer })

abbrev pub u32 : NetParser → ℕ × NetParser
u32 = parse_int 4

abbrev pub u16 : NetParser → ℕ × NetParser
u16 = parse_int 2

abbrev pub u8 : NetParser → ℕ × NetParser
u8 = parse_int 1

unfoldable pub remove_prefix : NetParser → ℕ → NetParser
remove_prefix p n =
    let p' = check_size p n in if error p' then p' else record p' { buffer = drop n p'.buffer }

-- `_unparse_int` for a T of `len` bytes: what it appends to the string.
unfoldable pub unparse_int : ℕ → ℕ → List ℕ
unparse_int zero val = []
unparse_int (suc len) val = val / 2 ^ (8 * len) % 256 ∷ unparse_int len val
