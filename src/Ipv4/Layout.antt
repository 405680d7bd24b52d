-- ===== src/Ipv4/Layout.antt =====
-- The layout of an IPv4 header, and that its fields are read back.
use cpp_tcp.Common.{
  ℕ, ◌+◌, ◌*◌, ◌/◌, ◌%◌, ◌^◌, ◌≤◌, ◌<◌, ◌≡◌, refl, ◌∙◌, arith, Bool, List, ◌++◌, length,
}
use cpp_tcp.Parser
use cpp_tcp.Parser.{NetParser, ParseResult, unparse_int, remove_prefix}
use cpp_tcp.Parser.Laws.{u16_unparse, u32_unparse, u8_unparse}
use cpp_tcp.TcpWire.{has_bit, bit}
use cpp_tcp.Ipv4.{Ipv4Header, read_fields, fixed_part}

-- The values fit their fields, and the version and the header length are ones that are allowed.
pub record Fits (h : Ipv4Header) : Type 0 where
  pub ver : h.ver ≡ 4
  pub hlen_low : 5 ≤ h.hlen
  pub hlen_high : h.hlen < 16
  pub tos : h.tos < 2 ^ 8
  pub len : h.len < 2 ^ 16
  pub id : h.id < 2 ^ 16
  pub offset : h.offset < 2 ^ 13
  pub ttl : h.ttl < 2 ^ 8
  pub proto : h.proto < 2 ^ 8
  pub cksum : h.cksum < 2 ^ 16
  pub src : h.src < 2 ^ 32
  pub dst : h.dst < 2 ^ 32

abbrev first_byte : Ipv4Header → ℕ
first_byte h = h.ver * 2 ^ 4 % 2 ^ 8 + h.hlen % 2 ^ 4

abbrev fo_val : Ipv4Header → ℕ
fo_val h = bit h.df 14 + bit h.mf 13 + h.offset % 2 ^ 13

-- The bytes of a header with others behind them, one field after the other.
abbrev pub laid_out : Ipv4Header → List ℕ → List ℕ
laid_out h tail =
    unparse_int 1 (first_byte h)
    ++ unparse_int 1 h.tos
    ++ unparse_int 2 h.len
    ++ unparse_int 2 h.id
    ++ unparse_int 2 (fo_val h)
    ++ unparse_int 1 h.ttl
    ++ unparse_int 1 h.proto
    ++ unparse_int 2 h.cksum
    ++ unparse_int 4 h.src
    ++ unparse_int 4 h.dst
    ++ tail

pub laid_out_lem : (h : Ipv4Header) (tail : List ℕ) → fixed_part h ++ tail ≡ laid_out h tail
unfolding fixed_part unparse_int
laid_out_lem h tail = refl

pub laid_out-append :
    (h : Ipv4Header) (xs ys : List ℕ) → laid_out h xs ++ ys ≡ laid_out h (xs ++ ys)
unfolding unparse_int
laid_out-append h xs ys = refl

pub length-laid_out : (h : Ipv4Header) (tail : List ℕ) → length (laid_out h tail) ≡ 20 + length tail
unfolding unparse_int
length-laid_out h tail = omega arith

pub fixed_part-length : (h : Ipv4Header) → length (fixed_part h) ≡ 20
unfolding fixed_part unparse_int
fixed_part-length h = refl

-- The flags and the offset are read back from their bits.
fo_val-bits :
    (d m : Bool) (o : ℕ)
    → o < 2 ^ 13
    → let n = bit d 14 + bit m 13 + o % 2 ^ 13 in
      (has_bit n 14 ≡ d) × (has_bit n 13 ≡ m) × (n % 2 ^ 13 ≡ o) × (n < 2 ^ 16)
fo_val-bits d m o small = ground arith

-- The end of `read_fields`, when the ten fields have been read.
abbrev filled : (first tos len id fo ttl proto cksum src dst : ℕ) → Ipv4Header
filled first tos len id fo ttl proto cksum src dst = record {
  ver = first / 2 ^ 4;
  hlen = first % 2 ^ 4;
  tos = tos;
  len = len;
  id = id;
  df = has_bit fo 14;
  mf = has_bit fo 13;
  offset = fo % 2 ^ 13;
  ttl = ttl;
  proto = proto;
  cksum = cksum;
  src = src;
  dst = dst;
}

read_steps :
    {a b c d e f g i j k : ℕ} (p₀ p₁ p₂ p₃ p₄ p₅ p₆ p₇ p₈ p₉ p₁₀ : NetParser)
    → Parser.u8 p₀ ≡ (a, p₁)
    → Parser.u8 p₁ ≡ (b, p₂)
    → Parser.u16 p₂ ≡ (c, p₃)
    → Parser.u16 p₃ ≡ (d, p₄)
    → Parser.u16 p₄ ≡ (e, p₅)
    → Parser.u8 p₅ ≡ (f, p₆)
    → Parser.u8 p₆ ≡ (g, p₇)
    → Parser.u16 p₇ ≡ (i, p₈)
    → Parser.u32 p₈ ≡ (j, p₉)
    → Parser.u32 p₉ ≡ (k, p₁₀)
    → read_fields p₀ ≡ (filled a b c d e f g i j k, p₁₀)
unfolding read_fields
read_steps p₀ p₁ p₂ p₃ p₄ p₅ p₆ p₇ p₈ p₉ p₁₀ e₁ e₂ e₃ e₄ e₅ e₆ e₇ e₈ e₉ e₁₀ =
    rw (e₁, e₂, e₃, e₄, e₅, e₆, e₇, e₈, e₉, e₁₀) refl

pub read_laid_out :
    (h : Ipv4Header) (tail : List ℕ)
    → Fits h
    → read_fields (Parser.create (laid_out h tail)) ≡ (h, Parser.create tail)
unfolding unparse_int
read_laid_out h tail fits =
    let bits = fo_val-bits h.df h.mf h.offset fits.offset in
    let version : first_byte h / 2 ^ 4 ≡ h.ver = omega (arith, fits.ver, fits.hlen_high) in
    let words : first_byte h % 2 ^ 4 ≡ h.hlen = omega (arith, fits.ver, fits.hlen_high) in
    read_steps _ _ _ _ _ _ _ _ _ _ _ (u8_unparse (first_byte h) _ (omega (arith, fits.ver)))
      (u8_unparse h.tos _ fits.tos) (u16_unparse h.len _ fits.len) (u16_unparse h.id _ fits.id)
      (u16_unparse (fo_val h) _ bits.3) (u8_unparse h.ttl _ fits.ttl)
      (u8_unparse h.proto _ fits.proto) (u16_unparse h.cksum _ fits.cksum)
      (u32_unparse h.src _ fits.src) (u32_unparse h.dst tail fits.dst)
    ∙ λ i. (
      record h { ver = version i; hlen = words i; df = bits.0 i; mf = bits.1 i; offset = bits.2 i },
      Parser.create tail,
    )
