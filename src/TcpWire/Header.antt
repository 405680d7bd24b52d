-- ===== src/TcpWire/Header.antt =====
-- A header comes back from its bytes.
use cpp_tcp.Common.{
  ℕ, zero, suc, ◌+◌, ◌-◌, ◌*◌, ◌/◌, ◌^◌, ◌≤◌, ◌<◌, ◌≡◌, refl, ap, ◌∙◌, arith, Bool, false, List, [],
  ◌∷◌, ◌++◌, ltb, if◌then◌else◌, length, drop, Returns, Returns-map, resize, replicate,
  length-replicate, length-append, append_assoc,
}
use cpp_tcp.Parser
use cpp_tcp.Parser.{ParseResult, NetParser, unparse_int, remove_prefix}
use cpp_tcp.Parser.Laws.{u16_unparse, u32_unparse, u8_unparse}
use cpp_tcp.Segment.{TcpHeader}
use cpp_tcp.TcpWire.{parse_header, serialize_header, fixed_part, flags, bit, has_bit}

-- The values fit their fields, and the data offset is one that the header allows.
pub record Fits (h : TcpHeader) : Type 0 where
  pub sport : h.sport < 2 ^ 16
  pub dport : h.dport < 2 ^ 16
  pub seqno : h.seqno < 2 ^ 32
  pub ackno : h.ackno < 2 ^ 32
  pub doff_low : 5 ≤ h.doff
  pub doff_high : h.doff < 16
  pub win : h.win < 2 ^ 16
  pub cksum : h.cksum < 2 ^ 16
  pub uptr : h.uptr < 2 ^ 16

pub resize_longer :
    (xs : List ℕ) (k n : ℕ) → n ≡ length xs + k → resize n 0 xs ≡ xs ++ replicate k 0
resize_longer [] zero zero e = refl
resize_longer [] zero (suc n) e = absurd (omega (arith, e))
resize_longer [] (suc k) zero e = absurd (omega (arith, e))
resize_longer [] (suc k) (suc n) e = ap (λ ys. 0 ∷ ys) (resize_longer [] k n (omega (arith, e)))
resize_longer (x ∷ xs) k zero e = absurd (omega (arith, e))
resize_longer (x ∷ xs) k (suc n) e = ap (λ ys. x ∷ ys) (resize_longer xs k n (omega (arith, e)))

-- The bytes of a header with others behind them, one field after the other.
abbrev pub laid_out : TcpHeader → List ℕ → List ℕ
laid_out h tail =
    unparse_int 2 h.sport
    ++ unparse_int 2 h.dport
    ++ unparse_int 4 h.seqno
    ++ unparse_int 4 h.ackno
    ++ unparse_int 1 (h.doff * 2 ^ 4)
    ++ unparse_int 1 (flags h)
    ++ unparse_int 2 h.win
    ++ unparse_int 2 h.cksum
    ++ unparse_int 2 h.uptr
    ++ tail

laid_out_lem : (h : TcpHeader) (tail : List ℕ) → fixed_part h ++ tail ≡ laid_out h tail
unfolding fixed_part unparse_int
laid_out_lem h tail = refl

pub fixed_part-length : (h : TcpHeader) → length (fixed_part h) ≡ 20
unfolding fixed_part unparse_int
fixed_part-length h = refl

flags_small : (h : TcpHeader) → flags h < 2 ^ 8
flags_small h = ground arith

-- Each flag is read back from its bit.
flags-bits :
    (u a p r s f : Bool)
    → let n = bit u 5 + bit a 4 + bit p 3 + bit r 2 + bit s 1 + bit f 0 in
      (has_bit n 5 ≡ u)
      × (has_bit n 4 ≡ a)
      × (has_bit n 3 ≡ p)
      × (has_bit n 2 ≡ r)
      × (has_bit n 1 ≡ s)
      × (has_bit n 0 ≡ f)
flags-bits u a p r s f = ground arith

drop-replicate : (k : ℕ) (rest : List ℕ) → drop k (replicate k 0 ++ rest) ≡ rest
drop-replicate zero rest = refl
drop-replicate (suc k) rest = drop-replicate k rest

pub remove_prefix_lem :
    (k : ℕ) (rest : List ℕ)
    → remove_prefix (Parser.create (replicate k 0 ++ rest)) k ≡ Parser.create rest
unfolding remove_prefix Parser.check_size Parser.is_error
remove_prefix_lem k rest =
    ground (
      arith,
      length-replicate {A = ℕ} k 0,
      length-append (replicate k 0) rest,
      drop-replicate k rest,
    )

-- The end of `parse_header`, when the nine fields have been read.
abbrev pub finish :
    (sport dport seqno ackno offset fl_b win cksum uptr : ℕ)
    → NetParser
    → ParseResult × TcpHeader × NetParser
finish sport dport seqno ackno offset fl_b win cksum uptr p₉ =
    let doff = offset / 2 ^ 4 in
    let header : TcpHeader = record {
      sport = sport;
      dport = dport;
      seqno = seqno;
      ackno = ackno;
      doff = doff;
      urg = has_bit fl_b 5;
      ack = has_bit fl_b 4;
      psh = has_bit fl_b 3;
      rst = has_bit fl_b 2;
      syn = has_bit fl_b 1;
      fin = has_bit fl_b 0;
      win = win;
      cksum = cksum;
      uptr = uptr;
    } in
    let p' = remove_prefix p₉ (doff * 4 - 20) in
    if ltb doff 5 then (ParseResult.header_too_short, header, p₉) else (p'.result, header, p')

parse_steps :
    {a b c d e f g i j : ℕ} (p₀ p₁ p₂ p₃ p₄ p₅ p₆ p₇ p₈ p₉ : NetParser)
    → Parser.u16 p₀ ≡ (a, p₁)
    → Parser.u16 p₁ ≡ (b, p₂)
    → Parser.u32 p₂ ≡ (c, p₃)
    → Parser.u32 p₃ ≡ (d, p₄)
    → Parser.u8 p₄ ≡ (e, p₅)
    → Parser.u8 p₅ ≡ (f, p₆)
    → Parser.u16 p₆ ≡ (g, p₇)
    → Parser.u16 p₇ ≡ (i, p₈)
    → Parser.u16 p₈ ≡ (j, p₉)
    → parse_header p₀ ≡ finish a b c d e f g i j p₉
unfolding parse_header
parse_steps p₀ p₁ p₂ p₃ p₄ p₅ p₆ p₇ p₈ p₉ e₁ e₂ e₃ e₄ e₅ e₆ e₇ e₈ e₉ =
    rw (e₁, e₂, e₃, e₄, e₅, e₆, e₇, e₈, e₉) refl

finish_lem :
    (h : TcpHeader) (rest : List ℕ)
    → Fits h
    → finish h.sport h.dport h.seqno h.ackno
        (h.doff * 2 ^ 4)
        (flags h)
        h.win
        h.cksum
        h.uptr
        (Parser.create (replicate (h.doff * 4 - 20) 0 ++ rest))
      ≡ (ParseResult.no_error, h, Parser.create rest)
finish_lem h rest fits =
    let offset : h.doff * 2 ^ 4 / 2 ^ 4 ≡ h.doff = omega arith in
    let long : ltb h.doff 5 ≡ false = ground (arith, fits.doff_low) in
    let bits = flags-bits h.urg h.ack h.psh h.rst h.syn h.fin in
    rw (offset, long, remove_prefix_lem (h.doff * 4 - 20) rest)
      (λ i. (
        ParseResult.no_error,
        record h {
          urg = bits.0 i;
          ack = bits.1 i;
          psh = bits.2 i;
          rst = bits.3 i;
          syn = bits.4 i;
          fin = bits.5 i;
        },
        Parser.create rest,
      ))

pub parse_laid_out :
    (h : TcpHeader) (rest : List ℕ)
    → Fits h
    → parse_header (Parser.create (laid_out h (replicate (h.doff * 4 - 20) 0 ++ rest)))
      ≡ (ParseResult.no_error, h, Parser.create rest)
unfolding unparse_int
parse_laid_out h rest fits =
    parse_steps _ _ _ _ _ _ _ _ _ _ (u16_unparse h.sport _ fits.sport)
      (u16_unparse h.dport _ fits.dport) (u32_unparse h.seqno _ fits.seqno)
      (u32_unparse h.ackno _ fits.ackno)
      (u8_unparse (h.doff * 2 ^ 4) _ (omega (arith, fits.doff_high)))
      (u8_unparse (flags h) _ (flags_small h)) (u16_unparse h.win _ fits.win)
      (u16_unparse h.cksum _ fits.cksum)
      (u16_unparse h.uptr (replicate (h.doff * 4 - 20) 0 ++ rest) fits.uptr)
    ∙ finish_lem h rest fits

-- What `serialize` returns, with other bytes behind it.
pub serialize_header-laid_out :
    (h : TcpHeader) (rest : List ℕ)
    → 5 ≤ h.doff
    → Returns
        (λ bytes. bytes ++ rest ≡ laid_out h (replicate (h.doff * 4 - 20) 0 ++ rest))
        (serialize_header h)
unfolding serialize_header
serialize_header-laid_out h rest low =
    let long : ltb h.doff 5 ≡ false = ground (arith, low) in
    rw long (
      ap (λ bytes. bytes ++ rest)
        (resize_longer (fixed_part h) (h.doff * 4 - 20) (4 * h.doff)
          (omega (arith, fixed_part-length h, low)))
      ∙ append_assoc (fixed_part h) (replicate (h.doff * 4 - 20) 0) rest
      ∙ laid_out_lem h (replicate (h.doff * 4 - 20) 0 ++ rest))

-- Parsing the bytes of a header, with anything behind them, gives the header back and leaves what
-- is behind it.
pub parse-serialize_header :
    (h : TcpHeader) (rest : List ℕ)
    → Fits h
    → Returns
        (λ bytes.
          parse_header (Parser.create (bytes ++ rest))
          ≡ (ParseResult.no_error, h, Parser.create rest))
        (serialize_header h)
parse-serialize_header h rest fits =
    Returns-map _ _ (serialize_header h)
      (λ bytes laid. ap (λ all. parse_header (Parser.create all)) laid ∙ parse_laid_out h rest fits)
      (serialize_header-laid_out h rest fits.doff_low)
