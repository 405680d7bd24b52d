-- ===== src/TcpWire/Checked.antt =====
-- A segment comes back from its bytes, and its checksum is found right.
use mathlib.Core.Path.{subst}
use cpp_tcp.Common.{
  ℕ, zero, suc, ◌+◌, ◌-◌, ◌*◌, ◌^◌, ◌<◌, ◌≡◌, refl, sym, ap, ◌∙◌, arith, false, List, [], ◌∷◌, ◌++◌,
  Returns, Returns-bind, ok, ◌>>=◌, replicate,
}
use cpp_tcp.Checksum
use cpp_tcp.Checksum.{InternetChecksum}
use cpp_tcp.Checksum.Laws.{words, AllBytes, add-sum, value_verifies}
use cpp_tcp.Parser.{ParseResult, unparse_int}
use cpp_tcp.Segment.{TcpHeader, TcpSegment}
use cpp_tcp.TcpWire.{serialize_header, parse, serialize}
use cpp_tcp.TcpWire.Header.{Fits, laid_out, serialize_header-laid_out, parse_laid_out}

add-append :
    (xs ys : List ℕ) (c : InternetChecksum)
    → Checksum.add (Checksum.add c xs) ys ≡ Checksum.add c (xs ++ ys)
unfolding Checksum.add
add-append [] ys c = refl
add-append (x ∷ xs) ys c = add-append xs ys _

abbrev pub with_cksum : TcpHeader → ℕ → TcpHeader
with_cksum h k = record h { cksum = k }

-- The header contributes its checksum field to the sum of the words.
pub words-cksum :
    (h : TcpHeader) (k : ℕ) (tail : List ℕ)
    → k < 2 ^ 16
    → words false (laid_out (with_cksum h k) tail)
      ≡ words false (laid_out (with_cksum h 0) tail) + k
unfolding unparse_int
words-cksum h k tail small = ground arith

pub AllBytes-laid_out : (h : TcpHeader) (tail : List ℕ) → AllBytes tail → AllBytes (laid_out h tail)
unfolding unparse_int
AllBytes-laid_out h tail all = ground (arith, all)

pub AllBytes-replicate : (n : ℕ) (rest : List ℕ) → AllBytes rest → AllBytes (replicate n 0 ++ rest)
AllBytes-replicate zero rest all = all
AllBytes-replicate (suc n) rest all = (omega arith, AllBytes-replicate n rest all)

-- What stands behind the fixed part of the header: the padding and the payload.
abbrev pub behind : TcpSegment → List ℕ
behind seg = replicate (seg.header.doff * 4 - 20) 0 ++ seg.payload

-- The sum of the words of a segment whose checksum field is 0.
abbrev pub word_sum : TcpSegment → ℕ
word_sum seg = words false (laid_out (with_cksum seg.header 0) (behind seg))

abbrev pub checksum_of : TcpSegment → ℕ → ℕ
checksum_of seg d = Checksum.value (Checksum.create (d + word_sum seg))

pub value_small : (c : InternetChecksum) → Checksum.value c < 2 ^ 16
unfolding Checksum.value
value_small c = omega arith

pub value-sum :
    (c : InternetChecksum) (s : ℕ)
    → c.sum ≡ s
    → Checksum.value c ≡ Checksum.value (Checksum.create s)
unfolding Checksum.value
value-sum c s e = ap (λ n. Checksum.value (Checksum.create n)) e

-- The checksum of the laid out bytes, for either value of the field.
value-laid_out :
    (seg : TcpSegment) (d k : ℕ)
    → AllBytes seg.payload
    → k < 2 ^ 16
    → d + word_sum seg + k < 2 ^ 32
    → Checksum.value
        (Checksum.add (Checksum.create d) (laid_out (with_cksum seg.header k) (behind seg)))
      ≡ Checksum.value (Checksum.create (d + word_sum seg + k))
value-laid_out seg d k all word small =
    let bytes = laid_out (with_cksum seg.header k) (behind seg) in
    let total : words false bytes ≡ word_sum seg + k = words-cksum seg.header k (behind seg) word in
    value-sum _ _ (
      add-sum bytes d false
        (AllBytes-laid_out (with_cksum seg.header k) (behind seg)
          (AllBytes-replicate _ seg.payload all))
        (omega (arith, total))
      ∙ omega (arith, total))

with_cksum-Fits : (h : TcpHeader) (k : ℕ) → Fits h → k < 2 ^ 16 → Fits (with_cksum h k)
with_cksum-Fits h k fits small = record {
  sport = fits.sport;
  dport = fits.dport;
  seqno = fits.seqno;
  ackno = fits.ackno;
  doff_low = fits.doff_low;
  doff_high = fits.doff_high;
  win = fits.win;
  cksum = small;
  uptr = fits.uptr;
}

parse-laid_out :
    (seg : TcpSegment) (d : ℕ)
    → Fits seg.header
    → AllBytes seg.payload
    → d + word_sum seg + 65535 < 2 ^ 32
    → parse (laid_out (with_cksum seg.header (checksum_of seg d)) (behind seg)) d
      ≡ (ParseResult.no_error, record seg { header = with_cksum seg.header (checksum_of seg d) })
unfolding parse
parse-laid_out seg d fits all small =
    let k = checksum_of seg d in
    let word : k < 2 ^ 16 = value_small _ in
    let right : Checksum.value
          (Checksum.add (Checksum.create d) (laid_out (with_cksum seg.header k) (behind seg)))
        ≡ 0 =
      value-laid_out seg d k all word (omega arith)
      ∙ value_verifies (d + word_sum seg) false false small in
    rw
      (
        parse_laid_out (with_cksum seg.header k) seg.payload
            (with_cksum-Fits seg.header k fits word),
        right,
      )
      refl

-- `parse` accepts the bytes and gives the segment, with its checksum filled in.
abbrev pub ComesBack : TcpSegment → ℕ → List ℕ → Type 0
ComesBack seg d bytes =
    parse bytes d
    ≡ (ParseResult.no_error, record seg { header = with_cksum seg.header (checksum_of seg d) })

sealed :
    (seg : TcpSegment) (d : ℕ)
    → Fits seg.header
    → AllBytes seg.payload
    → d + word_sum seg + 65535 < 2 ^ 32
    → Returns (ComesBack seg d) (
        serialize_header (with_cksum seg.header (checksum_of seg d)) >>= λ header.
        ok (header ++ seg.payload))
sealed seg d fits all small =
    Returns-bind _ (ComesBack seg d) (serialize_header (with_cksum seg.header (checksum_of seg d)))
      _
      (serialize_header-laid_out (with_cksum seg.header (checksum_of seg d)) seg.payload
        fits.doff_low)
      λ header laid. ap (λ bytes. parse bytes d) laid ∙ parse-laid_out seg d fits all small

-- A segment whose values fit their fields comes back from its bytes: the peer's `parse`, over the
-- same pseudo-header sum, finds the checksum right and gives the same segment, its checksum field
-- filled in. The sum of all 16-bit words must not reach 2 ^ 32.
pub parse-serialize :
    (seg : TcpSegment) (d : ℕ)
    → Fits seg.header
    → AllBytes seg.payload
    → d + word_sum seg + 65535 < 2 ^ 32
    → Returns (ComesBack seg d) (serialize seg d)
unfolding serialize
parse-serialize seg d fits all small =
    Returns-bind _ _ (serialize_header (with_cksum seg.header 0)) _
      (serialize_header-laid_out (with_cksum seg.header 0) seg.payload fits.doff_low)
      λ zeroed laid.
        subst
          (λ k.
            Returns (ComesBack seg d)
              (serialize_header (with_cksum seg.header k) >>= λ header. ok (header ++ seg.payload)))
          (sym (
            ap Checksum.value (add-append zeroed seg.payload (Checksum.create d))
            ∙ ap (λ bytes. Checksum.value (Checksum.add (Checksum.create d) bytes)) laid
            ∙ value-laid_out seg d 0 all (omega arith) (omega arith)
            ∙ ap (λ n. Checksum.value (Checksum.create n)) (omega arith)))
          (sealed seg d fits all small)
