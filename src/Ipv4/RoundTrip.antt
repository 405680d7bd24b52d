-- ===== src/Ipv4/RoundTrip.antt =====
-- A datagram comes back from its bytes, and its header's checksum is found right.
use mathlib.Core.Path.{subst}
use cpp_tcp.Common.{
  ℕ, ◌+◌, ◌-◌, ◌*◌, ◌^◌, ◌≤◌, ◌<◌, ◌≡◌, refl, sym, ap, ◌∙◌, arith, zero, suc, Bool, true, false,
  not, ◌==◌, List, [], ◌∷◌, ◌++◌, ltb, if◌then◌else◌, Returns, Result, ok, err, Error, ◌>>=◌,
  replicate, length, length-append, length-replicate, take, append-nil,
}
use cpp_tcp.Checksum
use cpp_tcp.Checksum.Laws.{words, AllBytes, add-sum, value_verifies}
use cpp_tcp.Parser
use cpp_tcp.Parser.{NetParser, ParseResult, unparse_int, remove_prefix}
use cpp_tcp.TcpWire.Header.{resize_longer, remove_prefix_lem}
use cpp_tcp.TcpWire.Checked.{AllBytes-replicate, value-sum, value_small}
use cpp_tcp.Ipv4
use cpp_tcp.Ipv4.{
  Ipv4Header, Ipv4Datagram, read_fields, check_fields, parse_header, fixed_part, serialize_header,
  payload_length, parse, serialize,
}
use cpp_tcp.Ipv4.Layout.{
  Fits, laid_out, laid_out_lem, laid_out-append, length-laid_out, fixed_part-length, read_laid_out,
}

abbrev pub with_cksum : Ipv4Header → ℕ → Ipv4Header
with_cksum h k = record h { cksum = k }

-- The padding that a header length above 5 asks for.
abbrev pub padding : Ipv4Header → List ℕ
padding h = replicate (h.hlen * 4 - 20) 0

-- The sum of the words of a header whose checksum field is 0, and its checksum.
abbrev pub word_sum : Ipv4Header → ℕ
word_sum h = words false (laid_out (with_cksum h 0) (padding h))

abbrev pub checksum_of : Ipv4Header → ℕ
checksum_of h = Checksum.value (Checksum.create (word_sum h))

words-cksum :
    (h : Ipv4Header) (k : ℕ) (tail : List ℕ)
    → k < 2 ^ 16
    → words false (laid_out (with_cksum h k) tail)
      ≡ words false (laid_out (with_cksum h 0) tail) + k
unfolding unparse_int
words-cksum h k tail small = ground arith

AllBytes-laid_out : (h : Ipv4Header) (tail : List ℕ) → AllBytes tail → AllBytes (laid_out h tail)
unfolding unparse_int
AllBytes-laid_out h tail all = ground (arith, all)

pub words-bound :
    (p : Bool) (bytes : List ℕ) → AllBytes bytes → words p bytes ≤ 65280 * length bytes
words-bound p [] all = omega arith
words-bound true (byte ∷ bytes) all = omega (arith, all.0, words-bound false bytes all.1)
words-bound false (byte ∷ bytes) all = omega (arith, all.0, words-bound true bytes all.1)

AllBytes-header : (h : Ipv4Header) → AllBytes (laid_out h (padding h))
AllBytes-header h =
    AllBytes-laid_out h (padding h)
      (subst AllBytes (append-nil (padding h)) (AllBytes-replicate (h.hlen * 4 - 20) [] tt))

header_size : (h : Ipv4Header) → 5 ≤ h.hlen → length (laid_out h (padding h)) ≡ 4 * h.hlen
header_size h low =
    length-laid_out h (padding h) ∙ omega (arith, low, length-replicate {A = ℕ} (h.hlen * 4 - 20) 0)

word_sum-bound : (h : Ipv4Header) → Fits h → word_sum h ≤ 65280 * 60
word_sum-bound h fits = omega (
  arith,
  words-bound false (laid_out (with_cksum h 0) (padding h)) (AllBytes-header (with_cksum h 0)),
  header_size (with_cksum h 0) fits.hlen_low,
  fits.hlen_high,
)

value-header :
    (h : Ipv4Header) (k : ℕ)
    → Fits h
    → k < 2 ^ 16
    → Checksum.value (Checksum.add (Checksum.create 0) (laid_out (with_cksum h k) (padding h)))
      ≡ Checksum.value (Checksum.create (word_sum h + k))
value-header h k fits word =
    let bytes = laid_out (with_cksum h k) (padding h) in
    let total : words false bytes ≡ word_sum h + k = words-cksum h k (padding h) word in
    let bound = word_sum-bound h fits in
    value-sum _ _ (
      add-sum bytes 0 false (AllBytes-header (with_cksum h k)) (omega (arith, total, bound))
      ∙ omega (arith, total))

serialize_header_lem : (h : Ipv4Header) → Fits h → serialize_header h ≡ ok (laid_out h (padding h))
unfolding serialize_header
serialize_header_lem h fits =
    let four : not (h.ver == 4) ≡ false = ground (arith, fits.ver) in
    let long : ltb (4 * h.hlen) 20 ≡ false = ground (arith, fits.hlen_low) in
    rw (four, long)
      (ap ok (
        resize_longer (fixed_part h) (h.hlen * 4 - 20) (4 * h.hlen)
          (omega (arith, fixed_part-length h, fits.hlen_low))
        ∙ laid_out_lem h (padding h)))

take_front : (n : ℕ) (xs ys : List ℕ) → n ≡ length xs → take n (xs ++ ys) ≡ xs
take_front zero [] ys e = refl
take_front (suc n) [] ys e = absurd (omega (arith, e))
take_front zero (x ∷ xs) ys e = absurd (omega (arith, e))
take_front (suc n) (x ∷ xs) ys e = ap (λ zs. x ∷ zs) (take_front n xs ys (omega (arith, e)))

parse_steps :
    (old h : Ipv4Header) (buffer : List ℕ) (p' p'' : NetParser)
    → read_fields (Parser.create buffer) ≡ (h, p')
    → ltb (length buffer) 20 ≡ false
    → check_fields h (length buffer) ≡ ParseResult.no_error
    → remove_prefix p' (h.hlen * 4 - 20) ≡ p''
    → p''.result ≡ ParseResult.no_error
    → Checksum.value (Checksum.add (Checksum.create 0) (take (4 * h.hlen) buffer)) ≡ 0
    → parse_header old (Parser.create buffer) ≡ (ParseResult.no_error, h, p'')
unfolding parse_header Parser.is_error
parse_steps old h buffer p' p'' e₁ e₂ e₃ e₄ e₅ e₆ = rw (e₁, e₂, e₃, e₄, e₅, e₆) refl

-- A datagram that can be sent: the total length is that of the header and the payload.
pub record Sendable (d : Ipv4Datagram) : Type 0 where
  pub fits : Fits d.header
  pub total : d.header.len ≡ 4 * d.header.hlen + length d.payload

-- The header as it is sent.
abbrev pub sent_header : Ipv4Datagram → Ipv4Header
sent_header d = with_cksum d.header (checksum_of d.header)

sent-Fits : (d : Ipv4Datagram) → Sendable d → Fits (sent_header d)
sent-Fits d s = record {
  ver = s.fits.ver;
  hlen_low = s.fits.hlen_low;
  hlen_high = s.fits.hlen_high;
  tos = s.fits.tos;
  len = s.fits.len;
  id = s.fits.id;
  offset = s.fits.offset;
  ttl = s.fits.ttl;
  proto = s.fits.proto;
  cksum = value_small _;
  src = s.fits.src;
  dst = s.fits.dst;
}

abbrev sent_bytes : Ipv4Datagram → List ℕ
sent_bytes d = laid_out (sent_header d) (padding d.header) ++ d.payload

check_fields_lem :
    (d : Ipv4Datagram) (n : ℕ)
    → Sendable d
    → n ≡ 4 * d.header.hlen + length d.payload
    → check_fields (sent_header d) n ≡ ParseResult.no_error
unfolding check_fields
check_fields_lem d n s e = ground (arith, s.fits.ver, s.fits.hlen_low, s.total)

parse_header-sent :
    (old : Ipv4Header) (d : Ipv4Datagram)
    → Sendable d
    → parse_header old (Parser.create (sent_bytes d))
      ≡ (ParseResult.no_error, sent_header d, Parser.create d.payload)
parse_header-sent old d s =
    let k = checksum_of d.header in
    let h = sent_header d in
    let header = laid_out h (padding h) in
    let size : length header ≡ 4 * h.hlen = header_size h s.fits.hlen_low in
    let whole : length (sent_bytes d) ≡ 4 * h.hlen + length d.payload =
      length-append header d.payload ∙ omega (arith, size) in
    parse_steps old h (sent_bytes d) _ (Parser.create d.payload)
      (ap (λ bytes. read_fields (Parser.create bytes)) (laid_out-append h (padding h) d.payload)
        ∙ read_laid_out h (padding h ++ d.payload) (sent-Fits d s))
      (ground (arith, whole, s.fits.hlen_low)) (check_fields_lem d (length (sent_bytes d)) s whole)
      (remove_prefix_lem (h.hlen * 4 - 20) d.payload) refl
      (ap (λ bytes. Checksum.value (Checksum.add (Checksum.create 0) bytes))
          (take_front (4 * h.hlen) header d.payload (sym size))
        ∙ value-header d.header k s.fits (value_small _)
        ∙ value_verifies (word_sum d.header) false false
            (omega (arith, word_sum-bound d.header s.fits)))

-- The header's parse finds nothing wrong, the checksum included, and the datagram is the one sent,
-- its checksum filled in.
abbrev pub ComesBack : Ipv4Datagram → List ℕ → Type 0
ComesBack d bytes =
    (parse_header Ipv4.default_header (Parser.create bytes)
      ≡ (ParseResult.no_error, sent_header d, Parser.create d.payload))
    × (parse bytes ≡ (ParseResult.no_error, record d { header = sent_header d }))

payload_length_lem : (d : Ipv4Datagram) → Sendable d → payload_length d.header ≡ length d.payload
unfolding payload_length
payload_length_lem d s = omega (arith, s.total, s.fits.len, s.fits.hlen_high)

parse-sent :
    (d : Ipv4Datagram)
    → Sendable d
    → parse (sent_bytes d) ≡ (ParseResult.no_error, record d { header = sent_header d })
unfolding parse payload_length
parse-sent d s =
    let right : not (length d.payload == payload_length d.header) ≡ false =
      ground (arith, payload_length_lem d s) in
    rw (parse_header-sent Ipv4.default_header d s, right) refl

zeroed-Fits : (h : Ipv4Header) → Fits h → Fits (with_cksum h 0)
zeroed-Fits h fits = record {
  ver = fits.ver;
  hlen_low = fits.hlen_low;
  hlen_high = fits.hlen_high;
  tos = fits.tos;
  len = fits.len;
  id = fits.id;
  offset = fits.offset;
  ttl = fits.ttl;
  proto = fits.proto;
  cksum = omega arith;
  src = fits.src;
  dst = fits.dst;
}

-- The header with the checksum `k`, and the payload behind it.
abbrev finish : Ipv4Datagram → ℕ → Result (List ℕ)
finish d k = serialize_header (with_cksum d.header k) >>= λ header. ok (header ++ d.payload)

serialize-sent : (d : Ipv4Datagram) → Sendable d → serialize d ≡ ok (sent_bytes d)
unfolding serialize
serialize-sent d s =
    let right : not (length d.payload == payload_length d.header) ≡ false =
      ground (arith, payload_length_lem d s) in
    let zeroed = with_cksum d.header 0 in
    let check = λ (bytes : List ℕ). Checksum.value (Checksum.add (Checksum.create 0) bytes) in
    ap
      (λ b.
        if b
        then err Error.runtime_error
        else (serialize_header zeroed >>= λ bytes. finish d (check bytes)))
      right
    ∙ ap (λ m. m >>= λ bytes. finish d (check bytes))
        (serialize_header_lem zeroed (zeroed-Fits d.header s.fits))
    ∙ ap (finish d) (
        value-header d.header 0 s.fits (omega arith)
        ∙ ap (λ n. Checksum.value (Checksum.create n)) (omega arith))
    ∙ ap (λ m. m >>= λ header. ok (header ++ d.payload))
        (serialize_header_lem (sent_header d) (sent-Fits d s))

-- A datagram whose values fit, of version 4 and with the right total length, comes back from its
-- bytes: `serialize` returns them, the header's parse finds its checksum right, and `parse` gives the
-- same datagram with the checksum filled in.
pub parse-serialize_datagram : (d : Ipv4Datagram) → Sendable d → Returns (ComesBack d) (serialize d)
parse-serialize_datagram d s =
    subst (Returns (ComesBack d)) (sym (serialize-sent d s))
      (parse_header-sent Ipv4.default_header d s, parse-sent d s)
