-- ===== src/TcpWire.antt =====
-- libsponge/tcp_helpers/tcp_header.cc and tcp_segment.cc: headers and segments as bytes. A
-- `BufferList` is the list of its bytes.
pub mod Header
pub mod Checked
use cpp_tcp.Common.{
  ℕ, ◌+◌, ◌-◌, ◌*◌, ◌/◌, ◌%◌, ◌^◌, Bool, true, false, not, ◌==◌, List, [], ◌∷◌, ◌++◌, ltb,
  if◌then◌else◌, Result, ok, err, Error, ◌>>=◌, resize,
}
use cpp_tcp.Checksum
use cpp_tcp.Parser
use cpp_tcp.Parser.{NetParser, ParseResult, unparse_int, remove_prefix, error}
use cpp_tcp.Segment
use cpp_tcp.Segment.{TcpHeader, TcpSegment}

-- `TCPHeader::LENGTH`
abbrev pub header_length : ℕ
header_length = 20

-- `fl_b & (1 << k)`, for a single bit
abbrev pub has_bit : ℕ → ℕ → Bool
has_bit fl_b k = fl_b / 2 ^ k % 2 == 1

-- `flag ? 1 << k : 0`
abbrev pub bit : Bool → ℕ → ℕ
bit flag k = if flag then 2 ^ k else 0

-- `TCPHeader::parse`: the result, the header and what is left in the parser.
unfoldable pub parse_header : NetParser → ParseResult × TcpHeader × NetParser
parse_header p₀ =
    let (sport, p₁) = Parser.u16 p₀ in
    let (dport, p₂) = Parser.u16 p₁ in
    let (seqno, p₃) = Parser.u32 p₂ in
    let (ackno, p₄) = Parser.u32 p₃ in
    let (offset, p₅) = Parser.u8 p₄ in
    let (fl_b, p₆) = Parser.u8 p₅ in
    let (win, p₇) = Parser.u16 p₆ in
    let (cksum, p₈) = Parser.u16 p₇ in
    let (uptr, p₉) = Parser.u16 p₈ in
    let doff = offset / 2 ^ 4 in
    let header : TcpHeader = record {
      sport = sport;
      dport = dport;
      seqno = seqno;
      ackno = ackno;
      doff = doff;
      urg = has_bit fl_b 5;
      ack = has_bit fl_b 4;
      psh = has_bit fl_b 3;
      rst = has_bit fl_b 2;
      syn = has_bit fl_b 1;
      fin = has_bit fl_b 0;
      win = win;
      cksum = cksum;
      uptr = uptr;
    } in
    let p' = remove_prefix p₉ (doff * 4 - header_length) in
    if ltb doff 5 then (ParseResult.header_too_short, header, p₉) else (p'.result, header, p')

-- The flags are single bits, so their disjunction is their sum.
abbrev pub flags : TcpHeader → ℕ
flags h = bit h.urg 5 + bit h.ack 4 + bit h.psh 3 + bit h.rst 2 + bit h.syn 1 + bit h.fin 0

-- The 20 bytes that `serialize` writes before it resizes the string.
unfoldable pub fixed_part : TcpHeader → List ℕ
fixed_part h =
    unparse_int 2 h.sport
    ++ unparse_int 2 h.dport
    ++ unparse_int 4 h.seqno
    ++ unparse_int 4 h.ackno
    ++ unparse_int 1 (h.doff * 2 ^ 4)
    ++ unparse_int 1 (flags h)
    ++ unparse_int 2 h.win
    ++ unparse_int 2 h.cksum
    ++ unparse_int 2 h.uptr

-- `TCPHeader::serialize`
unfoldable pub serialize_header : TcpHeader → Result (List ℕ)
serialize_header h =
    if ltb h.doff 5 then err Error.runtime_error else ok (resize (4 * h.doff) 0 (fixed_part h))

-- `TCPSegment::parse`. The result of the header's own parse is not looked at.
unfoldable pub parse : List ℕ → ℕ → ParseResult × TcpSegment
parse buffer datagram_layer_checksum =
    let check = Checksum.add (Checksum.create datagram_layer_checksum) buffer in
    let (_, header, p) = parse_header (Parser.create buffer) in
    if not (Checksum.value check == 0)
    then (ParseResult.bad_checksum, Segment.default_segment)
    else (p.result, record { header = header; payload = p.buffer })

-- `TCPSegment::serialize`
unfoldable pub serialize : TcpSegment → ℕ → Result (List ℕ)
serialize seg datagram_layer_checksum = do
  zeroed ← serialize_header (record seg.header { cksum = 0 })
  let check =
      Checksum.add (Checksum.add (Checksum.create datagram_layer_checksum) zeroed) seg.payload
  header ← serialize_header (record seg.header { cksum = Checksum.value check })
  ok (header ++ seg.payload)
