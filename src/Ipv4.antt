-- ===== src/Ipv4.antt =====
-- libsponge/tcp_helpers/ipv4_header.hh, ipv4_header.cc, ipv4_datagram.hh and ipv4_datagram.cc: the
-- IPv4 header and datagram as bytes. A payload is the list of its bytes.
pub mod Layout
pub mod RoundTrip
use cpp_tcp.Common.{
  ℕ, ◌+◌, ◌-◌, ◌*◌, ◌/◌, ◌%◌, ◌^◌, Bool, true, false, not, ◌==◌, List, ◌++◌, ltb, if◌then◌else◌,
  Result, ok, err, Error, ◌>>=◌, resize, take, length, add32,
}
use cpp_tcp.Checksum
use cpp_tcp.Parser
use cpp_tcp.Parser.{NetParser, ParseResult, unparse_int, remove_prefix, is_error}
use cpp_tcp.TcpWire.{has_bit, bit}

-- `IPv4Header`
pub record Ipv4Header : Type 0 where
  pub ver : ℕ
  pub hlen : ℕ
  pub tos : ℕ
  pub len : ℕ
  pub id : ℕ
  pub df : Bool
  pub mf : Bool
  pub offset : ℕ
  pub ttl : ℕ
  pub proto : ℕ
  pub cksum : ℕ
  pub src : ℕ
  pub dst : ℕ

-- `IPv4Header::LENGTH`
abbrev pub header_length : ℕ
header_length = 20

-- The initial values of the members.
abbrev pub default_header : Ipv4Header
default_header = record {
  ver = 4;
  hlen = 5;
  tos = 0;
  len = 0;
  id = 0;
  df = true;
  mf = false;
  offset = 0;
  ttl = 128;
  proto = 6;
  cksum = 0;
  src = 0;
  dst = 0;
}

-- The part of `parse` that reads the fields.
unfoldable pub read_fields : NetParser → Ipv4Header × NetParser
read_fields p₀ =
    let (first_byte, p₁) = Parser.u8 p₀ in
    let (tos, p₂) = Parser.u8 p₁ in
    let (len, p₃) = Parser.u16 p₂ in
    let (id, p₄) = Parser.u16 p₃ in
    let (fo_val, p₅) = Parser.u16 p₄ in
    let (ttl, p₆) = Parser.u8 p₅ in
    let (proto, p₇) = Parser.u8 p₆ in
    let (cksum, p₈) = Parser.u16 p₇ in
    let (src, p₉) = Parser.u32 p₈ in
    let (dst, p₁₀) = Parser.u32 p₉ in
    (
      record {
        ver = first_byte / 2 ^ 4;
        hlen = first_byte % 2 ^ 4;
        tos = tos;
        len = len;
        id = id;
        df = has_bit fo_val 14;
        mf = has_bit fo_val 13;
        offset = fo_val % 2 ^ 13;
        ttl = ttl;
        proto = proto;
        cksum = cksum;
        src = src;
        dst = dst;
      },
      p₁₀,
    )

-- The tests of `parse` on the fields and the size of the data, in their order.
unfoldable pub check_fields : Ipv4Header → ℕ → ParseResult
check_fields h data_size =
    if ltb data_size (4 * h.hlen)
    then ParseResult.packet_too_short
    else if not (h.ver == 4)
    then ParseResult.wrong_ip_version
    else if ltb h.hlen 5
    then ParseResult.header_too_short
    else if not (data_size == h.len)
    then ParseResult.truncated_packet
    else ParseResult.no_error

-- `IPv4Header::parse` of a header that holds `old`: the result, the header and what is left in the
-- parser. The results of the tests are returned and not stored in the parser.
unfoldable pub parse_header : Ipv4Header → NetParser → ParseResult × Ipv4Header × NetParser
parse_header old p =
    let data_size = length p.buffer in
    let (header, p') = read_fields p in
    let tested = check_fields header data_size in
    let p'' = remove_prefix p' (header.hlen * 4 - header_length) in
    let check = Checksum.add (Checksum.create 0) (take (4 * header.hlen) p.buffer) in
    if ltb data_size header_length
    then (ParseResult.packet_too_short, old, p)
    else if is_error tested
    then (tested, header, p')
    else if is_error p''.result
    then (p''.result, header, p'')
    else if not (Checksum.value check == 0)
    then (ParseResult.bad_checksum, header, p'')
    else (ParseResult.no_error, header, p'')

-- The 20 bytes that `serialize` writes before it resizes the string. The parts of the first byte and
-- of `fo_val` share no bit, so their disjunction is their sum.
unfoldable pub fixed_part : Ipv4Header → List ℕ
fixed_part h =
    unparse_int 1 (h.ver * 2 ^ 4 % 2 ^ 8 + h.hlen % 2 ^ 4)
    ++ unparse_int 1 h.tos
    ++ unparse_int 2 h.len
    ++ unparse_int 2 h.id
    ++ unparse_int 2 (bit h.df 14 + bit h.mf 13 + h.offset % 2 ^ 13)
    ++ unparse_int 1 h.ttl
    ++ unparse_int 1 h.proto
    ++ unparse_int 2 h.cksum
    ++ unparse_int 4 h.src
    ++ unparse_int 4 h.dst

-- `IPv4Header::serialize`
unfoldable pub serialize_header : Ipv4Header → Result (List ℕ)
serialize_header h =
    if not (h.ver == 4)
    then err Error.runtime_error
    else if ltb (4 * h.hlen) header_length
    then err Error.runtime_error
    else ok (resize (4 * h.hlen) 0 (fixed_part h))

-- A uint16_t; `hlen` is a uint8_t, so `4 * hlen` is below 2 ^ 16.
unfoldable pub payload_length : Ipv4Header → ℕ
payload_length h = (h.len + 2 ^ 16 - 4 * h.hlen) % 2 ^ 16

unfoldable pub pseudo_cksum : Ipv4Header → ℕ
pseudo_cksum h =
    let of_src = add32 (h.src / 2 ^ 16) (h.src % 2 ^ 16) in
    let of_dst = add32 (h.dst / 2 ^ 16) (h.dst % 2 ^ 16) in
    add32 (add32 (add32 of_src of_dst) h.proto) (payload_length h)

-- `IPv4Datagram`
pub record Ipv4Datagram : Type 0 where
  pub header : Ipv4Header
  pub payload : List ℕ

-- `IPv4Datagram::parse`. The result of the header's own parse is not looked at.
unfoldable pub parse : List ℕ → ParseResult × Ipv4Datagram
parse buffer =
    let (_, header, p) = parse_header default_header (Parser.create buffer) in
    let datagram : Ipv4Datagram = record { header = header; payload = p.buffer } in
    if not (length p.buffer == payload_length header)
    then (ParseResult.packet_too_short, datagram)
    else (p.result, datagram)

-- `IPv4Datagram::serialize`
unfoldable pub serialize : Ipv4Datagram → Result (List ℕ)
serialize d =
    let written = (do
      zeroed ← serialize_header (record d.header { cksum = 0 })
      let check = Checksum.add (Checksum.create 0) zeroed
      header ← serialize_header (record d.header { cksum = Checksum.value check })
      ok (header ++ d.payload)) in
    if not (length d.payload == payload_length d.header) then err Error.runtime_error else written
