-- ===== src/Adapter/Wrapped.antt =====
-- The bytes that a segment becomes, and what parsing makes of them.
use cpp_tcp.Common.{
  ℕ, ◌+◌, ◌-◌, ◌*◌, ◌^◌, ◌≤◌, ◌<◌, ◌≡◌, refl, ap, arith, true, false, ◌==◌, ltb, List, ◌++◌, length,
  length-append, length-resize, length-replicate, replicate, Returns, Returns-bind, Returns-map,
  Returns-both, to_u16, resize,
}
use cpp_tcp.Segment.{TcpSegment, TcpHeader}
use cpp_tcp.Checksum.Laws.{AllBytes}
use cpp_tcp.Parser.{ParseResult, unparse_int}
use cpp_tcp.TcpWire
use cpp_tcp.TcpWire.Header
use cpp_tcp.TcpWire.Checked
use cpp_tcp.Ipv4
use cpp_tcp.Ipv4.{Ipv4Header, Ipv4Datagram, pseudo_cksum}
use cpp_tcp.Ipv4.Layout
use cpp_tcp.Ipv4.RoundTrip
use cpp_tcp.Ipv4.RoundTrip.{Sendable, words-bound, sent_header}
use cpp_tcp.Adapter.{FdAdapter, with_ports, wrap_tcp_in_ip, write_tun}

-- A segment that fits: its ports and other values, and its length in a datagram.
pub record Carries (a : FdAdapter) (seg : TcpSegment) : Type 0 where
  pub fits : Header.Fits (with_ports a seg).header
  pub bytes : AllBytes seg.payload
  pub short : 20 + 4 * seg.header.doff + length seg.payload < 2 ^ 16
  pub own : a.cfg.source.ipv4_numeric < 2 ^ 32
  pub other : a.cfg.destination.ipv4_numeric < 2 ^ 32

-- The header of the datagram.
abbrev pub datagram_header : FdAdapter → TcpSegment → Ipv4Header
datagram_header a seg = record Ipv4.default_header {
  src = a.cfg.source.ipv4_numeric;
  dst = a.cfg.destination.ipv4_numeric;
  len = to_u16 (5 * 4 + seg.header.doff * 4 + length seg.payload);
}

-- The segment as it arrives: with the ports and the checksum that were filled in.
abbrev pub arriving : FdAdapter → TcpSegment → TcpSegment
arriving a seg =
    let own = with_ports a seg in
    record own {
      header =
          Checked.with_cksum own.header
            (Checked.checksum_of own (pseudo_cksum (datagram_header a seg)));
    }

resized-length :
    (n : ℕ) (xs payload : List ℕ) → length (resize n 0 xs ++ payload) ≡ n + length payload
resized-length n xs payload =
    omega (arith, length-append (resize n 0 xs) payload, length-resize n 0 xs)

serialize-length :
    (seg : TcpSegment) (d : ℕ)
    → 5 ≤ seg.header.doff
    → Returns
        (λ bytes. length bytes ≡ 4 * seg.header.doff + length seg.payload)
        (TcpWire.serialize seg d)
unfolding TcpWire.serialize TcpWire.serialize_header
serialize-length seg d low =
    let long : ltb seg.header.doff 5 ≡ false = ground (arith, low) in
    rw long (resized-length (4 * seg.header.doff) _ seg.payload)

pseudo_cksum-bound :
    (h : Ipv4Header) → h.src < 2 ^ 32 → h.dst < 2 ^ 32 → h.proto < 2 ^ 8 → pseudo_cksum h < 2 ^ 19
unfolding pseudo_cksum Ipv4.payload_length
pseudo_cksum-bound h src dst proto = omega (arith, src, dst, proto)

length-laid_out :
    (h : TcpHeader) (tail : List ℕ) → length (Header.laid_out h tail) ≡ 20 + length tail
unfolding unparse_int
length-laid_out h tail = omega arith

pub word_sum-bound :
    (seg : TcpSegment)
    → 5 ≤ seg.header.doff
    → AllBytes seg.payload
    → Checked.word_sum seg ≤ 65280 * (4 * seg.header.doff + length seg.payload)
word_sum-bound seg low all =
    let zeroed = Checked.with_cksum seg.header 0 in
    let padding : List ℕ = replicate (seg.header.doff * 4 - 20) 0 in
    omega (
      arith,
      low,
      words-bound false (Header.laid_out zeroed (Checked.behind seg)) (
          Checked.AllBytes-laid_out zeroed (Checked.behind seg)
            (Checked.AllBytes-replicate _ seg.payload all)),
      length-laid_out zeroed (Checked.behind seg),
      length-append padding seg.payload,
      length-replicate {A = ℕ} (seg.header.doff * 4 - 20) 0,
    )

header-Fits :
    (a : FdAdapter) (seg : TcpSegment) → Carries a seg → Layout.Fits (datagram_header a seg)
header-Fits a seg c = record {
  ver = refl;
  hlen_low = omega arith;
  hlen_high = omega arith;
  tos = omega arith;
  len = omega arith;
  id = omega arith;
  offset = omega arith;
  ttl = omega arith;
  proto = omega arith;
  cksum = omega arith;
  src = c.own;
  dst = c.other;
}

-- The bytes of the segment, and what the other end makes of them.
wrapped_lem :
    (a : FdAdapter) (seg : TcpSegment)
    → Carries a seg
    → Returns
        (λ d.
          Sendable d
          × (d.header ≡ datagram_header a seg)
          × (TcpWire.parse d.payload (pseudo_cksum d.header)
              ≡ (ParseResult.no_error, arriving a seg)))
        (wrap_tcp_in_ip a seg)
unfolding wrap_tcp_in_ip
wrapped_lem a seg c =
    let h = datagram_header a seg in
    let own = with_ports a seg in
    let pseudo = pseudo_cksum-bound h c.own c.other (omega arith) in
    let low = c.fits.doff_low in
    Returns-bind _ _ (TcpWire.serialize own (pseudo_cksum h)) _
      (Returns-both _ _
        (λ bytes.
          (length bytes ≡ 4 * seg.header.doff + length seg.payload)
          × Checked.ComesBack own (pseudo_cksum h) bytes)
        _ (λ bytes size back. (size, back)) (serialize-length own (pseudo_cksum h) low)
        (Checked.parse-serialize own (pseudo_cksum h) c.fits c.bytes
          (omega (arith, word_sum-bound own low c.bytes, c.short, pseudo))))
      λ bytes p.
        (record { fits = header-Fits a seg c; total = omega (arith, p.0, c.short) }, refl, p.1)

-- The datagram that the other end parses.
pub record Arrives (a : FdAdapter) (seg : TcpSegment) (d : Ipv4Datagram) : Type 0 where
  pub src : d.header.src ≡ a.cfg.source.ipv4_numeric
  pub dst : d.header.dst ≡ a.cfg.destination.ipv4_numeric
  pub proto : d.header.proto ≡ 6
  pub segment :
      TcpWire.parse d.payload (pseudo_cksum d.header) ≡ (ParseResult.no_error, arriving a seg)

sent-Arrives :
    (a : FdAdapter) (seg : TcpSegment) (d : Ipv4Datagram)
    → d.header ≡ datagram_header a seg
    → TcpWire.parse d.payload (pseudo_cksum d.header) ≡ (ParseResult.no_error, arriving a seg)
    → Arrives a seg (record d { header = sent_header d })
unfolding pseudo_cksum Ipv4.payload_length
sent-Arrives a seg d same parsed = record {
  src = ap (λ (h : Ipv4Header). h.src) same;
  dst = ap (λ (h : Ipv4Header). h.dst) same;
  proto = ap (λ (h : Ipv4Header). h.proto) same;
  segment = parsed;
}

pub written_lem :
    (a : FdAdapter) (seg : TcpSegment)
    → Carries a seg
    → Returns
        (λ bytes.
          (d : Ipv4Datagram) × (Ipv4.parse bytes ≡ (ParseResult.no_error, d)) × Arrives a seg d)
        (write_tun a seg)
unfolding write_tun
written_lem a seg c =
    Returns-bind _ _ (wrap_tcp_in_ip a seg) Ipv4.serialize (wrapped_lem a seg c) λ d p.
      Returns-map (RoundTrip.ComesBack d) _ (Ipv4.serialize d)
        (λ bytes back. (record d { header = sent_header d }, back.1, sent-Arrives a seg d p.1 p.2))
        (RoundTrip.parse-serialize_datagram d p.0)

pub same : {n m : ℕ} → n ≡ m → (n == m) ≡ true
same {n} {m} e = ground (arith, e)
