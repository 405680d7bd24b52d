-- ===== src/Adapter/Peers.antt =====
-- Which segments an adapter lets through, and how a segment travels in a datagram of UDP.
use cpp_tcp.Common.{
  ℕ, ◌+◌, ◌-◌, ◌*◌, ◌^◌, ◌<◌, ◌≡◌, refl, sym, ap, arith, Bool, true, false, not, ◌==◌, ◌&&◌,
  if◌then◌else◌, if-both, Option, none, some, length, Returns, Returns-bind,
}
use cpp_tcp.Segment.{TcpSegment}
use cpp_tcp.Checksum.Laws.{AllBytes}
use cpp_tcp.Parser.{ParseResult, is_error}
use cpp_tcp.TcpWire
use cpp_tcp.TcpWire.Header
use cpp_tcp.TcpWire.Checked
use cpp_tcp.Ipv4.{Ipv4Datagram, pseudo_cksum}
use cpp_tcp.Adapter.Wrapped.{word_sum-bound}
use cpp_tcp.Adapter.{
  Address, FdAdapter, with_ports, unwrap_tcp_in_ip, read_udp, write_udp, opens, differs, adopt,
  from_peer,
}

-- What an adapter that returns a segment has checked; `a'` is the adapter afterwards.
pub record Passed (a : FdAdapter) (d : Ipv4Datagram) (seg : TcpSegment) (a' : FdAdapter)
    : Type 0 where
  pub parsed : TcpWire.parse d.payload (pseudo_cksum d.header) ≡ (ParseResult.no_error, seg)
  pub proto : d.header.proto ≡ 6
  pub to_us : seg.header.dport ≡ a.cfg.source.port
  pub from_them : seg.header.sport ≡ a'.cfg.destination.port
  pub over : a'.listening ≡ false
  pub connected :
      a.listening ≡ false
      → (a' ≡ a)
        × (d.header.dst ≡ a.cfg.source.ipv4_numeric)
        × (d.header.src ≡ a.cfg.destination.ipv4_numeric)
  pub opened : a.listening ≡ true → opens seg ≡ true

abbrev pub Filtered : FdAdapter → Ipv4Datagram → Option TcpSegment × FdAdapter → Type 0
Filtered a d (none, a') = a' ≡ a
Filtered a d (some seg, a') = Passed a d seg a'

no_error_lem : (r : ParseResult) → is_error r ≡ false → r ≡ ParseResult.no_error
unfolding is_error
no_error_lem ParseResult.no_error e = refl
no_error_lem ParseResult.bad_checksum e = absurd (ground (arith, e))
no_error_lem ParseResult.packet_too_short e = absurd (ground (arith, e))
no_error_lem ParseResult.wrong_ip_version e = absurd (ground (arith, e))
no_error_lem ParseResult.header_too_short e = absurd (ground (arith, e))
no_error_lem ParseResult.truncated_packet e = absurd (ground (arith, e))
no_error_lem ParseResult.unsupported e = absurd (ground (arith, e))

-- A guard behind which nothing is returned.
refused :
    (a : FdAdapter) (d : Ipv4Datagram) (b : Bool) (rest : Option TcpSegment × FdAdapter)
    → (b ≡ false → Filtered a d rest)
    → Filtered a d (if b then (none, a) else rest)
refused a d b rest = if-both (Filtered a d) b (none, a) rest (λ _. refl)

module _ (from_dotted : ℕ → ℕ) where
  -- What `unwrap_tcp_in_ip` lets through, on every branch: without a segment the adapter is
  -- unchanged; with one, the payload was parsed from a datagram of TCP with a right checksum, its
  -- ports are those of the adapter's two addresses afterwards, and the adapter no longer listens. A
  -- connected adapter is unchanged, and the datagram went from its peer's address to its own; a
  -- listening one has been given a SYN without RST.
  pub unwrap_tcp_in_ip-Filtered :
      (a : FdAdapter) (d : Ipv4Datagram) → Filtered a d (unwrap_tcp_in_ip from_dotted a d)
  unfolding unwrap_tcp_in_ip
  unwrap_tcp_in_ip-Filtered a d =
      let (result, seg) = TcpWire.parse d.payload (pseudo_cksum d.header) in
      refused a d (not a.listening && not (d.header.dst == a.cfg.source.ipv4_numeric)) _ λ no_dst.
        refused a d (not a.listening && not (d.header.src == a.cfg.destination.ipv4_numeric)) _
          λ no_src. refused a d (not (d.header.proto == 6)) _ λ no_proto.
            refused a d (is_error result) _ λ right.
              refused a d (not (seg.header.dport == a.cfg.source.port)) _ λ no_dport.
                let sound = ap (λ r. (r, seg)) (no_error_lem result right) in
                if-both (Filtered a d) a.listening
                  (if opens seg then from_peer (adopt from_dotted a d seg) seg else (none, a))
                  (from_peer a seg)
                  (λ listening.
                    if-both (Filtered a d) (opens seg) (from_peer (adopt from_dotted a d seg) seg)
                      (none, a)
                      (λ opening.
                        if-both (Filtered a d) (not (seg.header.sport == seg.header.sport))
                          (none, adopt from_dotted a d seg) (some seg, adopt from_dotted a d seg)
                          (λ other. absurd (ground (arith, other)))
                          (λ no_sport. record {
                            parsed = sound;
                            proto = ground (arith, no_proto);
                            to_us = ground (arith, no_dport);
                            from_them = refl;
                            over = refl;
                            connected = λ waits. absurd (ground (arith, waits, listening));
                            opened = λ _. opening;
                          }))
                      (λ _. refl))
                  (λ connected.
                    refused a d (not (seg.header.sport == a.cfg.destination.port)) (some seg, a)
                      λ no_sport. record {
                        parsed = sound;
                        proto = ground (arith, no_proto);
                        to_us = ground (arith, no_dport);
                        from_them = ground (arith, no_sport);
                        over = connected;
                        connected = λ _. (
                          refl,
                          ground (arith, no_dst, connected),
                          ground (arith, no_src, connected),
                        );
                        opened = λ listens. absurd (ground (arith, listens, connected));
                      })

-- What a segment is after `write` and `read` over UDP.
abbrev pub arriving_udp : FdAdapter → TcpSegment → TcpSegment
arriving_udp a seg =
    let own = with_ports a seg in
    record own { header = Checked.with_cksum own.header (Checked.checksum_of own 0) }

-- Over UDP to a connected peer: a segment whose values fit, short enough for a datagram, is sent to the configured destination, and
-- the end that is configured to hear the sender's address reads it as it was, with the ports and the
-- checksum filled in.
pub read_udp-write_udp :
    (a b : FdAdapter) (seg : TcpSegment)
    → Header.Fits (with_ports a seg).header
    → AllBytes seg.payload
    → 4 * seg.header.doff + length seg.payload < 2 ^ 16 - 28
    → b.listening ≡ false
    → b.cfg.destination ≡ a.cfg.source
    → Returns
        (λ sent.
          (sent.0 ≡ a.cfg.destination)
          × (read_udp b a.cfg.source sent.1 ≡ (some (arriving_udp a seg), b)))
        (write_udp a seg)
unfolding write_udp read_udp is_error
read_udp-write_udp a b seg fits all small connected peer =
    let own = with_ports a seg in
    let known : differs a.cfg.source b.cfg.destination ≡ false = ground (
      arith,
      sym (ap (λ (x : Address). x.port) peer),
      sym (ap (λ (x : Address). x.ipv4_numeric) peer),
    ) in
    Returns-bind (Checked.ComesBack own 0) _ (TcpWire.serialize own 0) _
      (Checked.parse-serialize own 0 fits all
        (omega (arith, word_sum-bound own fits.doff_low all, small)))
      λ bytes back. (refl, simp (back, known, connected) refl)
