-- ===== src/Adapter.antt =====
-- libsponge/tcp_helpers/fd_adapter.hh and fd_adapter.cc, tcp_over_ip.hh and tcp_over_ip.cc,
-- tuntap_adapter.hh and lossy_fd_adapter.hh: how segments travel in datagrams. What the sockets and
-- devices deliver is an argument, and what they are given to send is a result.
pub mod Peers
pub mod Wrapped
pub mod Tunnel
pub mod Lossy
use cpp_tcp.Common.{
  ℕ, ◌+◌, ◌*◌, ◌%◌, ◌^◌, Bool, true, false, ◌&&◌, ◌||◌, not, ◌==◌, ltb, List, Option, none, some,
  if◌then◌else◌, length, Result, ok, ◌>>=◌, to_u16,
}
use cpp_tcp.Parser.{ParseResult, is_error}
use cpp_tcp.Segment.{TcpSegment}
use cpp_tcp.TcpWire
use cpp_tcp.Ipv4
use cpp_tcp.Ipv4.{Ipv4Datagram, pseudo_cksum}

-- What `Address::ipv4_numeric` and `Address::port` tell of an address.
pub record Address : Type 0 where
  pub ipv4_numeric : ℕ
  pub port : ℕ

-- `Address::operator!=`, for addresses of IPv4.
abbrev pub differs : Address → Address → Bool
differs a b = not (a.ipv4_numeric == b.ipv4_numeric && a.port == b.port)

-- `FdAdapterConfig`
pub record FdAdapterConfig : Type 0 where
  pub source : Address
  pub destination : Address
  pub loss_rate_dn : ℕ
  pub loss_rate_up : ℕ

-- `FdAdapterBase`
pub record FdAdapter : Type 0 where
  pub cfg : FdAdapterConfig
  pub listening : Bool

abbrev pub set_listening : FdAdapter → Bool → FdAdapter
set_listening a l = record a { listening = l }

abbrev pub set_destination : FdAdapter → Address → FdAdapter
set_destination a peer = record a { cfg = record a.cfg { destination = peer } }

abbrev pub set_source : FdAdapter → Address → FdAdapter
set_source a own = record a { cfg = record a.cfg { source = own } }

-- The segment with the ports of the configuration, which both ways of writing fill in.
abbrev pub with_ports : FdAdapter → TcpSegment → TcpSegment
with_ports a seg = record seg {
  header = record seg.header { sport = a.cfg.source.port; dport = a.cfg.destination.port };
}

-- A SYN that does not reset: what a listening adapter waits for.
abbrev pub opens : TcpSegment → Bool
opens seg = seg.header.syn && not seg.header.rst

-- `TCPOverUDPSocketAdapter::read`; the datagram is what `_sock.recv()` returns.
unfoldable pub read_udp : FdAdapter → Address → List ℕ → Option TcpSegment × FdAdapter
read_udp a source_address payload =
    let (result, seg) = TcpWire.parse payload 0 in
    if not a.listening && differs source_address a.cfg.destination
    then (none, a)
    else if is_error result
    then (none, a)
    else if a.listening
    then (if opens seg
        then (some seg, set_listening (set_destination a source_address) false)
        else (none, a))
    else (some seg, a)

-- `TCPOverUDPSocketAdapter::write`: what `_sock.sendto` is given.
unfoldable pub write_udp : FdAdapter → TcpSegment → Result (Address × List ℕ)
write_udp a seg = TcpWire.serialize (with_ports a seg) 0 >>= λ bytes. ok (a.cfg.destination, bytes)

-- `TCPOverIPv4Adapter::wrap_tcp_in_ip`
unfoldable pub wrap_tcp_in_ip : FdAdapter → TcpSegment → Result Ipv4Datagram
wrap_tcp_in_ip a seg =
    let own = with_ports a seg in
    let blank = Ipv4.default_header in
    let header = record blank {
      src = a.cfg.source.ipv4_numeric;
      dst = a.cfg.destination.ipv4_numeric;
      len = to_u16 (blank.hlen * 4 + own.header.doff * 4 + length own.payload);
    } in
    TcpWire.serialize own (pseudo_cksum header) >>= λ bytes.
    ok (record { header = header; payload = bytes })

-- `TCPOverIPv4OverTunFdAdapter::write`: what `_tun.write` is given.
unfoldable pub write_tun : FdAdapter → TcpSegment → Result (List ℕ)
write_tun a seg = wrap_tcp_in_ip a seg >>= λ d. Ipv4.serialize d

-- The last test of `unwrap_tcp_in_ip`.
abbrev pub from_peer : FdAdapter → TcpSegment → Option TcpSegment × FdAdapter
from_peer a seg =
    if not (seg.header.sport == a.cfg.destination.port) then (none, a) else (some seg, a)

-- `from_dotted` is the numeric value of the address that `Address` makes of what `inet_ntoa` prints.
module _ (from_dotted : ℕ → ℕ) where
  -- The configuration that a listening adapter takes from a SYN.
  abbrev pub adopt : FdAdapter → Ipv4Datagram → TcpSegment → FdAdapter
  adopt a d seg =
      set_listening
        (set_destination
          (set_source a
            (record { ipv4_numeric = from_dotted d.header.dst; port = a.cfg.source.port }))
          (record { ipv4_numeric = from_dotted d.header.src; port = seg.header.sport }))
        false

  -- `TCPOverIPv4Adapter::unwrap_tcp_in_ip`; the number 6 is `IPv4Header::PROTO_TCP`.
  unfoldable pub unwrap_tcp_in_ip : FdAdapter → Ipv4Datagram → Option TcpSegment × FdAdapter
  unwrap_tcp_in_ip a d =
      let (result, seg) = TcpWire.parse d.payload (pseudo_cksum d.header) in
      if not a.listening && not (d.header.dst == a.cfg.source.ipv4_numeric)
      then (none, a)
      else if not a.listening && not (d.header.src == a.cfg.destination.ipv4_numeric)
      then (none, a)
      else if not (d.header.proto == 6)
      then (none, a)
      else if is_error result
      then (none, a)
      else if not (seg.header.dport == a.cfg.source.port)
      then (none, a)
      else if a.listening
      then (if opens seg then from_peer (adopt a d seg) seg else (none, a))
      else from_peer a seg

  -- `TCPOverIPv4OverTunFdAdapter::read`; the bytes are what `_tun.read()` returns.
  unfoldable pub read_tun : FdAdapter → List ℕ → Option TcpSegment × FdAdapter
  read_tun a bytes =
      let (result, d) = Ipv4.parse bytes in
      if is_error result then (none, a) else unwrap_tcp_in_ip a d
