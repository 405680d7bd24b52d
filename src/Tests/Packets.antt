-- ===== src/Tests/Packets.antt =====
-- Buffers and adapters at concrete inputs.
use cpp_tcp.Common.{
  ℕ, min, ◌%◌, ◌^◌, ◌≤◌, ◌<◌, ◌≡◌, ◌⊎◌, refl, arith, true, false, [], ◌∷◌, drop, some, Returns, ok,
  err, Error, ◌>>=◌,
}
use cpp_tcp.Buffer
use cpp_tcp.Buffer.{Buffer, str}
use cpp_tcp.Buffer.Pieces
use cpp_tcp.Buffer.Pieces.{BufferList, Removed}
use cpp_tcp.Buffer.Views
use cpp_tcp.Buffer.Views.{BufferViewList}
use cpp_tcp.EventLoop.{FdState}
use cpp_tcp.Descriptor.{write}
use cpp_tcp.Descriptor.Whole.{total_length, write-total}
use cpp_tcp.Segment.{TcpSegment, default_segment, set_syn, set_payload}
use cpp_tcp.Ipv4
use cpp_tcp.Ipv4.{Ipv4Datagram}
use cpp_tcp.TcpWire.Header.{Fits}
use cpp_tcp.Adapter.{
  FdAdapter, with_ports, write_tun, read_tun, write_udp, read_udp, unwrap_tcp_in_ip,
}
use cpp_tcp.Adapter.Lossy.{should_drop, should_drop_iff}
use cpp_tcp.Adapter.Wrapped.{Carries, arriving}
use cpp_tcp.Adapter.Tunnel.{connected_to, read_tun-write_tun, read_tun-write_tun_listening}
use cpp_tcp.Adapter.Peers.{Filtered, arriving_udp, unwrap_tcp_in_ip-Filtered, read_udp-write_udp}

abbrev abc : Buffer
abc = Buffer.of_string (97 ∷ 98 ∷ 99 ∷ [])

remove_prefix-drop_example :
    (2 ≤ Buffer.size abc
      → Returns
          (λ b'. Buffer.IsValid b' × (str b' ≡ drop 2 (str abc)))
          (Buffer.remove_prefix abc 2))
    × (Buffer.size abc < 2 → Buffer.remove_prefix abc 2 ≡ err Error.out_of_range)
remove_prefix-drop_example = Buffer.remove_prefix-drop abc 2 (omega arith, omega arith)

-- A header and a payload.
abbrev packet : BufferList
packet = Pieces.append (Pieces.of_buffer abc) (Pieces.of_string (100 ∷ 101 ∷ []))

remove_prefix-Removed_example : Returns (Removed packet 4) (Pieces.remove_prefix packet 4)
remove_prefix-Removed_example =
    Pieces.remove_prefix-Removed packet 4
      ((omega arith, omega arith), ((omega arith, omega arith), tt)) (omega arith)

remove_prefix-of_buffers_example :
    Views.remove_prefix (Views.of_buffers packet) 4
    ≡ (Pieces.remove_prefix packet 4 >>= λ bs'. ok (Views.of_buffers bs'))
remove_prefix-of_buffers_example =
    Views.remove_prefix-of_buffers packet 4
      ((omega arith, omega arith), ((omega arith, omega arith), tt))

-- Two ends, 10.0.0.1 at port 1000 and 10.0.0.2 at port 2000.
abbrev pub near : FdAdapter
near = record {
  cfg = record {
    source = record { ipv4_numeric = 167772161; port = 1000 };
    destination = record { ipv4_numeric = 167772162; port = 2000 };
    loss_rate_dn = 0;
    loss_rate_up = 0;
  };
  listening = false;
}

abbrev far : FdAdapter
far = record near {
  cfg = record near.cfg { source = near.cfg.destination; destination = near.cfg.source };
}

-- An end at port 2000 that knows no addresses yet.
abbrev listener : FdAdapter
listener = record {
  cfg = record near.cfg {
    source = record { ipv4_numeric = 0; port = 2000 };
    destination = record { ipv4_numeric = 0; port = 0 };
  };
  listening = true;
}

abbrev hello : TcpSegment
hello = set_payload default_segment (104 ∷ 105 ∷ [])

hello-Fits : Fits (with_ports near hello).header
hello-Fits = record {
  sport = omega arith;
  dport = omega arith;
  seqno = omega arith;
  ackno = omega arith;
  doff_low = omega arith;
  doff_high = omega arith;
  win = omega arith;
  cksum = omega arith;
  uptr = omega arith;
}

hello-Carries : Carries near hello
hello-Carries = record {
  fits = hello-Fits;
  bytes = (omega arith, (omega arith, tt));
  short = omega arith;
  own = omega arith;
  other = omega arith;
}

read_tun-write_tun_example :
    Returns
      (λ bytes. read_tun (λ ip. ip) far bytes ≡ (some (arriving near hello), far))
      (write_tun near hello)
read_tun-write_tun_example =
    read_tun-write_tun (λ ip. ip) near far hello hello-Carries refl refl refl

abbrev syn : TcpSegment
syn = set_syn default_segment true

syn-Carries : Carries near syn
syn-Carries = record {
  fits = record {
    sport = omega arith;
    dport = omega arith;
    seqno = omega arith;
    ackno = omega arith;
    doff_low = omega arith;
    doff_high = omega arith;
    win = omega arith;
    cksum = omega arith;
    uptr = omega arith;
  };
  bytes = tt;
  short = omega arith;
  own = omega arith;
  other = omega arith;
}

read_tun-write_tun_listening_example :
    Returns
      (λ bytes.
        read_tun (λ ip. ip) listener bytes ≡ (some (arriving near syn), connected_to near listener))
      (write_tun near syn)
read_tun-write_tun_listening_example =
    read_tun-write_tun_listening (λ ip. ip) near listener syn (λ ip small. refl) syn-Carries refl
      refl refl

abbrev datagram : Ipv4Datagram
datagram = record { header = Ipv4.default_header; payload = [] }

unwrap_tcp_in_ip-Filtered_example : Filtered far datagram (unwrap_tcp_in_ip (λ ip. ip) far datagram)
unwrap_tcp_in_ip-Filtered_example = unwrap_tcp_in_ip-Filtered (λ ip. ip) far datagram

read_udp-write_udp_example :
    Returns
      (λ sent.
        (sent.0 ≡ near.cfg.destination)
        × (read_udp far near.cfg.source sent.1 ≡ (some (arriving_udp near hello), far)))
      (write_udp near hello)
read_udp-write_udp_example =
    read_udp-write_udp near far hello hello-Fits (omega arith, (omega arith, tt)) (omega arith) refl
      refl

should_drop_iff_example :
    (((should_drop far.cfg 7 true ≡ true) × (7 % 2 ^ 16 < far.cfg.loss_rate_up))
      ⊎ ((should_drop far.cfg 7 true ≡ false) × (far.cfg.loss_rate_up ≤ 7 % 2 ^ 16)))
    × (((should_drop far.cfg 7 false ≡ true) × (7 % 2 ^ 16 < far.cfg.loss_rate_dn))
        ⊎ ((should_drop far.cfg 7 false ≡ false) × (far.cfg.loss_rate_dn ≤ 7 % 2 ^ 16)))
should_drop_iff_example = should_drop_iff far.cfg 7

-- A descriptor that takes two bytes at a time.
abbrev two_at_a_time : BufferViewList → ℕ
two_at_a_time vs = min 2 (total_length vs)

abbrev descriptor : FdState
descriptor = record { eof = false; closed = false; read_count = 0; write_count = 0 }

write-total_example :
    Returns (λ out. out.0 ≡ 5) (write two_at_a_time true descriptor (Views.of_buffers packet))
write-total_example =
    write-total two_at_a_time descriptor (Views.of_buffers packet)
      (λ vs. (omega arith, λ pos. omega arith)) (omega arith)
