-- ===== src/Adapter/Tunnel.antt =====
-- A segment that one end writes into its tunnel is read at the other.
use cpp_tcp.Common.{
  ℕ, ◌^◌, ◌<◌, ◌≡◌, refl, sym, ap, ap₂, ◌∙◌, true, false, some, Returns, Returns-map,
}
use cpp_tcp.Segment.{TcpSegment}
use cpp_tcp.Parser.{is_error}
use cpp_tcp.Ipv4.{Ipv4Datagram}
use cpp_tcp.Adapter.{FdAdapter, Address, write_tun, unwrap_tcp_in_ip, read_tun, opens, adopt}
use cpp_tcp.Adapter.Wrapped.{Carries, arriving, Arrives, written_lem, same}

-- The mirror image of `a`, with what else `b` is configured to.
abbrev pub connected_to : FdAdapter → FdAdapter → FdAdapter
connected_to a b = record {
  cfg = record b.cfg { source = a.cfg.destination; destination = a.cfg.source };
  listening = false;
}

module _ (from_dotted : ℕ → ℕ) where
  unwrap_connected :
      (a b : FdAdapter) (seg : TcpSegment) (d : Ipv4Datagram)
      → b.listening ≡ false
      → b.cfg.source ≡ a.cfg.destination
      → b.cfg.destination ≡ a.cfg.source
      → Arrives a seg d
      → unwrap_tcp_in_ip from_dotted b d ≡ (some (arriving a seg), b)
  unfolding unwrap_tcp_in_ip is_error
  unwrap_connected a b seg d waits own peer s =
      let dst = same (s.dst ∙ sym (ap (λ (x : Address). x.ipv4_numeric) own)) in
      let src = same (s.src ∙ sym (ap (λ (x : Address). x.ipv4_numeric) peer)) in
      let dport = same (sym (ap (λ (x : Address). x.port) own)) in
      let sport = same (sym (ap (λ (x : Address). x.port) peer)) in
      simp (s.segment, dst, src, same s.proto, waits, dport, sport) refl

  unwrap_listening :
      (a b : FdAdapter) (seg : TcpSegment) (d : Ipv4Datagram)
      → b.listening ≡ true
      → b.cfg.source.port ≡ a.cfg.destination.port
      → opens seg ≡ true
      → Arrives a seg d
      → unwrap_tcp_in_ip from_dotted b d
        ≡ (some (arriving a seg), adopt from_dotted b d (arriving a seg))
  unfolding unwrap_tcp_in_ip is_error
  unwrap_listening a b seg d waits own opening s =
      simp
        (s.segment, same s.proto, waits, same (sym own), opening, same {n = a.cfg.source.port} refl)
        refl

  adopt_lem :
      (a b : FdAdapter) (seg : TcpSegment) (d : Ipv4Datagram)
      → ((ip : ℕ) → ip < 2 ^ 32 → from_dotted ip ≡ ip)
      → Carries a seg
      → b.cfg.source.port ≡ a.cfg.destination.port
      → Arrives a seg d
      → adopt from_dotted b d (arriving a seg) ≡ connected_to a b
  adopt_lem a b seg d dotted c own s =
      ap₂ (λ n m. made n b.cfg.source.port m)
        (ap from_dotted s.dst ∙ dotted a.cfg.destination.ipv4_numeric c.other)
        (ap from_dotted s.src ∙ dotted a.cfg.source.ipv4_numeric c.own)
      ∙ ap (λ p. made a.cfg.destination.ipv4_numeric p a.cfg.source.ipv4_numeric) own
    where
      made : ℕ → ℕ → ℕ → FdAdapter
      made n p m = record {
        cfg = record b.cfg {
          source = record { ipv4_numeric = n; port = p };
          destination = record { ipv4_numeric = m; port = a.cfg.source.port };
        };
        listening = false;
      }

  -- Through the tunnel to a connected peer. A segment whose values fit and that is short enough for a
  -- datagram is written without an exception, and the end whose configuration is the mirror image
  -- reads it as it was, with the ports and the checksum filled in, and stays as it is.
  pub read_tun-write_tun :
      (a b : FdAdapter) (seg : TcpSegment)
      → Carries a seg
      → b.listening ≡ false
      → b.cfg.source ≡ a.cfg.destination
      → b.cfg.destination ≡ a.cfg.source
      → Returns
          (λ bytes. read_tun from_dotted b bytes ≡ (some (arriving a seg), b))
          (write_tun a seg)
  unfolding read_tun is_error
  read_tun-write_tun a b seg c waits own peer =
      Returns-map _ (λ bytes. read_tun from_dotted b bytes ≡ (some (arriving a seg), b))
        (write_tun a seg)
        (λ bytes arrived.
          let (d, parsed, s) = arrived in simp parsed (unwrap_connected a b seg d waits own peer s))
        (written_lem a seg c)

  -- Through the tunnel to a listening peer. If `inet_ntoa` and `Address` together keep the numeric
  -- address, a SYN without RST to the listening port is read, and the listening end then has the
  -- configuration that mirrors the writer's and listens no more.
  pub read_tun-write_tun_listening :
      (a b : FdAdapter) (seg : TcpSegment)
      → ((ip : ℕ) → ip < 2 ^ 32 → from_dotted ip ≡ ip)
      → Carries a seg
      → opens seg ≡ true
      → b.listening ≡ true
      → b.cfg.source.port ≡ a.cfg.destination.port
      → Returns
          (λ bytes. read_tun from_dotted b bytes ≡ (some (arriving a seg), connected_to a b))
          (write_tun a seg)
  unfolding read_tun is_error
  read_tun-write_tun_listening a b seg dotted c opening waits own =
      Returns-map _ _ (write_tun a seg)
        (λ bytes arrived.
          let (d, parsed, s) = arrived in
          simp parsed (
            unwrap_listening a b seg d waits own opening s
            ∙ ap (λ (x : FdAdapter). (some (arriving a seg), x))
                (adopt_lem a b seg d dotted c own s)))
        (written_lem a seg c)
