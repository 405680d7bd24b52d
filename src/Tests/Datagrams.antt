-- ===== src/Tests/Datagrams.antt =====
-- A datagram at concrete values.
use cpp_tcp.Common.{refl, arith, [], ◌∷◌, Returns}
use cpp_tcp.Ipv4
use cpp_tcp.Ipv4.{Ipv4Datagram, serialize}
use cpp_tcp.Ipv4.Layout.{Fits}
use cpp_tcp.Ipv4.RoundTrip.{ComesBack, parse-serialize_datagram}

-- Three bytes from 10.0.0.1 to 10.0.0.2.
abbrev greeting : Ipv4Datagram
greeting = record {
  header = record Ipv4.default_header { len = 23; src = 167772161; dst = 167772162 };
  payload = 104 ∷ 105 ∷ 33 ∷ [];
}

greeting-Fits : Fits greeting.header
greeting-Fits = record {
  ver = refl;
  hlen_low = omega arith;
  hlen_high = omega arith;
  tos = omega arith;
  len = omega arith;
  id = omega arith;
  offset = omega arith;
  ttl = omega arith;
  proto = omega arith;
  cksum = omega arith;
  src = omega arith;
  dst = omega arith;
}

parse-serialize_datagram_example : Returns (ComesBack greeting) (serialize greeting)
parse-serialize_datagram_example =
    parse-serialize_datagram greeting record { fits = greeting-Fits; total = refl }
