-- ===== src/Capture/Dump.antt =====
-- The arguments of udp_tcpdump, and the payload that it takes out of a packet.
use cpp_tcp.Common.{
  ℕ, zero, suc, ◌+◌, ◌^◌, ◌≤◌, ◌<◌, ◌≡◌, arith, ◌||◌, List, [], ◌∷◌, Option, none, some, ok, err,
  Error, length, get_elem?, ltb, leb, if-both,
}
use cpp_tcp.Options.{returned, exits, argument, strncmp_eq}
use cpp_tcp.Options.Scanning.{Ends, Ends-bind, argument_lem}
use cpp_tcp.Capture.{
  parse_from, parse_arguments, dlt_raw, link_header, process_ipv4_ipv6, udp_payload,
}

-- Where the expression begins: at an argument, or behind the last one.
abbrev pub Begins : List (List ℕ) → ℕ × Option (List ℕ) → Type 0
Begins argv r = (1 ≤ r.0) × (r.0 ≤ length argv)

-- No exception is thrown.
abbrev pub Nothing : Error → Type 0
Nothing e = ⊥

parse_from-Begins :
    (fuel : ℕ) (argv : List (List ℕ)) (curr : ℕ) (dev : Option (List ℕ))
    → 1 ≤ curr
    → curr ≤ length argv
    → length argv < curr + fuel
    → Ends Nothing (Begins argv) (parse_from fuel argv curr dev)
unfolding parse_from
parse_from-Begins zero argv curr dev lo hi enough = absurd (omega (arith, hi, enough))
parse_from-Begins (suc fuel) argv curr dev lo hi enough =
    if-both (Ends Nothing (Begins argv)) (ltb curr (length argv)) _ (returned (curr, dev))
      (λ more.
        Ends-bind Nothing (λ v. get_elem? argv curr ≡ some v) (Begins argv) (argument argv curr) _
          (argument_lem Nothing argv curr (ground (arith, more)))
          λ arg at.
            if-both (Ends Nothing (Begins argv)) (strncmp_eq 3 (b'-' ∷ b'i' ∷ []) arg) _ _
              (λ _.
                if-both (Ends Nothing (Begins argv)) (leb (length argv) (curr + 1)) (exits 1) _
                  (λ _. tt)
                  λ two.
                    Ends-bind Nothing (λ v. get_elem? argv (curr + 1) ≡ some v) (Begins argv)
                      (argument argv (curr + 1)) _
                      (argument_lem Nothing argv (curr + 1) (ground (arith, two)))
                      λ v _.
                        parse_from-Begins fuel argv (curr + 2) (some v) (omega arith)
                          (ground (arith, two)) (omega (arith, enough)))
              (λ _.
                if-both (Ends Nothing (Begins argv))
                  (strncmp_eq 3 (b'-' ∷ b'h' ∷ []) arg
                    || strncmp_eq 7 (b'-' ∷ b'-' ∷ b'h' ∷ b'e' ∷ b'l' ∷ b'p' ∷ []) arg)
                  (exits 0) (returned (curr, dev)) (λ _. tt) λ _. (lo, hi)))
      (λ _. (lo, hi))

-- The reading of the arguments ends without an exception, and reads none that is not there.
pub parse_arguments-Begins :
    (argv : List (List ℕ)) → 1 ≤ length argv → Ends Nothing (Begins argv) (parse_arguments argv)
unfolding parse_arguments
parse_arguments-Begins argv named =
    parse_from-Begins (suc (length argv)) argv 1 none (omega arith) named (omega arith)

-- A UDP header that a packet of IP alone ends in leaves a negative length, which as an unsigned
-- number reaches behind the packet's end.
pub cut_header_undefined :
    (pkt : List ℕ) (start : ℕ) (src dst : List ℕ)
    → process_ipv4_ipv6 pkt ≡ ok (some (start, src, dst))
    → length pkt < start
    → start < 2 ^ 63
    → udp_payload dlt_raw pkt ≡ err Error.undefined
unfolding udp_payload link_header
cut_header_undefined pkt start src dst located cut small = rw (located) (ground (arith, cut, small))
