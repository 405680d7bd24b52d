-- ===== src/Capture/Skipping.antt =====
-- What `process_ipv4_ipv6` reads of a packet.
use cpp_tcp.Common.{
  ℕ, zero, suc, ◌+◌, ◌*◌, ◌≤◌, ◌<◌, ◌≡◌, arith, not, ◌==◌, List, Option, none, some, ok, err, Error,
  ◌>>=◌, Returns, Returns-bind, length, get_or, get_elem?-eq-get_or, ltb, if-both, ==_iff, bit_and,
  take, drop, length-take, length-drop, get_elem?-eq-none, ◌&&◌, ◌⊎◌, inl, inr,
}
use cpp_tcp.Capture.{
  byte_at, address_at, skip_extensions, Found, found, process_ipv4, process_ipv6, process_ipv4_ipv6,
}

pub byte_at_lem :
    (bytes : List ℕ) (i : ℕ) → i < length bytes → byte_at bytes i ≡ ok (get_or bytes i 0)
unfolding byte_at
byte_at_lem bytes i lt = rw (get_elem?-eq-get_or bytes i 0 lt, byte_at)

pub byte_at_out :
    (bytes : List ℕ) (i : ℕ) → length bytes ≤ i → byte_at bytes i ≡ err Error.undefined
unfolding byte_at
byte_at_out bytes i le = rw (get_elem?-eq-none bytes i le, byte_at)

address_at_lem :
    (bytes : List ℕ) (i n : ℕ)
    → i + n ≤ length bytes
    → address_at bytes i n ≡ ok (take n (drop i bytes))
unfolding address_at
address_at_lem bytes i n fits = ground (arith, fits)

-- Where the loop over the extension headers gets: nowhere, or to a place that leaves two bytes.
abbrev Skipped : List ℕ → Option ℕ → Type 0
Skipped bytes none = Unit {0}
Skipped bytes (some data_offset) = data_offset + 2 ≤ length bytes

skip_extensions-Skipped :
    (fuel : ℕ) (bytes : List ℕ) (nxt data_offset : ℕ)
    → data_offset + 2 ≤ length bytes
    → length bytes < data_offset + fuel
    → Returns (Skipped bytes) (skip_extensions fuel bytes nxt data_offset)
unfolding skip_extensions
skip_extensions-Skipped zero bytes nxt data_offset fits enough =
    absurd (omega (arith, fits, enough))
skip_extensions-Skipped (suc fuel) bytes nxt data_offset fits enough =
    let len = get_or bytes (data_offset + 1) 0 in
    let nxt' = get_or bytes data_offset 0 in
    let data_offset' = data_offset + 8 * (1 + len) in
    rw
      (
        byte_at_lem bytes data_offset (omega (arith, fits)),
        byte_at_lem bytes (data_offset + 1) (omega (arith, fits)),
      )
      (if-both (Returns (Skipped bytes)) (nxt == 0x11) _ _ (λ _. fits)
        λ _.
          if-both (Returns (Skipped bytes)) (not (nxt == 0) && not (nxt == 43) && not (nxt == 60)) _
            _ (λ _. tt)
            λ _.
              if-both (Returns (Skipped bytes)) (ltb (length bytes) (data_offset' + 2)) _ _
                (λ _. tt)
                λ more.
                  skip_extensions-Skipped fuel bytes nxt' data_offset' (ground (arith, more))
                    (omega (arith, enough)))

-- The payload begins eight bytes behind the packet's end at the latest, and both addresses are of
-- IPv4 or both of IPv6.
abbrev pub Located : List ℕ → Found → Type 0
Located bytes none = Unit {0}
Located bytes (some (start, src, dst)) =
    (start ≤ length bytes + 8)
    × (((length src ≡ 4) × (length dst ≡ 4)) ⊎ ((length src ≡ 16) × (length dst ≡ 16)))

length-slice :
    (bytes : List ℕ) (i n : ℕ) → i + n ≤ length bytes → length (take n (drop i bytes)) ≡ n
length-slice bytes i n fits = omega (arith, length-take n (drop i bytes), length-drop i bytes, fits)

ipv4-Located :
    (bytes : List ℕ) (first : ℕ)
    → 20 ≤ length bytes
    → Returns (Located bytes) (process_ipv4 bytes first)
unfolding process_ipv4
ipv4-Located bytes first long =
    rw
      (
        byte_at_lem bytes 9 (omega (arith, long)),
        address_at_lem bytes 12 4 (omega (arith, long)),
        address_at_lem bytes 16 4 (omega (arith, long)),
      )
      (if-both (Returns (Located bytes)) (ltb (length bytes) (bit_and first 0x0f * 4)) _ _ (λ _. tt)
        λ fits.
          if-both (Returns (Located bytes)) (not (get_or bytes 9 0 == 0x11)) _ _ (λ _. tt)
            λ _. (
              ground (arith, fits),
              inl (
                length-slice bytes 12 4 (omega (arith, long)),
                length-slice bytes 16 4 (omega (arith, long)),
              ),
            ))

ipv6-Located : (bytes : List ℕ) → Returns (Located bytes) (process_ipv6 bytes)
unfolding process_ipv6
ipv6-Located bytes =
    if-both (Returns (Located bytes)) (ltb (length bytes) 42) _ _ (λ _. tt)
      λ long.
        let many : 42 ≤ length bytes = ground (arith, long) in
        rw (byte_at_lem bytes 6 (omega (arith, many))) (
          Returns-bind (Skipped bytes) (Located bytes)
            (skip_extensions (suc (length bytes)) bytes (get_or bytes 6 0) 40) _
            (skip_extensions-Skipped (suc (length bytes)) bytes (get_or bytes 6 0) 40
              (omega (arith, many)) (omega arith))
            λ skipped h. located skipped h many)
  where
    located :
        (skipped : Option ℕ)
        → Skipped bytes skipped
        → 42 ≤ length bytes
        → Returns (Located bytes) (elim skipped [
          | none ↦ ok none
          | some data_offset ↦ address_at bytes 8 16 >>= λ src.
              address_at bytes 24 16 >>= λ dst. ok (found data_offset src dst)
        ])
    located none h many = tt
    located (some data_offset) h many =
        rw
          (
            address_at_lem bytes 8 16 (omega (arith, many)),
            address_at_lem bytes 24 16 (omega (arith, many)),
          )
          (
            omega (arith, h),
            inr (
              length-slice bytes 8 16 (omega (arith, many)),
              length-slice bytes 24 16 (omega (arith, many)),
            ),
          )

-- process_ipv4_ipv6 ends on every packet and reads nothing behind its end, if a packet of version 4
-- has the 20 bytes of a header at least; it gives -1, or a payload that begins eight bytes behind the
-- packet's end at the latest, with two addresses of 4 or two of 16 bytes. So the loop over the
-- extension headers of IPv6 ends and stays inside whatever they say.
pub process_ipv4_ipv6-Located :
    (bytes : List ℕ)
    → (bit_and (get_or bytes 0 0) 0xf0 ≡ 0x40 → 20 ≤ length bytes)
    → Returns (Located bytes) (process_ipv4_ipv6 bytes)
unfolding process_ipv4_ipv6
process_ipv4_ipv6-Located bytes whole =
    let first = get_or bytes 0 0 in
    if-both (Returns (Located bytes)) (ltb (length bytes) 1) _ _ (λ _. tt)
      λ some_left. rw (byte_at_lem bytes 0 (ground (arith, some_left))) (
        if-both (Returns (Located bytes)) (bit_and first 0xf0 == 0x40) _ _
          (λ v4. ipv4-Located bytes first (whole ((==_iff _ _).0 v4)))
          λ _.
            if-both (Returns (Located bytes)) (bit_and first 0xf0 == 0x60) _ _
              (λ _. ipv6-Located bytes) (λ _. tt))

-- A packet of version 4 that is too short for its protocol field, but as long as its header says it
-- is, is read behind its end.
pub short_ipv4_undefined :
    (bytes : List ℕ)
    → 1 ≤ length bytes
    → length bytes ≤ 9
    → bit_and (get_or bytes 0 0) 0xf0 ≡ 0x40
    → bit_and (get_or bytes 0 0) 0x0f * 4 ≤ length bytes
    → process_ipv4_ipv6 bytes ≡ err Error.undefined
unfolding process_ipv4_ipv6 process_ipv4
short_ipv4_undefined bytes one short v4 fits =
    rw (byte_at_lem bytes 0 (omega (arith, one)), byte_at_out bytes 9 short)
      (ground (arith, v4, fits))
