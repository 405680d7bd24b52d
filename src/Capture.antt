-- ===== src/Capture.antt =====
-- apps/udp_tcpdump.cc: where the UDP payload of a captured packet stands. Packets come from libpcap;
-- what is printed is left out, and an address in text stands as its bytes.
pub mod Skipping
pub mod Dump
use cpp_tcp.Common.{
  ℕ, zero, suc, ◌+◌, ◌*◌, ◌^◌, Bool, true, false, ◌&&◌, ◌||◌, not, ◌==◌, ltb, leb, List, [], ◌∷◌,
  Option, none, some, Result, ok, err, Error, ◌>>=◌, length, get_elem?, take, drop, if◌then◌else◌,
  bit_and, bit_or, sub64,
}
use cpp_tcp.Options
use cpp_tcp.Options.{Run, returned, exits, fails, strncmp_eq, argument}

-- The loop of `parse_arguments` from the index `curr` on, on fuel: where the expression begins, and
-- the device.
unfoldable pub parse_from : ℕ → List (List ℕ) → ℕ → Option (List ℕ) → Run (ℕ × Option (List ℕ))
parse_from zero argv curr dev = fails Error.out_of_fuel
parse_from (suc fuel) argv curr dev =
    let device : Run (ℕ × Option (List ℕ)) =
      Options.◌>>=◌ (argument argv (curr + 1)) (λ v. parse_from fuel argv (curr + 2) (some v)) in
    let checked = if leb (length argv) (curr + 1) then exits 1 else device in
    let round : Run (ℕ × Option (List ℕ)) = Options.◌>>=◌ (argument argv curr) (λ arg.
      if strncmp_eq 3 (b'-' ∷ b'i' ∷ []) arg
      then checked
      else if strncmp_eq 3 (b'-' ∷ b'h' ∷ []) arg
          || strncmp_eq 7 (b'-' ∷ b'-' ∷ b'h' ∷ b'e' ∷ b'l' ∷ b'p' ∷ []) arg
      then exits 0
      else returned (curr, dev)) in
    if ltb curr (length argv) then round else returned (curr, dev)

-- A round moves on by two, so one round more than there are arguments is enough.
unfoldable pub parse_arguments : List (List ℕ) → Run (ℕ × Option (List ℕ))
parse_arguments argv = parse_from (suc (length argv)) argv 1 none

-- `data[i]`
unfoldable pub byte_at : List ℕ → ℕ → Result ℕ
byte_at bytes i = elim (get_elem? bytes i) [ none ↦ err Error.undefined | some x ↦ ok x ]

-- The bytes of an address that `inet_ntop` reads: 4 of IPv4, 16 of IPv6.
unfoldable pub address_at : List ℕ → ℕ → ℕ → Result (List ℕ)
address_at bytes i n =
    if leb (i + n) (length bytes) then ok (take n (drop i bytes)) else err Error.undefined

-- The loop over the extension headers of IPv6, on fuel.
unfoldable pub skip_extensions : ℕ → List ℕ → ℕ → ℕ → Result (Option ℕ)
skip_extensions zero bytes nxt data_offset = err Error.out_of_fuel
skip_extensions (suc fuel) bytes nxt data_offset =
    let further = byte_at bytes data_offset >>= λ nxt'. byte_at bytes (data_offset + 1) >>= λ len.
    let data_offset' = data_offset + 8 * (1 + len) in
    let rest = skip_extensions fuel bytes nxt' data_offset' in
    if ltb (length bytes) (data_offset' + 2) then ok none else rest in
    if nxt == 0x11
    then ok (some data_offset)
    else if not (nxt == 0) && not (nxt == 43) && not (nxt == 60)
    then ok none
    else further

-- The offset of the UDP payload, the source and the destination.
abbrev pub Found : Type 0
Found = Option (ℕ × List ℕ × List ℕ)

abbrev pub found : ℕ → List ℕ → List ℕ → Found
found data_offset src dst = some (data_offset + 8, src, dst)

unfoldable pub process_ipv4 : List ℕ → ℕ → Result Found
process_ipv4 bytes first =
    let data_offset = bit_and first 0x0f * 4 in
    let rest = byte_at bytes 9 >>= λ proto.
    let udp = address_at bytes 12 4 >>= λ src.
    address_at bytes 16 4 >>= λ dst. ok (found data_offset src dst) in
    if not (proto == 0x11) then ok none else udp in
    if ltb (length bytes) data_offset then ok none else rest

-- A round skips eight bytes at least, so one round more than there are bytes is enough.
unfoldable pub process_ipv6 : List ℕ → Result Found
process_ipv6 bytes =
    let rest = byte_at bytes 6 >>= λ nxt.
    skip_extensions (suc (length bytes)) bytes nxt 40 >>= λ skipped. elim skipped [
      | none ↦ ok none
      | some data_offset ↦ address_at bytes 8 16 >>= λ src.
          address_at bytes 24 16 >>= λ dst. ok (found data_offset src dst)
    ] in
    if ltb (length bytes) 42 then ok none else rest

-- `process_ipv4_ipv6`; `none` stands for -1.
unfoldable pub process_ipv4_ipv6 : List ℕ → Result Found
process_ipv4_ipv6 bytes =
    let packet = byte_at bytes 0 >>= λ first.
    let pt = bit_and first 0xf0 in
    if pt == 0x40
    then process_ipv4 bytes first
    else if pt == 0x60
    then process_ipv6 bytes
    else ok none in
    if ltb (length bytes) 1 then ok none else packet

-- The link types that `main` accepts.
pub data LinkType : Type 0 where
  dlt_raw dlt_null dlt_en10mb dlt_linux_sll dlt_linux_sll2 : LinkType

-- A 16-bit protocol number at an index, and the test for IP.
abbrev is_ip : ℕ → ℕ → Bool
is_ip high low = let pt = bit_or (high * 2 ^ 8) low in pt == 0x0800 || pt == 0x86dd

abbrev ip_behind : List ℕ → ℕ → ℕ → Result (Option ℕ)
ip_behind pkt i hdr_off = byte_at pkt i >>= λ high.
    byte_at pkt (i + 1) >>= λ low. ok (if is_ip high low then some hdr_off else none)

-- Where in the packet the datagram begins; `none` if the packet is skipped.
unfoldable pub link_header : LinkType → List ℕ → Result (Option ℕ)
link_header dlt_raw pkt = ok (some 0)
link_header dlt_null pkt =
    let known = byte_at pkt 3 >>= λ pt.
    ok (if pt == 2 || pt == 24 || pt == 28 || pt == 30 then some 4 else none) in
    if ltb (length pkt) 4 then ok none else known
link_header dlt_en10mb pkt = if ltb (length pkt) 14 then ok none else ip_behind pkt 12 14
link_header dlt_linux_sll pkt = if ltb (length pkt) 16 then ok none else ip_behind pkt 14 16
link_header dlt_linux_sll2 pkt = if ltb (length pkt) 20 then ok none else ip_behind pkt 0 20

-- The payload of the UDP datagram in a packet: `payload_len` is an unsigned difference, and a view of
-- more bytes than there are has no defined content.
unfoldable pub udp_payload : LinkType → List ℕ → Result (Option (List ℕ))
udp_payload dl_type pkt = link_header dl_type pkt >>= λ header. elim header [
  | none ↦ ok none
  | some hdr_off ↦ process_ipv4_ipv6 (drop hdr_off pkt) >>= λ start. elim start [
    | none ↦ ok none
    | some (start_off, _, _) ↦
        let payload_off = hdr_off + start_off in
        let payload_len = sub64 (length pkt) payload_off in
        if leb (payload_off + payload_len) (length pkt)
        then ok (some (take payload_len (drop payload_off pkt)))
        else err Error.undefined
  ]
]
