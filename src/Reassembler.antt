-- ===== src/Reassembler.antt =====
-- libsponge/stream_reassembler.hh and stream_reassembler.cc: substrings in any order, put into an
-- in-order stream. The bytes and their write counts stand in two vectors over all absolute indices.
pub mod Assemble
pub mod Store
pub mod Delivery
pub mod Push
pub mod Calls
pub mod Ending
pub mod Ends
use cpp_tcp.Common.{
  ℕ, zero, suc, ◌-◌, Bool, true, false, ◌&&◌, ◌||◌, ◌==◌, leb, List, [], ◌∷◌, ◌++◌, Option, none,
  some, if◌then◌else◌, max, add64, sub64, get_or, get_elem?, set, length, replicate, resize, Result,
  ok, err, Error, ◌>>=◌,
}
use cpp_tcp.ByteStream
use cpp_tcp.ByteStream.{ByteStream}

pub record StreamReassembler : Type 0 where
  pub output : ByteStream
  pub capacity : ℕ
  pub eofed : Bool
  pub first_unread : ℕ
  pub first_unassembled : ℕ
  pub first_unacceptable : ℕ
  pub buffer : List ℕ
  pub count : List ℕ

-- `StreamReassembler::StreamReassembler`
unfoldable pub create : ℕ → StreamReassembler
create capacity = record {
  output = ByteStream.create capacity;
  capacity = capacity;
  eofed = false;
  first_unread = 0;
  first_unassembled = 0;
  first_unacceptable = 0;
  buffer = replicate capacity 0;
  count = replicate capacity 0;
}

unfoldable pub empty : StreamReassembler → Bool
empty r = r.first_unacceptable == r.first_unassembled

unfoldable pub update_size : StreamReassembler → StreamReassembler
update_size r =
    let unread = ByteStream.bytes_read r.output in
    record r {
      first_unread = unread;
      buffer = resize (add64 unread r.capacity) 0 r.buffer;
      count = resize (add64 unread r.capacity) 0 r.count;
    }

-- One byte that lies in the buffer.
unfoldable pub store_byte : StreamReassembler → ℕ → ℕ → StreamReassembler
store_byte r real_index x = record r {
  buffer = set r.buffer real_index x;
  count = set r.count real_index (add64 (get_or r.count real_index 0) 1);
}

abbrev pub raise_bound : StreamReassembler → ℕ → StreamReassembler
raise_bound r real_index = record r {
  first_unacceptable = max r.first_unacceptable (add64 real_index 1);
}

-- The loop of `push_substring`; the list is the rest of `data`, and `real_index` is the index of its
-- first byte.
unfoldable pub store : StreamReassembler → List ℕ → ℕ → StreamReassembler
store r [] real_index = r
store r (x ∷ xs) real_index =
    let raised = raise_bound r real_index in
    let rest = store (store_byte raised real_index x) xs (add64 real_index 1) in
    if leb (length r.buffer) real_index then raised else rest

-- The loop of `_update_output` over the index `first_unassembled`, with the bytes of `s` so far.
-- `_count[_first_unassembled]` is read before the index is compared with the size: at the end of the
-- vectors that read has no defined result.
unfoldable pub assemble : ℕ → List ℕ → List ℕ → ℕ → List ℕ → Result (List ℕ × ℕ)
assemble zero buffer count first s = err Error.out_of_fuel
assemble (suc fuel) buffer count first s =
    let rest = assemble fuel buffer count (add64 first 1) (s ++ get_or buffer first 0 ∷ []) in
    elim (get_elem? count first) [
      | none ↦ err Error.undefined
      | some zero ↦ ok (s, first)
      | some (suc _) ↦ if first == length buffer then ok (s, first) else rest
    ]

-- `_output.write(s)`, and the end of the input if it is reached.
unfoldable pub flush : StreamReassembler → List ℕ → ℕ → StreamReassembler
flush r s first =
    let written = (ByteStream.write r.output s).0 in
    let r' = record r { output = written; first_unassembled = first } in
    if r.eofed && empty r' then record r' { output = ByteStream.end_input written } else r'

-- Each round moves one place on in `count`, so one round more than its length is enough.
unfoldable pub update_output : StreamReassembler → Result StreamReassembler
update_output r = do
  (s, first) ← assemble (suc (length r.count)) r.buffer r.count r.first_unassembled []
  ok (flush r s first)

unfoldable pub push_substring : StreamReassembler → List ℕ → ℕ → Bool → Result StreamReassembler
push_substring r bytes index eof =
    let sized = update_size r in
    update_output (store (record sized { eofed = sized.eofed || eof }) bytes index)

abbrev pub stream_out : StreamReassembler → ByteStream
stream_out r = r.output

-- The loop of `unassembled_bytes` from index `i` on, over so many places.
unfoldable pub count_stored : List ℕ → ℕ → ℕ → ℕ → Result ℕ
count_stored count zero i total = ok total
count_stored count (suc places) i total = elim (get_elem? count i) [
  | none ↦ err Error.undefined
  | some zero ↦ count_stored count places (add64 i 1) total
  | some (suc _) ↦ count_stored count places (add64 i 1) (add64 total 1)
]

unfoldable pub unassembled_bytes : StreamReassembler → Result ℕ
unassembled_bytes r =
    count_stored r.count (r.first_unacceptable - r.first_unassembled) r.first_unassembled 0

abbrev pub capacity_value : StreamReassembler → ℕ
capacity_value r = r.capacity

unfoldable pub distance : StreamReassembler → ℕ
distance r = sub64 r.first_unacceptable r.first_unassembled

abbrev pub left : StreamReassembler → ℕ
left r = r.first_unassembled
