-- ===== src/ByteStream.antt =====
-- libsponge/byte_stream.hh and byte_stream.cc: a byte queue of fixed capacity in a ring of
-- `capacity + 1` places. A method that changes the stream returns the new one.
pub mod Invariant
pub mod Window
pub mod Spec
pub mod Refine
pub mod Accept
use cpp_tcp.Common.{
  ℕ, zero, suc, ◌+◌, ◌%◌, ◌-◌, Bool, true, false, ◌&&◌, ◌==◌, List, [], ◌∷◌, if◌then◌else◌, min,
  add64, sub64, get_or, set, replicate, length,
}

pub record ByteStream : Type 0 where
  pub channel : List ℕ
  pub capacity : ℕ
  pub read_index : ℕ
  pub write_index : ℕ
  pub read_count : ℕ
  pub written_count : ℕ
  pub end_flag : Bool
  pub failed : Bool

-- `ByteStream::ByteStream`
unfoldable pub create : ℕ → ByteStream
create capacity = record {
  channel = replicate (add64 capacity 1) 0;
  capacity = capacity;
  read_index = 0;
  write_index = 0;
  read_count = 0;
  written_count = 0;
  end_flag = false;
  failed = false;
}

-- `_capacity + 1`, the size of the ring
abbrev pub places : ByteStream → ℕ
places s = add64 s.capacity 1

unfoldable pub next_index_of : ByteStream → ℕ → ℕ → ℕ
next_index_of s index step = add64 index (step % places s) % places s

unfoldable pub buffer_full : ByteStream → Bool
buffer_full s = next_index_of s s.write_index 1 == s.read_index

unfoldable pub buffer_size : ByteStream → ℕ
buffer_size s = sub64 (add64 (places s) s.write_index) s.read_index % places s

unfoldable pub buffer_empty : ByteStream → Bool
buffer_empty s = s.write_index == s.read_index

unfoldable pub remaining_capacity : ByteStream → ℕ
remaining_capacity s = sub64 s.capacity (buffer_size s)

-- One round of the loop of `write`. A `set` out of range changes nothing; the invariant rules it out.
unfoldable pub put : ByteStream → ℕ → ByteStream
put s x = record s {
  channel = set s.channel s.write_index x;
  write_index = next_index_of s s.write_index 1;
  written_count = add64 s.written_count 1;
}

-- The list is `data[bytes_count ..]`.
unfoldable pub write_loop : ByteStream → List ℕ → ℕ → ByteStream × ℕ
write_loop s [] bytes_count = (s, bytes_count)
write_loop s (x ∷ xs) bytes_count =
    let rest = write_loop (put s x) xs (bytes_count + 1) in
    if buffer_full s then (s, bytes_count) else rest

unfoldable pub write : ByteStream → List ℕ → ByteStream × ℕ
write s bytes = if s.end_flag then (s, 0) else write_loop s bytes 0

-- The loop of `peek_output` from index `i` on, with so many bytes still wanted.
unfoldable pub peek_loop : ByteStream → ℕ → ℕ → List ℕ
peek_loop s i zero = []
peek_loop s i (suc wanted) =
    let rest = get_or s.channel i 0 ∷ peek_loop s (next_index_of s i 1) wanted in
    if i == s.write_index then [] else rest

unfoldable pub peek_output : ByteStream → ℕ → List ℕ
peek_output s len = peek_loop s s.read_index len

unfoldable pub pop_output : ByteStream → ℕ → ByteStream
pop_output s len =
    let pop_len = min len (buffer_size s) in
    record s {
      read_index = next_index_of s s.read_index pop_len;
      read_count = add64 s.read_count pop_len;
    }

unfoldable pub read : ByteStream → ℕ → List ℕ × ByteStream
read s len = (peek_output s len, pop_output s len)

unfoldable pub end_input : ByteStream → ByteStream
end_input s = record s { end_flag = true }

unfoldable pub set_error : ByteStream → ByteStream
set_error s = record s { failed = true }

abbrev pub input_ended : ByteStream → Bool
input_ended s = s.end_flag

abbrev pub error : ByteStream → Bool
error s = s.failed

unfoldable pub eof : ByteStream → Bool
eof s = s.end_flag && buffer_empty s

abbrev pub bytes_written : ByteStream → ℕ
bytes_written s = s.written_count

abbrev pub bytes_read : ByteStream → ℕ
bytes_read s = s.read_count
