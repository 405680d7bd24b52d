-- ===== src/Descriptor.antt =====
-- libsponge/util/file_descriptor.hh and file_descriptor.cc: reading and writing through a descriptor
-- that counts its calls. What `read` returns is an argument, and `writev` is a function of what it is
-- given.
pub mod Whole
use cpp_tcp.Common.{
  ℕ, zero, suc, ◌*◌, ◌+◌, Bool, true, ◌&&◌, not, ◌==◌, ltb, min, List, length, if◌then◌else◌, add32,
  add64, Result, ok, err, Error, ◌>>=◌,
}
use cpp_tcp.Buffer.Views
use cpp_tcp.Buffer.Views.{BufferViewList}
use cpp_tcp.EventLoop.{FdState}

abbrev pub register_read : FdState → FdState
register_read fd = record fd { read_count = add32 fd.read_count 1 }

abbrev pub register_write : FdState → FdState
register_write fd = record fd { write_count = add32 fd.write_count 1 }

-- `FDWrapper::close`
abbrev pub close : FdState → FdState
close fd = record fd { eof = true; closed = true }

-- `FileDescriptor::read`; `got` are the bytes that the system call has put into the buffer.
unfoldable pub read : FdState → ℕ → List ℕ → Result (List ℕ × FdState)
read fd limit got =
    let size_to_read = min (1024 * 1024) limit in
    let fd' = if ltb 0 limit && length got == 0 then record fd { eof = true } else fd in
    if ltb size_to_read (length got) then err Error.runtime_error else ok (got, register_read fd')

-- The loop of `FileDescriptor::write` on fuel, with the bytes written so far.
unfoldable pub write_loop :
    (BufferViewList → ℕ) → Bool → ℕ → FdState → BufferViewList → ℕ → Result (ℕ × FdState)
write_loop writev write_all zero fd buffer total = err Error.out_of_fuel
write_loop writev write_all (suc fuel) fd buffer total =
    let bytes_written = writev buffer in
    let fd' = register_write fd in
    let total' = add64 total bytes_written in
    let next = Views.remove_prefix buffer bytes_written >>= λ rest.
    let more = write_loop writev write_all fuel fd' rest total' in
    if write_all && not (Views.size rest == 0) then more else ok (total', fd') in
    if bytes_written == 0 && not (Views.size buffer == 0)
    then err Error.runtime_error
    else if ltb (Views.size buffer) bytes_written
    then err Error.runtime_error
    else next

-- `FileDescriptor::write`. A round writes a byte at least, or throws, so a round for each byte and one
-- for an empty buffer are enough.
unfoldable pub write : (BufferViewList → ℕ) → Bool → FdState → BufferViewList → Result (ℕ × FdState)
write writev write_all fd buffer = write_loop writev write_all (suc (Views.size buffer)) fd buffer 0
