-- ===== src/Copy.antt =====
-- apps/bidirectional_stream_copy.cc: standard input and output joined with a socket by an event loop
-- over two byte streams. What the system calls `read` and `writev` return stands in lists, the next
-- call's answer first; behind the end of a list `read` finds the end of the file.
pub mod Flow
pub mod Rules
use cpp_tcp.Common.{
  ℕ, zero, suc, ◌+◌, Bool, true, false, ◌&&◌, ◌||◌, not, ltb, List, [], ◌∷◌, ◌++◌, Result, ok,
  ◌>>=◌, min, take, if◌then◌else◌,
}
use cpp_tcp.ByteStream
use cpp_tcp.ByteStream.{ByteStream}
use cpp_tcp.Buffer.Views
use cpp_tcp.Descriptor
use cpp_tcp.Descriptor.{register_write, close}
use cpp_tcp.EventLoop.{FdState, inward, outward, Rule, Request, Polled, is_exit, wait_next_event}

-- One direction: its stream and its flag, and, to speak of them, all bytes that were read from the
-- source and all that were written to the sink.
pub record Channel : Type 0 where
  pub stream : ByteStream
  pub shutdown : Bool
  pub taken : List ℕ
  pub given : List ℕ

-- The variables of `bidirectional_stream_copy`, and what the system calls will return.
pub record Copying : Type 0 where
  pub outbound : Channel
  pub inbound : Channel
  pub input : FdState
  pub socket : FdState
  pub output : FdState
  pub input_reads : List (List ℕ)
  pub socket_reads : List (List ℕ)
  pub socket_writes : List ℕ
  pub output_writes : List ℕ

-- The descriptors by name.
abbrev pub state_of : Copying → ℕ → FdState
state_of w fd = elim fd [ zero ↦ w.input | suc k ↦ elim k [ zero ↦ w.socket | suc _ ↦ w.output ] ]

abbrev pub next_read : List (List ℕ) → List ℕ
next_read [] = []
next_read (bytes ∷ later) = bytes

abbrev pub next_write : List ℕ → ℕ
next_write [] = 0
next_write (n ∷ later) = n

abbrev pub later {ℓ} : {A : Type ℓ} → List A → List A
later [] = []
later (x ∷ xs) = xs

abbrev pub end_stream : Channel → Channel
end_stream c = record c { stream = ByteStream.end_input c.stream }

-- The callbacks of rules 1 and 3: from a descriptor into the stream.
unfoldable pub fill : Channel → FdState → List ℕ → Result (Channel × FdState)
fill c fd got = do
  (bytes, fd') ← Descriptor.read fd (ByteStream.remaining_capacity c.stream) got
  let c' = record c { stream = (ByteStream.write c.stream bytes).0; taken = c.taken ++ bytes }
  ok (if fd'.eof then end_stream c' else c', fd')

-- The first part of the callbacks of rules 2 and 4: from the stream into a descriptor.
unfoldable pub drain : Channel → FdState → ℕ → Result (Channel × FdState)
drain c fd taken_by = do
  let bytes = ByteStream.peek_output c.stream (min 65536 (ByteStream.buffer_size c.stream))
  (bytes_written, fd') ← Descriptor.write (λ _. taken_by) false fd (Views.of_view bytes)
  let c' = record c {
    stream = ByteStream.pop_output c.stream bytes_written;
    given = c.given ++ take bytes_written bytes;
  }
  ok (c', fd')

-- The end of these callbacks; `finish` is `shutdown(SHUT_WR)` of the socket, or `close`.
unfoldable pub finish_stream : (FdState → FdState) → Channel × FdState → Channel × FdState
finish_stream finish (c, fd) =
    if ByteStream.eof c.stream then (record c { shutdown = true }, finish fd) else (c, fd)

-- The interests of the rules: to read, as long as neither stream has failed, and to write.
abbrev pub wants_bytes : Channel → Channel → Bool
wants_bytes c other =
    not (ByteStream.error c.stream)
    && ltb 0 (ByteStream.remaining_capacity c.stream)
    && not (ByteStream.error other.stream)

abbrev pub has_bytes : Channel → Bool
has_bytes c = not (ByteStream.buffer_empty c.stream) || ByteStream.eof c.stream && not c.shutdown

abbrev pub end_outbound : Copying → Result Copying
end_outbound w = ok (record w { outbound = end_stream w.outbound })

abbrev pub end_inbound : Copying → Result Copying
end_inbound w = ok (record w { inbound = end_stream w.inbound })

-- Rule 1: read from stdin into the outbound stream.
unfoldable pub from_input : Rule Copying state_of
from_input = record {
  fd = 0;
  direction = inward;
  callback = λ w. fill w.outbound w.input (next_read w.input_reads) >>= λ out.
      ok (record w { outbound = out.0; input = out.1; input_reads = later w.input_reads });
  interest = λ w. wants_bytes w.outbound w.inbound;
  cancel = end_outbound;
}

-- Rule 2: read from the outbound stream into the socket. `Socket::shutdown` registers a write.
unfoldable pub to_socket : Rule Copying state_of
to_socket = record {
  fd = 1;
  direction = outward;
  callback = λ w. drain w.outbound w.socket (next_write w.socket_writes) >>= λ out.
      let (c, fd) = finish_stream register_write out in
      ok (record w { outbound = c; socket = fd; socket_writes = later w.socket_writes });
  interest = λ w. has_bytes w.outbound;
  cancel = end_outbound;
}

-- Rule 3: read from the socket into the inbound stream.
unfoldable pub from_socket : Rule Copying state_of
from_socket = record {
  fd = 1;
  direction = inward;
  callback = λ w. fill w.inbound w.socket (next_read w.socket_reads) >>= λ out.
      ok (record w { inbound = out.0; socket = out.1; socket_reads = later w.socket_reads });
  interest = λ w. wants_bytes w.inbound w.outbound;
  cancel = end_inbound;
}

-- Rule 4: read from the inbound stream into stdout.
unfoldable pub to_output : Rule Copying state_of
to_output = record {
  fd = 2;
  direction = outward;
  callback = λ w. drain w.inbound w.output (next_write w.output_writes) >>= λ out.
      let (c, fd) = finish_stream close out in
      ok (record w { inbound = c; output = fd; output_writes = later w.output_writes });
  interest = λ w. has_bytes w.inbound;
  cancel = end_inbound;
}

abbrev pub rules : List (Rule Copying state_of)
rules = from_input ∷ to_socket ∷ from_socket ∷ to_output ∷ []

-- The loop over the rounds that come, with what `poll` finds in each; the flag says whether the
-- function has returned.
unfoldable pub copy_loop :
    List (List Request → Polled) → Copying → List (Rule Copying state_of) → Result (Bool × Copying)
copy_loop [] w rs = ok (false, w)
copy_loop (poll ∷ polls) w rs = wait_next_event Copying state_of w rs poll >>= λ out.
    let (result, w', rs') = out in
    let more = copy_loop polls w' rs' in if is_exit result then ok (true, w') else more

-- The variables at the start; a descriptor is open and has not been used.
abbrev pub fresh : FdState
fresh = record { eof = false; closed = false; read_count = 0; write_count = 0 }

abbrev pub channel : Channel
channel = record { stream = ByteStream.create 1048576; shutdown = false; taken = []; given = [] }

-- `bidirectional_stream_copy`; the socket's descriptor may have been used before.
unfoldable pub bidirectional_stream_copy :
    FdState
    → List (List ℕ)
    → List (List ℕ)
    → List ℕ
    → List ℕ
    → List (List Request → Polled)
    → Result (Bool × Copying)
bidirectional_stream_copy socket input_reads socket_reads socket_writes output_writes polls =
    copy_loop polls
      record {
        outbound = channel;
        inbound = channel;
        input = fresh;
        socket = socket;
        output = fresh;
        input_reads = input_reads;
        socket_reads = socket_reads;
        socket_writes = socket_writes;
        output_writes = output_writes;
      }
      rules
