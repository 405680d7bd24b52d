-- ===== src/Socket/Inbound.antt =====
-- The rule that passes the inbound bytes on to the application, with its write to the pipe.
use cpp_tcp.Common.{ℕ, ◌≡◌, Bool, ◌||◌, ◌++◌, take, if◌then◌else◌}
use cpp_tcp.ByteStream
use cpp_tcp.ByteStream.Invariant
use cpp_tcp.ByteStream.Window.{contents}
use cpp_tcp.Buffer.Views
use cpp_tcp.Descriptor
use cpp_tcp.Descriptor.{register_write}
use cpp_tcp.EventLoop.{FdState}
use cpp_tcp.Socket.{SpongeSocket, inbound_stream, inbound_over}
use cpp_tcp.Socket.Running.{Running}

-- What rule 3 does to the socket when the pipe has taken `n` bytes.
pub record Given (s : SpongeSocket) (n : ℕ) (s' : SpongeSocket) : Type 0 where
  pub valid : Invariant.IsValid (inbound_stream s')
  pub joined :
      contents (inbound_stream s)
      ≡ take n (take 65536 (contents (inbound_stream s))) ++ contents (inbound_stream s')
  pub noted : s'.inbound_shutdown ≡ inbound_over s' || s.inbound_shutdown
  pub sender : s'.tcp.sender ≡ s.tcp.sender
  pub queue : s'.tcp.segments_out ≡ s.tcp.segments_out

-- The descriptor of the pipe has counted the write, and the shutdown if there was one.
abbrev pub counted : Bool → FdState → FdState
counted over fd = if over then register_write (register_write fd) else register_write fd
