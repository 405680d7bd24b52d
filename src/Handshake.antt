-- ===== src/Handshake.antt =====
-- Two connections that open: the segments of libsponge/tcp_connection.cc that the three-way handshake
-- exchanges, taken from one endpoint's queue and given to the other.
pub mod Hearing
pub mod Speaking
pub mod Steps
pub mod Settled
pub mod Opening
use cpp_tcp.Common.{List, [], ◌∷◌, Result, ok, err, Error, ◌>>=◌}
use cpp_tcp.Connection
use cpp_tcp.Connection.{TcpConnection}

-- The first segment of `from` reaches `to`. The front of an empty queue has no defined value.
unfoldable pub deliver : TcpConnection → TcpConnection → Result (TcpConnection × TcpConnection)
deliver from to = elim from.segments_out [
  | [] ↦ err Error.undefined
  | seg ∷ segs ↦
      Connection.segment_received to seg >>= λ to'. ok (record from { segments_out = segs }, to')
]

-- `client` connects, and the SYN, its answer and the answer to that are delivered in turn.
unfoldable pub handshake : TcpConnection → TcpConnection → Result (TcpConnection × TcpConnection)
handshake client server = do
  c₁ ← Connection.connect client
  (c₂, s₁) ← deliver c₁ server
  (s₂, c₃) ← deliver s₁ c₂
  deliver c₃ s₂
