-- ===== src/Segment.antt =====
-- libsponge/tcp_helpers/tcp_header.hh and tcp_segment.hh: the fields of a segment. A payload is the
-- list of its bytes.
use cpp_tcp.Common.{ℕ, ◌+◌, Bool, false, List, [], length, if◌then◌else◌}
use cpp_tcp.Wrapping.{WrappingInt32}

-- `TCPHeader`
pub record TcpHeader : Type 0 where
  pub sport : ℕ
  pub dport : ℕ
  pub seqno : WrappingInt32
  pub ackno : WrappingInt32
  pub doff : ℕ
  pub urg : Bool
  pub ack : Bool
  pub psh : Bool
  pub rst : Bool
  pub syn : Bool
  pub fin : Bool
  pub win : ℕ
  pub cksum : ℕ
  pub uptr : ℕ

-- The initial values of the members.
abbrev pub default_header : TcpHeader
default_header = record {
  sport = 0;
  dport = 0;
  seqno = 0;
  ackno = 0;
  doff = 5;
  urg = false;
  ack = false;
  psh = false;
  rst = false;
  syn = false;
  fin = false;
  win = 0;
  cksum = 0;
  uptr = 0;
}

-- `TCPSegment`
pub record TcpSegment : Type 0 where
  pub header : TcpHeader
  pub payload : List ℕ

abbrev pub default_segment : TcpSegment
default_segment = record { header = default_header; payload = [] }

abbrev pub length_in_sequence_space : TcpSegment → ℕ
length_in_sequence_space s =
    length s.payload + (if s.header.syn then 1 else 0) + (if s.header.fin then 1 else 0)

-- The setters of `TCPSegment` that the program calls.
abbrev pub set_payload : TcpSegment → List ℕ → TcpSegment
set_payload s payload = record s { payload = payload }

abbrev pub set_ack : TcpSegment → Bool → TcpSegment
set_ack s b = record s { header = record s.header { ack = b } }

abbrev pub set_syn : TcpSegment → Bool → TcpSegment
set_syn s b = record s { header = record s.header { syn = b } }

abbrev pub set_fin : TcpSegment → Bool → TcpSegment
set_fin s b = record s { header = record s.header { fin = b } }

abbrev pub set_rst : TcpSegment → Bool → TcpSegment
set_rst s b = record s { header = record s.header { rst = b } }

abbrev pub set_seqno : TcpSegment → WrappingInt32 → TcpSegment
set_seqno s n = record s { header = record s.header { seqno = n } }

abbrev pub set_ackno : TcpSegment → WrappingInt32 → TcpSegment
set_ackno s n = record s { header = record s.header { ackno = n } }

-- The argument is a uint16_t: the caller converts to it.
abbrev pub set_window_size : TcpSegment → ℕ → TcpSegment
set_window_size s n = record s { header = record s.header { win = n } }
