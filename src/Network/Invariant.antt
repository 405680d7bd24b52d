-- ===== src/Network/Invariant.antt =====
-- The invariant of both ends and the network.
use cpp_tcp.Common.{ℕ, ◌+◌, ◌-◌, ◌^◌, ◌≤◌, ◌<◌, ◌≡◌, inl, refl, arith, List, length, segment, All}
use cpp_tcp.Wrapping.{WrappingInt32, wrap}
use cpp_tcp.ByteStream
use cpp_tcp.ByteStream.{ByteStream, buffer_size}
use cpp_tcp.ByteStream.Invariant
use cpp_tcp.Segment.{TcpSegment}
use cpp_tcp.Reassembler
use cpp_tcp.Reassembler.Delivery.{create-Delivers}
use cpp_tcp.Receiver
use cpp_tcp.Receiver.{TcpReceiver, ackno, window_size, segment_received}
use cpp_tcp.Window
use cpp_tcp.Window.Shape
use cpp_tcp.Sender
use cpp_tcp.Sender.{TcpSender}
use cpp_tcp.Network.{System, start}
use cpp_tcp.Network.Genuine.{Genuine}
use cpp_tcp.Network.Hearing.{Sends}
use cpp_tcp.Network.Receiving.{Receives}

-- An acknowledgment of a number behind the SYN, with a 16-bit window.
abbrev pub Issued : WrappingInt32 → WrappingInt32 × ℕ → Type 0
Issued isn a = (c : ℕ) × (1 ≤ c) × (c < 2 ^ 31) × (a.0 ≡ wrap c isn) × (a.1 < 2 ^ 16)

-- The sending side and what it put into the network, when `src` is what the application writes.
pub record SendingSide (src : ℕ → ℕ) (isn : WrappingInt32) (s : TcpSender) (written : List ℕ)
    (sent : List TcpSegment) : Type 0 where
  pub sends : Sends src isn (length written) s
  pub network : All (Genuine src isn) sent

-- The receiving side, what was read from it, and what it acknowledged.
pub record ReceivingSide (src : ℕ → ℕ) (isn : WrappingInt32) (capacity : ℕ) (r : TcpReceiver)
    (got : List ℕ) (acks : List (WrappingInt32 × ℕ)) : Type 0 where
  pub receives : Receives src isn r
  pub read_count : r.reassembler.output.read_count ≡ length got
  pub same_capacity : r.reassembler.capacity ≡ capacity
  pub in_stream : got ≡ segment src 0 (length got)
  pub issued : All (Issued isn) acks

-- The invariant.
abbrev pub Sound : (ℕ → ℕ) → WrappingInt32 → ℕ → System → Type 0
Sound src isn capacity sys =
    SendingSide src isn sys.sender sys.written sys.sent
    × ReceivingSide src isn capacity sys.receiver sys.got sys.acks

-- What was written is the stream, and all absolute numbers stay in 31 bits.
pub record Bounded (src : ℕ → ℕ) (capacity : ℕ) (written got : List ℕ) : Type 0 where
  pub stream : written ≡ segment src 0 (length written)
  pub few_written : length written < 2 ^ 31 - 2
  pub few_got : length got + capacity + 3 < 2 ^ 31

pub start-Sound :
    (src : ℕ → ℕ) (send_capacity capacity rt_timeout : ℕ) (isn : WrappingInt32)
    → send_capacity + 1 < 2 ^ 63
    → capacity + 1 < 2 ^ 63
    → isn < 2 ^ 32
    → Sound src isn capacity (start send_capacity capacity rt_timeout isn)
unfolding Sender.create Receiver.create Window.create Reassembler.create ByteStream.create
start-Sound src send_capacity capacity rt_timeout isn big room word =
    let size : buffer_size (ByteStream.create send_capacity) ≡ 0 =
      (Invariant.create-IsValid send_capacity big).1 in
    (
      record {
        sends = record {
          valid = record {
            stream = (Invariant.create-IsValid send_capacity big).0;
            window = Shape.create-IsValid isn 1 word (omega arith);
            in_step = inl (refl, refl);
            sound = refl;
            usable = omega arith;
            bounded = omega (arith, size);
            syn_first = λ _. (omega arith, omega arith);
          };
          carrying = record {
            same_isn = refl;
            held = (create-Delivers src send_capacity big).held;
            come_in = omega (arith, size);
            queue = tt;
            flight = tt;
          };
        };
        network = tt;
      },
      record {
        receives = record {
          delivers = create-Delivers src capacity room;
          small = omega arith;
          known = λ set. absurd (ground (arith, set));
        };
        read_count = refl;
        same_capacity = refl;
        in_stream = refl;
        issued = tt;
      },
    )
