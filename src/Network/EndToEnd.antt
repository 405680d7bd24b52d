-- ===== src/Network/EndToEnd.antt =====
-- What the receiving application has read is always a front part of what the sending one has written.
use cpp_tcp.Common.{ℕ, ◌+◌, ◌-◌, ◌^◌, ◌<◌, length, IsPrefix}
use cpp_tcp.Wrapping.{WrappingInt32}
use cpp_tcp.Network.{System, start, Reach}
use cpp_tcp.Network.Fronts.{front_of}
use cpp_tcp.Network.Delivery.{Reach-Sound}

-- End to end. Let a sender and a receiver (with any initial sequence number and any capacities of
-- less than 2 ^ 63 - 1 bytes) be driven by any sequence of the applications' writes, reads and ends of
-- input, of timer ticks and of transmissions, where the network may lose, repeat and reorder the
-- segments one way and the acknowledgments the other way. Then what the receiving application has
-- read is a front part of what the sending one has written, as long as less than 2 ^ 31 - 2 bytes
-- are written, and the bytes read and the receiver's capacity stay below 2 ^ 31 - 3 together.
pub got-IsPrefix :
    (send_capacity capacity rt_timeout : ℕ) (isn : WrappingInt32) {sys : System}
    → send_capacity + 1 < 2 ^ 63
    → capacity + 1 < 2 ^ 63
    → isn < 2 ^ 32
    → Reach (start send_capacity capacity rt_timeout isn) sys
    → length sys.written < 2 ^ 31 - 2
    → length sys.got + capacity + 3 < 2 ^ 31
    → IsPrefix sys.got sys.written
got-IsPrefix send_capacity capacity rt_timeout isn {sys} big room word run few_written few_got =
    front_of sys.written sys.got (λ src same.
      (Reach-Sound src send_capacity capacity rt_timeout isn big room word run
        record { stream = same; few_written = few_written; few_got = few_got }).1.in_stream)
