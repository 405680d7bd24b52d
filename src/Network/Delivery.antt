-- ===== src/Network/Delivery.antt =====
-- Every step keeps the invariant of both ends and the network.
use cpp_tcp.Common.{
  ℕ, ◌+◌, ◌^◌, ◌<◌, ◌∙◌, arith, [], ◌∷◌, take, length-append, All-append, All-get_elem?, to_u16,
}
use cpp_tcp.Wrapping.{WrappingInt32}
use cpp_tcp.Network.Fronts.{front_part}
use cpp_tcp.ByteStream
use cpp_tcp.ByteStream.{ByteStream, buffer_size}
use cpp_tcp.Receiver
use cpp_tcp.Receiver.{TcpReceiver, ackno, window_size, segment_received}
use cpp_tcp.Network.{
  System, Step, writes, ends, fills, ticks, probes, transmits, delivers, reads, acknowledges, hears,
  start, Reach, here, later,
}
use cpp_tcp.Network.Genuine.{Genuine}
use cpp_tcp.Network.Ticking.{tick-Sends, send_empty_segment-Sends, drained-Sends}
use cpp_tcp.Network.Writing.{end_input-Sends}
use cpp_tcp.Network.Receiving.{segment_received-Took}
use cpp_tcp.Network.Invariant.{Issued, Sound, Bounded, start-Sound}
use cpp_tcp.Network.Calls.{ackno-Issued, reads-Receives, writes-Sends, fills-Sends, hears-Sends}

-- What `Bounded` says after a step, it says before.
Step-Bounded :
    {src : ℕ → ℕ} {capacity : ℕ} {s t : System}
    → Step s t
    → Bounded src capacity t.written t.got
    → Bounded src capacity s.written s.got
Step-Bounded {src} {s = s} (writes bytes) b =
    let taken = take (ByteStream.write s.sender.stream bytes).1 bytes in
    record {
      stream = (front_part src 0 s.written taken b.stream).0;
      few_written = omega (arith, length-append s.written taken, b.few_written);
      few_got = b.few_got;
    }
Step-Bounded ends b = b
Step-Bounded (fills e) b = b
Step-Bounded (ticks ms) b = b
Step-Bounded probes b = b
Step-Bounded transmits b = b
Step-Bounded (delivers i seg at e) b = b
Step-Bounded {s = s} (reads len) b = record {
  stream = b.stream;
  few_written = b.few_written;
  few_got = omega (
    arith,
    length-append s.got (ByteStream.read (Receiver.stream_out s.receiver) len).0,
    b.few_got,
  );
}
Step-Bounded (acknowledges a e) b = b
Step-Bounded (hears i a win at e) b = b

-- Every step keeps the invariant.
Step-Sound :
    {src : ℕ → ℕ} {isn : WrappingInt32} {capacity : ℕ} {s t : System}
    → isn < 2 ^ 32
    → Step s t
    → Bounded src capacity t.written t.got
    → Sound src isn capacity s
    → Sound src isn capacity t
Step-Sound {s = s} word (writes bytes) b (out, inn) =
    let sends = writes-Sends s.sender bytes s.written out.sends b.stream b.few_written in
    (record { sends = sends; network = out.network }, inn)
Step-Sound {s = s} word ends b (out, inn) =
    (record { sends = end_input-Sends s.sender out.sends; network = out.network }, inn)
Step-Sound {s = s} word (fills e) b (out, inn) =
    (record { sends = fills-Sends e out.sends; network = out.network }, inn)
Step-Sound {s = s} word (ticks ms) b (out, inn) =
    (record { sends = tick-Sends s.sender ms out.sends; network = out.network }, inn)
Step-Sound {s = s} word probes b (out, inn) =
    (record { sends = send_empty_segment-Sends s.sender out.sends; network = out.network }, inn)
Step-Sound {s = s} word transmits b (out, inn) = (
  record {
    sends = drained-Sends s.sender out.sends;
    network = All-append _ s.sent s.sender.segments_out out.network out.sends.carrying.queue;
  },
  inn,
)
Step-Sound {src} {isn} {s = s} word (delivers i seg {receiver = r'} at e) b (out, inn) =
    let genuine = All-get_elem? (Genuine src isn) s.sent i seg out.network at in
    let same = inn.same_capacity in
    let count = inn.read_count in
    let t =
      segment_received-Took seg s.receiver r' word (omega (arith, b.few_got, same, count))
        inn.receives genuine e in
    (
      out,
      record {
        receives = t.receives;
        read_count = t.read_count ∙ count;
        same_capacity = t.capacity ∙ same;
        in_stream = inn.in_stream;
        issued = inn.issued;
      },
    )
Step-Sound {s = s} word (reads len) b (out, inn) =
    let same = inn.same_capacity in
    let count = inn.read_count in
    let many = length-append s.got (ByteStream.read (Receiver.stream_out s.receiver) len).0 in
    let (receives, moved, in_stream) =
      reads-Receives s.receiver len s.got (omega (arith, same, count, many, b.few_got)) inn.receives
        count inn.in_stream in
    (
      out,
      record {
        receives = receives;
        read_count = moved;
        same_capacity = same;
        in_stream = in_stream;
        issued = inn.issued;
      },
    )
Step-Sound {isn = isn} {s = s} word (acknowledges a e) b (out, inn) =
    let win = to_u16 (window_size s.receiver) in
    (
      out,
      record {
        receives = inn.receives;
        read_count = inn.read_count;
        same_capacity = inn.same_capacity;
        in_stream = inn.in_stream;
        issued =
            All-append (Issued isn) s.acks ((a, win) ∷ []) inn.issued
              (ackno-Issued s.receiver a win inn.receives e (omega arith), tt);
      },
    )
Step-Sound {isn = isn} {s = s} word (hears i a win at e) b (out, inn) =
    let issued = All-get_elem? (Issued isn) s.acks i (a, win) inn.issued at in
    (record { sends = hears-Sends a win issued e out.sends; network = out.network }, inn)

pub Reach-Sound :
    (src : ℕ → ℕ) (send_capacity capacity rt_timeout : ℕ) (isn : WrappingInt32) {sys : System}
    → send_capacity + 1 < 2 ^ 63
    → capacity + 1 < 2 ^ 63
    → isn < 2 ^ 32
    → Reach (start send_capacity capacity rt_timeout isn) sys
    → Bounded src capacity sys.written sys.got
    → Sound src isn capacity sys
Reach-Sound src send_capacity capacity rt_timeout isn big room word here b =
    start-Sound src send_capacity capacity rt_timeout isn big room word
Reach-Sound src send_capacity capacity rt_timeout isn big room word (later run step) b =
    Step-Sound word step b (
      Reach-Sound src send_capacity capacity rt_timeout isn big room word run (Step-Bounded step b))
