-- ===== src/Handshake/Opening.antt =====
-- The three-way handshake as a whole.
use cpp_tcp.Common.{
  ◌≢◌, ℕ, ◌^◌, ◌<◌, ◌≡◌, refl, arith, false, ◌&&◌, ◌==◌, [], ok, if-both, Returns, Returns-bind,
  to_u16,
}
use cpp_tcp.Wrapping.{WrappingInt32, wrap, minus}
use cpp_tcp.ByteStream
use cpp_tcp.Segment.{TcpSegment, default_segment, length_in_sequence_space}
use cpp_tcp.Receiver
use cpp_tcp.Window
use cpp_tcp.Sender
use cpp_tcp.Sender.{TcpSender, may_send}
use cpp_tcp.Sender.Syn.{syn_segment}
use cpp_tcp.Connection
use cpp_tcp.Connection.{
  TcpConfig, TcpConnection, collect, stamp, add_ack_info, segment_received, answer_keep_alive,
}
use cpp_tcp.Handshake.{deliver, handshake}
use cpp_tcp.Handshake.Hearing.{synchronized}
use cpp_tcp.Handshake.Speaking.{IsUsable, acknowledged, acknowledged-IsValid, fill_window_idle}
use cpp_tcp.Handshake.Steps.{
  acknowledging, syn_rcvd, listen_hears_syn, calling, called, calling_hears_answer,
}
use cpp_tcp.Handshake.Settled.{
  answering, answered, answering_hears_ack, Established, Established-summary,
}
use cpp_tcp.Socket.Opening.{new_sender, syn_sent, connect-syn_sent}

module _ (cfg : TcpConfig) (drawn : WrappingInt32) (u : IsUsable cfg drawn) where
  -- An acknowledged sender with an empty segment in its queue has nothing more to send.
  nudged : ℕ → TcpSender
  nudged win = Sender.send_empty_segment (acknowledged cfg drawn u win)

  begun : (win : ℕ) → (acknowledged cfg drawn u win).window.next_seqno ≢ 0
  unfolding Window.reset_timer Sender.create Window.create
  begun win e = absurd (omega (arith, e))

  idle : (win : ℕ) → may_send (nudged win) ≡ false
  unfolding nudged Sender.send_empty_segment may_send Sender.create ByteStream.create ByteStream.eof
      ByteStream.buffer_empty
  idle win = refl

  fill-nudged : (win : ℕ) → win < 2 ^ 16 → Sender.fill_window (nudged win) ≡ ok (nudged win)
  unfolding nudged Sender.send_empty_segment
  fill-nudged win word =
      let v = acknowledged-IsValid cfg drawn u win word in
      fill_window_idle
        (record {
          stream = v.stream;
          window = v.window;
          in_step = v.in_step;
          sound = v.sound;
          usable = v.usable;
          bounded = v.bounded;
          syn_first = v.syn_first;
        })
        (begun win) (idle win)

  collect-nudged :
      (peer : WrappingInt32) (win : ℕ)
      → win < 2 ^ 16
      → Returns
          (Established cfg drawn u peer)
          (collect (record (answered cfg drawn u peer win) { sender = nudged win }))
  unfolding collect stamp add_ack_info Receiver.ackno nudged Sender.send_empty_segment
  collect-nudged peer win word =
      rw (fill-nudged win word) (Established-summary cfg drawn u peer win _)

  keep_alive-Established :
      (peer : WrappingInt32) (win : ℕ) (seg : TcpSegment)
      → win < 2 ^ 16
      → Returns
          (Established cfg drawn u peer)
          (answer_keep_alive (answered cfg drawn u peer win) seg)
  unfolding answer_keep_alive Receiver.ackno Sender.send_empty_segment nudged
  keep_alive-Established peer win seg word =
      if-both (Returns (Established cfg drawn u peer))
        (length_in_sequence_space seg == 0 && seg.header.seqno == minus (wrap 1 peer) 1)
        (collect (record (answered cfg drawn u peer win) { sender = nudged win }))
        (ok (answered cfg drawn u peer win)) (λ _. collect-nudged peer win word)
        (λ _. Established-summary cfg drawn u peer win [])

syn_number :
    (cfg : TcpConfig) (drawn : WrappingInt32)
    → (new_sender cfg drawn).window.isn < 2 ^ 32
    → (syn_segment (new_sender cfg drawn)).header.seqno ≡ (new_sender cfg drawn).window.isn
unfolding Sender.create Window.create wrap
syn_number cfg drawn word = omega (arith, word)

module _ (cfg cfg' : TcpConfig) (drawn drawn' : WrappingInt32) (u : IsUsable cfg drawn)
    (u' : IsUsable cfg' drawn') where
  abbrev isn : WrappingInt32
  isn = (new_sender cfg drawn).window.isn

  abbrev isn' : WrappingInt32
  isn' = (new_sender cfg' drawn').window.isn

  -- The window that the server's answer offers.
  abbrev offered : ℕ
  offered = to_u16 (Receiver.window_size (synchronized cfg'.recv_capacity isn))

  syn_arrives :
      deliver (syn_sent cfg drawn) (Connection.create cfg' drawn')
      ≡ ok (calling cfg drawn u, syn_rcvd cfg' drawn' isn)
  unfolding deliver
  syn_arrives =
      let number = syn_number cfg drawn u.isn in
      rw
        (listen_hears_syn cfg' drawn' u' (syn_segment (new_sender cfg drawn))
          (record { no_bytes = refl; no_fin = refl }) (omega (arith, number, u.isn)) refl refl)
        (rw number refl)

  answer_arrives :
      deliver (syn_rcvd cfg' drawn' isn) (calling cfg drawn u)
      ≡ ok (answering cfg' drawn' u' isn, called cfg drawn u isn' offered)
  unfolding deliver
  answer_arrives =
      let number = syn_number cfg' drawn' u'.isn in
      let seg =
        acknowledging (synchronized cfg'.recv_capacity isn)
          (syn_segment (new_sender cfg' drawn')) in
      rw
        (calling_hears_answer cfg drawn u seg (record { no_bytes = refl; no_fin = refl })
          (omega (arith, number, u'.isn)) (omega arith) refl refl refl refl)
        (rw number refl)

  ack_arrives :
      Returns
        (λ ends. Established cfg drawn u isn' ends.0 × Established cfg' drawn' u' isn ends.1)
        (deliver (called cfg drawn u isn' offered) (answering cfg' drawn' u' isn))
  unfolding deliver
  ack_arrives =
      let seg = acknowledging (synchronized cfg.recv_capacity isn') default_segment in
      rw
        (answering_hears_ack cfg' drawn' u' isn seg (record { no_bytes = refl; no_fin = refl })
          u.isn (omega arith) (omega arith) refl refl refl refl)
        (Returns-bind (Established cfg' drawn' u' isn)
          (λ ends. Established cfg drawn u isn' ends.0 × Established cfg' drawn' u' isn ends.1)
          (answer_keep_alive (answered cfg' drawn' u' isn seg.header.win) seg) _
          (keep_alive-Established cfg' drawn' u' isn seg.header.win seg (omega arith))
          λ s h. (Established-summary cfg drawn u isn' offered [], h))

-- Three-way handshake. Let a client and a server have any configurations with receive capacities of
-- at least one byte and all capacities below 2 ^ 63 - 1, and any initial sequence numbers. When the
-- client connects, and its SYN, the server's answer and the client's answer to that are delivered in
-- turn, no call throws, and both endpoints are ESTABLISHED: each knows the initial sequence number of
-- the other, the two SYNs are acknowledged, and nothing else has been sent.
pub handshake-Established :
    (cfg cfg' : TcpConfig) (drawn drawn' : WrappingInt32) (u : IsUsable cfg drawn)
    (u' : IsUsable cfg' drawn')
    → Returns
        (λ ends.
          Established cfg drawn u (new_sender cfg' drawn').window.isn ends.0
          × Established cfg' drawn' u' (new_sender cfg drawn).window.isn ends.1)
        (handshake (Connection.create cfg drawn) (Connection.create cfg' drawn'))
unfolding handshake
handshake-Established cfg cfg' drawn drawn' u u' =
    rw (connect-syn_sent cfg drawn u.send_capacity u.isn) (
      rw (syn_arrives cfg cfg' drawn drawn' u u')
        (rw (answer_arrives cfg cfg' drawn drawn' u u') (ack_arrives cfg cfg' drawn drawn' u u')))
