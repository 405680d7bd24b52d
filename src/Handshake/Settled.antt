-- ===== src/Handshake/Settled.antt =====
-- The last segment of the handshake, and the connections that it leaves.
use cpp_tcp.Common.{ℕ, ◌^◌, ◌<◌, ◌≡◌, refl, ◌∙◌, arith, true, false, List, [], ok}
use cpp_tcp.Wrapping.{WrappingInt32, wrap}
use cpp_tcp.ByteStream
use cpp_tcp.Segment.{TcpSegment}
use cpp_tcp.Reassembler
use cpp_tcp.Receiver
use cpp_tcp.Receiver.{TcpReceiver}
use cpp_tcp.Window
use cpp_tcp.Sender
use cpp_tcp.Sender.{TcpSender}
use cpp_tcp.State
use cpp_tcp.State.{State, of_state}
use cpp_tcp.Connection
use cpp_tcp.Connection.{
  TcpConfig, TcpConnection, is_in, dispatch, on_listen, on_syn_sent, on_syn_rcvd, collect, stamp,
  add_ack_info, connect, segment_received, answer_keep_alive, receive, push_ack,
}
use cpp_tcp.Handshake.Hearing.{synchronized, hears_again, IsBare}
use cpp_tcp.Handshake.Speaking.{IsUsable, acknowledged, ack_received_syn}
use cpp_tcp.Socket.Opening.{new_sender}
use cpp_tcp.Handshake.Steps.{syn_rcvd, handled}

dispatch-syn_rcvd :
    (c : TcpConnection) (seg : TcpSegment)
    → dispatch (of_state State.syn_rcvd) c seg ≡ on_syn_rcvd c seg
unfolding dispatch State.equals State.of_state
dispatch-syn_rcvd c seg = refl

module _ (cfg : TcpConfig) (drawn : WrappingInt32) (u : IsUsable cfg drawn) where
  -- The connection that has answered, once its answer has left.
  abbrev pub answering : WrappingInt32 → TcpConnection
  answering peer = record (syn_rcvd cfg drawn peer) { segments_out = [] }

  -- That connection when its SYN has been acknowledged with the window `win`.
  abbrev pub answered : WrappingInt32 → ℕ → TcpConnection
  answered peer win = record (answering peer) { sender = acknowledged cfg drawn u win }

  answers : (peer : WrappingInt32) → Connection.state (answering peer) ≡ of_state State.syn_rcvd
  unfolding Connection.state Connection.create Receiver.create Reassembler.create ByteStream.create
      Receiver.ackno State.summarize State.of_state State.receiver_summary State.sender_summary
      Sender.create Window.create Window.bytes_in_flight
  answers peer = refl

  on_syn_rcvd_ack :
      (peer : WrappingInt32) (seg : TcpSegment)
      → IsBare seg
      → peer < 2 ^ 32
      → seg.header.seqno < 2 ^ 32
      → seg.header.win < 2 ^ 16
      → seg.header.syn ≡ false
      → seg.header.ack ≡ true
      → seg.header.ackno ≡ wrap 1 (new_sender cfg drawn).window.isn
      → on_syn_rcvd (answering peer) seg ≡ ok (answered peer seg.header.win)
  unfolding on_syn_rcvd
  on_syn_rcvd_ack peer seg b known word small no_syn ack acks = rw ack (
      rw
        (hears_again cfg.recv_capacity peer
          (record seg { header = record seg.header { ack = true } }) u.recv_capacity_pos
          (omega (arith, u.recv_capacity)) known word
          (record { no_bytes = b.no_bytes; no_fin = b.no_fin }) no_syn)
        (rw (acks, ack_received_syn cfg drawn u seg.header.win small) refl))

  -- What is left to the application: ESTABLISHED, the peer's number known, the SYN acknowledged, and
  -- nothing else sent.
  abbrev pub Established : WrappingInt32 → TcpConnection → Type 0
  Established peer c =
      (is_in (Connection.state c) State.established ≡ true)
      × (c.receiver ≡ synchronized cfg.recv_capacity peer)
      × (c.sender.window.first_seqno ≡ 1)
      × (c.sender.window.next_seqno ≡ 1)

  pub Established-summary :
      (peer : WrappingInt32) (win : ℕ) (segs : List TcpSegment)
      → Established peer (record (answered peer win) { segments_out = segs })
  unfolding Connection.state Connection.create Receiver.create Reassembler.create ByteStream.create
      Receiver.ackno State.summarize State.equals State.of_state State.receiver_summary
      State.sender_summary Sender.create Window.create Window.bytes_in_flight Window.reset_timer
      ByteStream.eof ByteStream.buffer_empty
  Established-summary peer win segs = (refl, refl, refl, refl)

  pub answering_hears_ack :
      (peer : WrappingInt32) (seg : TcpSegment)
      → IsBare seg
      → peer < 2 ^ 32
      → seg.header.seqno < 2 ^ 32
      → seg.header.win < 2 ^ 16
      → seg.header.syn ≡ false
      → seg.header.ack ≡ true
      → seg.header.rst ≡ false
      → seg.header.ackno ≡ wrap 1 (new_sender cfg drawn).window.isn
      → segment_received (answering peer) seg ≡ answer_keep_alive (answered peer seg.header.win) seg
  unfolding Connection.create
  answering_hears_ack peer seg b known word small no_syn ack no_rst acks =
      handled (answering peer) seg State.syn_rcvd no_rst (answers peer) (
        dispatch-syn_rcvd (answering peer) seg
        ∙ on_syn_rcvd_ack peer seg b known word small no_syn ack acks)
