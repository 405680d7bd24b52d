-- ===== src/Handshake/Steps.antt =====
-- What each of the segments of the handshake does to the connection that it reaches.
use cpp_tcp.Common.{
  ℕ, ◌^◌, ◌<◌, ◌≡◌, refl, ap, ◌∙◌, arith, true, false, ◌==◌, [], ◌∷◌, Result, ok, ◌>>=◌,
  if◌then◌else◌, to_u16,
}
use cpp_tcp.Wrapping.{WrappingInt32, wrap}
use cpp_tcp.ByteStream
use cpp_tcp.Segment.{
  TcpSegment, default_segment, set_ack, set_ackno, set_window_size, length_in_sequence_space,
}
use cpp_tcp.Reassembler
use cpp_tcp.Receiver
use cpp_tcp.Receiver.{TcpReceiver}
use cpp_tcp.Window
use cpp_tcp.Sender
use cpp_tcp.Sender.{TcpSender}
use cpp_tcp.Sender.Syn.{syn_segment}
use cpp_tcp.State
use cpp_tcp.State.{State, of_state}
use cpp_tcp.Connection
use cpp_tcp.Connection.{
  TcpConfig, TcpConnection, is_in, dispatch, on_listen, on_syn_sent, on_syn_rcvd, collect, stamp,
  add_ack_info, connect, segment_received, answer_keep_alive, receive, push_ack,
}
use cpp_tcp.Connection.Over.{segment_received_no_rst}
use cpp_tcp.Handshake.Hearing.{synchronized, hears_syn, IsBare}
use cpp_tcp.Handshake.Speaking.{IsUsable, waiting, acknowledged, ack_received_syn}
use cpp_tcp.Socket.Opening.{new_sender, fill_window-new, syn_sent}

-- A segment with the acknowledgment of the peer's SYN, and the receiver's window.
abbrev pub acknowledging : TcpReceiver → TcpSegment → TcpSegment
acknowledging r seg =
    set_window_size (set_ackno (set_ack seg true) (wrap 1 r.isn)) (to_u16 (Receiver.window_size r))

-- The connection that has answered the SYN with the number `peer`.
abbrev pub syn_rcvd : TcpConfig → WrappingInt32 → WrappingInt32 → TcpConnection
syn_rcvd cfg drawn peer =
    let r = synchronized cfg.recv_capacity peer in
    record (Connection.create cfg drawn) {
      receiver = r;
      sender = waiting cfg drawn;
      segments_out = acknowledging r (syn_segment (new_sender cfg drawn)) ∷ [];
    }

-- `connect` with the receiver synchronized.
connect_answer :
    (cfg : TcpConfig) (drawn peer : WrappingInt32)
    → IsUsable cfg drawn
    → connect
        (record (Connection.create cfg drawn) { receiver = synchronized cfg.recv_capacity peer })
      ≡ ok (syn_rcvd cfg drawn peer)
unfolding collect stamp add_ack_info Connection.create Receiver.ackno Sender.create Receiver.create
connect_answer cfg drawn peer u = rw (fill_window-new cfg drawn u.send_capacity u.isn) refl

-- A segment that takes sequence numbers is no keep-alive.
no_keep_alive :
    (c : TcpConnection) (seg : TcpSegment)
    → (length_in_sequence_space seg == 0) ≡ false
    → answer_keep_alive c seg ≡ ok c
unfolding answer_keep_alive
no_keep_alive c seg long = ground (arith, long)

-- A segment without RST is handled by the handler of the state.
pub handled :
    (c : TcpConnection) (seg : TcpSegment) (st : State) {c₁ : TcpConnection}
    → seg.header.rst ≡ false
    → Connection.state (record c { time_since_last_segment_received = 0 }) ≡ of_state st
    → dispatch (of_state st) (record c { time_since_last_segment_received = 0 }) seg ≡ ok c₁
    → segment_received c seg ≡ answer_keep_alive c₁ seg
handled c seg st no_rst in_state done =
    segment_received_no_rst c seg no_rst
    ∙ ap
        (λ s. dispatch s (record c { time_since_last_segment_received = 0 }) seg >>= λ c₁.
          answer_keep_alive c₁ seg)
        in_state
    ∙ ap (λ m. m >>= λ c₁. answer_keep_alive c₁ seg) done

dispatch-listen :
    (c : TcpConnection) (seg : TcpSegment)
    → dispatch (of_state State.listen) c seg ≡ on_listen c seg
unfolding dispatch State.equals State.of_state
dispatch-listen c seg = refl

dispatch-syn_sent :
    (c : TcpConnection) (seg : TcpSegment)
    → dispatch (of_state State.syn_sent) c seg ≡ on_syn_sent c seg
unfolding dispatch State.equals State.of_state
dispatch-syn_sent c seg = refl

module _ (cfg : TcpConfig) (drawn : WrappingInt32) (u : IsUsable cfg drawn) where
  listens : Connection.state (Connection.create cfg drawn) ≡ of_state State.listen
  unfolding Connection.state Connection.create Receiver.create Reassembler.create ByteStream.create
      Receiver.ackno State.summarize State.of_state State.receiver_summary State.sender_summary
      Sender.create Window.create
  listens = refl

  on_listen_syn :
      (seg : TcpSegment)
      → IsBare seg
      → seg.header.seqno < 2 ^ 32
      → seg.header.syn ≡ true
      → on_listen (Connection.create cfg drawn) seg ≡ ok (syn_rcvd cfg drawn seg.header.seqno)
  unfolding on_listen Connection.create
  on_listen_syn seg b word syn =
      let answer = receive (Connection.create cfg drawn) seg >>= λ c₁.
      connect c₁ >>= λ c₂. ok (record c₂ { active = true }) in
      ap (λ x. if x then answer else ok (Connection.create cfg drawn)) syn
      ∙ rw
          (hears_syn cfg.recv_capacity seg u.recv_capacity_pos (omega (arith, u.recv_capacity)) word
            b syn)
          (ap
            (λ (m : Result TcpConnection).
              m >>= λ (c₂ : TcpConnection). ok (record c₂ { active = true }))
            (connect_answer cfg drawn seg.header.seqno u))

  -- A SYN reaches a connection that listens.
  pub listen_hears_syn :
      (seg : TcpSegment)
      → IsBare seg
      → seg.header.seqno < 2 ^ 32
      → seg.header.syn ≡ true
      → seg.header.rst ≡ false
      → segment_received (Connection.create cfg drawn) seg
        ≡ ok (syn_rcvd cfg drawn seg.header.seqno)
  unfolding Connection.create
  listen_hears_syn seg b word syn no_rst =
      handled (Connection.create cfg drawn) seg State.listen no_rst listens
        (dispatch-listen (Connection.create cfg drawn) seg ∙ on_listen_syn seg b word syn)
      ∙ no_keep_alive (syn_rcvd cfg drawn seg.header.seqno) seg
          (rw (b.no_bytes, b.no_fin, syn) refl)

  -- The connection that has sent its SYN.
  abbrev pub calling : TcpConnection
  calling = record (syn_sent cfg drawn) { segments_out = [] }

  calls : Connection.state calling ≡ of_state State.syn_sent
  unfolding Connection.state Connection.create Receiver.create Reassembler.create ByteStream.create
      Receiver.ackno State.summarize State.of_state State.receiver_summary State.sender_summary
      Sender.create Window.create Window.bytes_in_flight
  calls = refl

  -- That connection when the answer with the number `peer` and the window `win` has come.
  abbrev pub called : WrappingInt32 → ℕ → TcpConnection
  called peer win =
      let r = synchronized cfg.recv_capacity peer in
      record (Connection.create cfg drawn) {
        receiver = r;
        sender = acknowledged cfg drawn u win;
        segments_out = acknowledging r default_segment ∷ [];
      }

  on_syn_sent_answer :
      (seg : TcpSegment)
      → IsBare seg
      → seg.header.seqno < 2 ^ 32
      → seg.header.win < 2 ^ 16
      → seg.header.syn ≡ true
      → seg.header.ack ≡ true
      → seg.header.ackno ≡ wrap 1 (new_sender cfg drawn).window.isn
      → on_syn_sent calling seg ≡ ok (called seg.header.seqno seg.header.win)
  unfolding on_syn_sent Connection.create push_ack add_ack_info Receiver.ackno
  on_syn_sent_answer seg b word small syn ack acks =
      rw (syn, ack)
        (rw
          (hears_syn cfg.recv_capacity
            (record seg { header = record seg.header { syn = true; ack = true } })
            u.recv_capacity_pos (omega (arith, u.recv_capacity)) word
            (record { no_bytes = b.no_bytes; no_fin = b.no_fin }) refl)
          (rw (acks, ack_received_syn cfg drawn u seg.header.win small) refl))

  pub calling_hears_answer :
      (seg : TcpSegment)
      → IsBare seg
      → seg.header.seqno < 2 ^ 32
      → seg.header.win < 2 ^ 16
      → seg.header.syn ≡ true
      → seg.header.ack ≡ true
      → seg.header.rst ≡ false
      → seg.header.ackno ≡ wrap 1 (new_sender cfg drawn).window.isn
      → segment_received calling seg ≡ ok (called seg.header.seqno seg.header.win)
  unfolding Connection.create
  calling_hears_answer seg b word small syn ack no_rst acks =
      handled calling seg State.syn_sent no_rst calls
        (dispatch-syn_sent calling seg ∙ on_syn_sent_answer seg b word small syn ack acks)
      ∙ no_keep_alive (called seg.header.seqno seg.header.win) seg
          (rw (b.no_bytes, b.no_fin, syn) refl)
