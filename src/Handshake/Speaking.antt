-- ===== src/Handshake/Speaking.antt =====
-- What the senders do in the handshake: nothing but the SYN is to be sent, before and after it is
-- acknowledged.
use cpp_tcp.Common.{ℕ, suc, ◌+◌, ◌^◌, ◌<◌, ◌≡◌, ◌≢◌, refl, ap, ◌∙◌, arith, false, [], ok}
use cpp_tcp.Wrapping.{WrappingInt32, wrap}
use cpp_tcp.ByteStream
use cpp_tcp.ByteStream.{buffer_size}
use cpp_tcp.Window
use cpp_tcp.Sender
use cpp_tcp.Sender.{
  TcpSender, fill_window, fill_loop, fill_fuel, may_send, ack_received, open_connection,
}
use cpp_tcp.Sender.Shape.{IsValid}
use cpp_tcp.Sender.Syn.{opened, open_connection_closed, open_connection_open}
use cpp_tcp.Sender.Fill.{fill_loop_stop}
use cpp_tcp.Sender.Acks.{advanced, ack_received-eq_new}
use cpp_tcp.State.{SenderSummary, sender_summary}
use cpp_tcp.Connection.{TcpConfig}
use cpp_tcp.Socket.Opening.{new_sender, new_sender-IsValid}

-- What a configuration and an initial sequence number are: sizes and words in range.
pub record IsUsable (cfg : TcpConfig) (drawn : WrappingInt32) : Type 0 where
  pub send_capacity : cfg.send_capacity + 1 < 2 ^ 63
  pub recv_capacity_pos : 0 < cfg.recv_capacity
  pub recv_capacity : cfg.recv_capacity + 1 < 2 ^ 63
  pub isn : (new_sender cfg drawn).window.isn < 2 ^ 32

-- The sender once the SYN has left it.
abbrev pub waiting : TcpConfig → WrappingInt32 → TcpSender
waiting cfg drawn = record (opened (new_sender cfg drawn)) { segments_out = [] }

pub waiting-IsValid :
    (cfg : TcpConfig) (drawn : WrappingInt32) → IsUsable cfg drawn → IsValid (waiting cfg drawn)
unfolding Sender.create Window.create
waiting-IsValid cfg drawn u =
    let (_, v) = open_connection_closed (new_sender-IsValid cfg drawn u.send_capacity u.isn) refl in
    record {
      stream = v.stream;
      window = v.window;
      in_step = v.in_step;
      sound = v.sound;
      usable = v.usable;
      bounded = v.bounded;
      syn_first = v.syn_first;
    }

-- An open sender with nothing to send stays as it is.
pub fill_window_idle :
    {s : TcpSender}
    → IsValid s
    → s.window.next_seqno ≢ 0
    → may_send s ≡ false
    → fill_window s ≡ ok s
unfolding fill_window
fill_window_idle {s} v begun idle =
    let fuel : fill_fuel s ≡ suc (buffer_size s.stream + 2) = omega arith in
    rw (open_connection_open v begun)
      (ap (λ k. fill_loop k s) fuel ∙ fill_loop_stop (buffer_size s.stream + 2) s idle)

module _ (cfg : TcpConfig) (drawn : WrappingInt32) (u : IsUsable cfg drawn) (win : ℕ) where
  -- The sender after the acknowledgment of its SYN.
  abbrev pub acknowledged : TcpSender
  acknowledged = advanced (waiting cfg drawn) (waiting-IsValid cfg drawn u).window 1 win

  pub acknowledged-idle : may_send acknowledged ≡ false
  unfolding may_send Sender.create ByteStream.create ByteStream.eof ByteStream.buffer_empty
  acknowledged-idle = refl

  pub acknowledged-IsValid : win < 2 ^ 16 → IsValid acknowledged
  unfolding Sender.create Window.create
  acknowledged-IsValid word =
      (ack_received-eq_new (waiting-IsValid cfg drawn u) 1 win (omega arith) (omega arith) word).1

  pub ack_received_syn :
      win < 2 ^ 16
      → ack_received (waiting cfg drawn) (wrap 1 (new_sender cfg drawn).window.isn) win
        ≡ ok acknowledged
  unfolding Sender.create Window.create Window.reset_timer
  ack_received_syn word =
      (ack_received-eq_new (waiting-IsValid cfg drawn u) 1 win (omega arith) (omega arith) word).0
      ∙ fill_window_idle (acknowledged-IsValid word) (omega arith) acknowledged-idle

  pub acknowledged-syn_acked : sender_summary acknowledged ≡ SenderSummary.syn_acked
  unfolding sender_summary Sender.create ByteStream.create ByteStream.eof ByteStream.buffer_empty
      Window.create Window.bytes_in_flight Window.reset_timer
  acknowledged-syn_acked = refl
