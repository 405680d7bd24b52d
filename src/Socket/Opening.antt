-- ===== src/Socket/Opening.antt =====
-- What `connect` and `listen_and_accept` start from, and when `_tcp_loop` is left.
use cpp_tcp.Common.{
  suc, ◌+◌, ◌^◌, ◌<◌, ◌≡◌, inl, refl, ap, ◌∙◌, arith, true, false, [], ◌∷◌, none, ok, Returns,
}
use cpp_tcp.Wrapping.{WrappingInt32}
use cpp_tcp.ByteStream
use cpp_tcp.ByteStream.{buffer_size}
use cpp_tcp.ByteStream.Invariant
use cpp_tcp.Window
use cpp_tcp.Window.Shape
use cpp_tcp.Sender
use cpp_tcp.Sender.{TcpSender, fill_window, fill_loop, fill_fuel, may_send}
use cpp_tcp.Sender.Shape.{IsValid}
use cpp_tcp.Sender.Syn.{opened, syn_segment, open_connection_closed}
use cpp_tcp.Sender.Fill.{fill_loop_stop}
use cpp_tcp.Receiver
use cpp_tcp.Reassembler
use cpp_tcp.State
use cpp_tcp.State.{State}
use cpp_tcp.Connection
use cpp_tcp.Connection.{TcpConfig, TcpConnection, collect, is_in, stamp}
use cpp_tcp.Adapter.{FdAdapter, FdAdapterConfig}
use cpp_tcp.Socket.{connect}

-- A new sender with its initial sequence number.
abbrev pub new_sender : TcpConfig → WrappingInt32 → TcpSender
new_sender cfg drawn = Sender.create cfg.send_capacity cfg.rt_timeout cfg.fixed_isn drawn

pub new_sender-IsValid :
    (cfg : TcpConfig) (drawn : WrappingInt32)
    → cfg.send_capacity + 1 < 2 ^ 63
    → (new_sender cfg drawn).window.isn < 2 ^ 32
    → IsValid (new_sender cfg drawn)
unfolding Sender.create Window.create ByteStream.create
new_sender-IsValid cfg drawn big word =
    let (valid, size) = Invariant.create-IsValid cfg.send_capacity big in
    record {
      stream = valid;
      window = Shape.create-IsValid _ 1 word (omega arith);
      in_step = inl (refl, refl);
      sound = refl;
      usable = omega arith;
      bounded = omega (arith, size);
      syn_first = λ _. (omega arith, omega arith);
    }

pub nothing_to_send :
    (cfg : TcpConfig) (drawn : WrappingInt32) → may_send (opened (new_sender cfg drawn)) ≡ false
unfolding may_send Sender.create ByteStream.create ByteStream.eof ByteStream.buffer_empty
nothing_to_send cfg drawn = refl

pub fill_window-new :
    (cfg : TcpConfig) (drawn : WrappingInt32)
    → cfg.send_capacity + 1 < 2 ^ 63
    → (new_sender cfg drawn).window.isn < 2 ^ 32
    → fill_window (new_sender cfg drawn) ≡ ok (opened (new_sender cfg drawn))
unfolding fill_window Sender.create Window.create
fill_window-new cfg drawn big word =
    let s = new_sender cfg drawn in
    let fuel : fill_fuel (opened s) ≡ suc (buffer_size s.stream + 2) = omega arith in
    let (opens, _) = open_connection_closed (new_sender-IsValid cfg drawn big word) refl in
    rw opens (
      ap (λ k. fill_loop k (opened s)) fuel
      ∙ fill_loop_stop (buffer_size s.stream + 2) (opened s) (nothing_to_send cfg drawn))

-- The connection after `connect`.
abbrev pub syn_sent : TcpConfig → WrappingInt32 → TcpConnection
syn_sent cfg drawn =
    let c = Connection.create cfg drawn in
    let s = opened (new_sender cfg drawn) in
    record c {
      sender = record s { segments_out = [] };
      segments_out = syn_segment (new_sender cfg drawn) ∷ [];
    }

pub connect-syn_sent :
    (cfg : TcpConfig) (drawn : WrappingInt32)
    → cfg.send_capacity + 1 < 2 ^ 63
    → (new_sender cfg drawn).window.isn < 2 ^ 32
    → Connection.connect (Connection.create cfg drawn) ≡ ok (syn_sent cfg drawn)
unfolding collect stamp Connection.create Receiver.create Receiver.ackno Sender.create
connect-syn_sent cfg drawn big word = rw (fill_window-new cfg drawn big word) refl

syn_sent-state :
    (cfg : TcpConfig) (drawn : WrappingInt32)
    → is_in (Connection.state (syn_sent cfg drawn)) State.syn_sent ≡ true
unfolding Connection.state Connection.create Receiver.create Reassembler.create ByteStream.create
    Receiver.ackno State.summarize State.equals State.of_state State.receiver_summary
    State.sender_summary Sender.create Window.create Window.bytes_in_flight
syn_sent-state cfg drawn = refl

-- `connect` on a socket without a connection does not throw: it takes the configuration, queues one
-- SYN with the initial sequence number, and is then in SYN_SENT. The send capacity must be below
-- 2 ^ 63 - 1, and the initial sequence number a word of 32 bits.
pub connect_sends_syn :
    (cfg : TcpConfig) (drawn : WrappingInt32) (adapter : FdAdapter) (c_ad : FdAdapterConfig)
    → cfg.send_capacity + 1 < 2 ^ 63
    → (new_sender cfg drawn).window.isn < 2 ^ 32
    → Returns
        (λ s.
          (is_in (Connection.state s.tcp) State.syn_sent ≡ true)
          × (s.tcp.segments_out ≡ syn_segment (new_sender cfg drawn) ∷ [])
          × (s.adapter.cfg ≡ c_ad))
        (connect none cfg drawn adapter c_ad)
unfolding connect
connect_sends_syn cfg drawn adapter c_ad big word =
    rw (connect-syn_sent cfg drawn big word, syn_sent-state cfg drawn)
      (syn_sent-state cfg drawn, refl, refl)
