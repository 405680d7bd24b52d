-- ===== src/Receiver.antt =====
-- libsponge/tcp_receiver.hh and tcp_receiver.cc.
pub mod Acks
use cpp_tcp.Common.{
  ℕ, ◌+◌, Bool, true, false, ◌&&◌, ◌||◌, not, ◌==◌, ltb, List, Option, none, some, Result, ok,
  ◌>>=◌, if◌then◌else◌, add64, sub64,
}
use cpp_tcp.Wrapping.{WrappingInt32, wrap, unwrap}
use cpp_tcp.ByteStream
use cpp_tcp.ByteStream.{ByteStream}
use cpp_tcp.Segment.{TcpSegment, TcpHeader, length_in_sequence_space}
use cpp_tcp.Reassembler
use cpp_tcp.Reassembler.{StreamReassembler}

pub record TcpReceiver : Type 0 where
  pub reassembler : StreamReassembler
  pub isn : ℕ
  pub is_set : Bool
  pub ended : Bool
  pub checkpoint : ℕ
  pub capacity : ℕ

unfoldable pub create : ℕ → TcpReceiver
create capacity = record {
  reassembler = Reassembler.create capacity;
  isn = 0;
  is_set = false;
  ended = false;
  checkpoint = 0;
  capacity = capacity;
}

abbrev pub stream_out : TcpReceiver → ByteStream
stream_out r = r.reassembler.output

-- A SYN sets the initial sequence number and resets the checkpoint.
unfoldable pub note_syn : TcpReceiver → TcpHeader → TcpReceiver
note_syn r header =
    if header.syn then record r { isn = header.seqno; is_set = true; checkpoint = 0 } else r

-- The last part of `segment_received`, after the call of `push_substring`.
unfoldable pub advance_checkpoint : TcpReceiver → ℕ → ℕ → TcpReceiver
advance_checkpoint r index len =
    let moved = add64 index len in
    let reached = add64 (Reassembler.left r.reassembler) 1 in
    if index == 0 || index == r.checkpoint
    then (if ltb moved reached
        then record r {
          checkpoint =
              if r.ended && Reassembler.distance r.reassembler == 0
              then add64 reached 1
              else reached;
        }
        else record r { checkpoint = moved })
    else r

-- The index of the first byte in the stream; for a SYN the index 0 of the SYN itself plus one less one.
unfoldable pub stream_index : TcpHeader → ℕ → ℕ
stream_index header index =
    let before = sub64 index 1 in if header.syn then add64 before 1 else before

-- `segment_received` from the call of `unwrap` on, when the ISN is set.
unfoldable pub take_segment : TcpReceiver → TcpSegment → Result TcpReceiver
take_segment r seg =
    let index = unwrap seg.header.seqno r.isn r.checkpoint in
    do
      pushed ←
          Reassembler.push_substring r.reassembler seg.payload (stream_index seg.header index)
            seg.header.fin
      let r' = record r { reassembler = pushed; ended = r.ended || seg.header.fin }
      ok (advance_checkpoint r' index (length_in_sequence_space seg))

unfoldable pub segment_received : TcpReceiver → TcpSegment → Result TcpReceiver
segment_received r seg =
    let r' = note_syn r seg.header in if r'.is_set then take_segment r' seg else ok r'

unfoldable pub ackno : TcpReceiver → Option WrappingInt32
ackno r = if r.is_set then some (wrap r.checkpoint r.isn) else none

unfoldable pub window_size : TcpReceiver → ℕ
window_size r =
    sub64 (Reassembler.capacity_value r.reassembler) (ByteStream.buffer_size (stream_out r))

pub data ReceiverState : Type 0 where
  listen syn_recv fin_recv error : ReceiverState

unfoldable pub state : TcpReceiver → ReceiverState
state r = if ByteStream.error (stream_out r) then ReceiverState.error else (elim (ackno r) [
  | none ↦ listen
  | some _ ↦ if not (ByteStream.input_ended (stream_out r)) then syn_recv else fin_recv
])

unfoldable pub unassembled_bytes : TcpReceiver → Result ℕ
unassembled_bytes r = Reassembler.unassembled_bytes r.reassembler
