-- ===== src/Tests/Programs.antt =====
-- The handshake and the programs at concrete inputs.
use cpp_tcp.Common.{
  ℕ, ◌≡◌, refl, arith, Bool, true, false, List, [], ◌∷◌, some, none, map, err, Error, replicate,
  ◌++◌, Returns, IfReturns, Result, ok,
}
use cpp_tcp.ByteStream
use cpp_tcp.Sender
use cpp_tcp.Window
use cpp_tcp.Connection
use cpp_tcp.Connection.{TcpConfig}
use cpp_tcp.Socket.Opening.{new_sender}
use cpp_tcp.Handshake.{handshake}
use cpp_tcp.Handshake.Speaking.{IsUsable}
use cpp_tcp.Handshake.Settled.{Established}
use cpp_tcp.Handshake.Opening.{handshake-Established}
use cpp_tcp.Adapter.{Address}
use cpp_tcp.EventLoop
use cpp_tcp.EventLoop.{FdState, Request, Revents, Polled, events_of, Rule}
use cpp_tcp.Options.{CLibrary, Run, Settings, returned}
use cpp_tcp.Options
use cpp_tcp.Options.Ipv4
use cpp_tcp.Options.Positional.{Positional}
use cpp_tcp.Capture
use cpp_tcp.Capture.{process_ipv4_ipv6}
use cpp_tcp.Capture.Skipping.{Located, process_ipv4_ipv6-Located}
use cpp_tcp.Descriptor
use cpp_tcp.Buffer.Views
use cpp_tcp.EventLoop.{wait_next_event}
use cpp_tcp.Copy
use cpp_tcp.Copy.{Copying, Channel, fresh, copy_loop, rules, bidirectional_stream_copy}
use cpp_tcp.Copy.Rules.{InOrder, copies-InOrder}

abbrev client_config : TcpConfig
client_config = record {
  rt_timeout = 1000;
  recv_capacity = 10;
  send_capacity = 10;
  fixed_isn = some 4294967295;
}

abbrev server_config : TcpConfig
server_config = record {
  rt_timeout = 1000;
  recv_capacity = 20;
  send_capacity = 20;
  fixed_isn = none;
}

client-IsUsable : IsUsable client_config 0
unfolding Sender.create Window.create
client-IsUsable = record {
  send_capacity = omega arith;
  recv_capacity_pos = omega arith;
  recv_capacity = omega arith;
  isn = omega arith;
}

server-IsUsable : IsUsable server_config 99
unfolding Sender.create Window.create
server-IsUsable = record {
  send_capacity = omega arith;
  recv_capacity_pos = omega arith;
  recv_capacity = omega arith;
  isn = omega arith;
}

handshake-Established_example :
    Returns
      (λ ends.
        Established client_config 0 client-IsUsable (new_sender server_config 99).window.isn ends.0
        × Established server_config 99 server-IsUsable
            (new_sender client_config 0).window.isn
            ends.1)
      (handshake (Connection.create client_config 0) (Connection.create server_config 99))
handshake-Established_example =
    handshake-Established client_config server_config 0 99 client-IsUsable server-IsUsable

-- A resolver that knows every host at one address, with the first byte of the service as the port.
abbrev first_byte : List ℕ → ℕ
first_byte [] = 0
first_byte (x ∷ xs) = x

abbrev library : CLibrary
library = record {
  strtol = first_byte;
  loss_rate = first_byte;
  resolve = λ host service. ok (record { ipv4_numeric = 167772161; port = first_byte service });
}

abbrev any : Address
any = record { ipv4_numeric = 0; port = 0 }

-- tcp_ipv4 -w 9 -l h 7
abbrev server_line : List (List ℕ)
server_line =
    (b't' ∷ [])
    ∷ (b'-' ∷ b'w' ∷ [])
    ∷ (b'9' ∷ [])
    ∷ (b'-' ∷ b'l' ∷ [])
    ∷ (b'h' ∷ [])
    ∷ (b'7' ∷ [])
    ∷ []

abbrev server_settings : Settings
server_settings = record (Options.initial any Ipv4.local_address []) {
  fsm = record Options.default_config { recv_capacity = b'9' };
  filt = record {
    source = record { ipv4_numeric = 167772161; port = b'7' };
    destination = any;
    loss_rate_dn = 0;
    loss_rate_up = 0;
  };
  listen = true;
  curr = 4;
}

server_runs : Ipv4.configure library any [] server_line ≡ returned server_settings
unfolding Ipv4.configure Ipv4.get_config Ipv4.read_option Ipv4.read_addresses Options.scan
    Options.with_argument Options.argument Options.strncmp_eq
server_runs = refl

-- A packet of IPv6 whose UDP header stands behind one extension header.
abbrev extended : List ℕ
extended = (96 ∷ 0 ∷ 0 ∷ 0 ∷ 0 ∷ 0 ∷ 0 ∷ 64 ∷ []) ++ (replicate 32 1 ++ (17 ∷ 0 ∷ replicate 14 2))

extended_found : process_ipv4_ipv6 extended ≡ ok (some (56, replicate 16 1, replicate 16 1))
unfolding process_ipv4_ipv6 Capture.process_ipv6 Capture.skip_extensions Capture.byte_at
    Capture.address_at
extended_found = refl

-- A packet of IPv4 that says it has one word.
short_undefined : process_ipv4_ipv6 (65 ∷ 0 ∷ 0 ∷ 0 ∷ []) ≡ err Error.undefined
unfolding process_ipv4_ipv6 Capture.process_ipv4 Capture.byte_at
short_undefined = refl

process_ipv4_ipv6-Located_example : Returns (Located extended) (process_ipv4_ipv6 extended)
process_ipv4_ipv6-Located_example = process_ipv4_ipv6-Located extended (λ v4. omega arith)

-- Every descriptor is ready for what is asked of it.
abbrev all_ready : List Request → Polled
all_ready asks = events_of (
    map (λ (a : Request). record { readable = true; writable = true; failed = false; hup = false })
      asks)

abbrev small : Channel
small = record { stream = ByteStream.create 4; shutdown = false; taken = []; given = [] }

-- "abc" is typed, and the socket takes two bytes and then one.
abbrev typing : Copying
typing = record {
  outbound = small;
  inbound = small;
  input = fresh;
  socket = fresh;
  output = fresh;
  input_reads = (97 ∷ 98 ∷ 99 ∷ []) ∷ [];
  socket_reads = (120 ∷ []) ∷ [];
  socket_writes = 2 ∷ 1 ∷ [];
  output_writes = 1 ∷ [];
}

abbrev traffic : Result (Bool × Copying) → List ℕ × List ℕ
traffic (ok out) = (out.1.outbound.given, out.1.inbound.given)
traffic (err e) = ([], [])

copied :
    traffic (copy_loop (all_ready ∷ all_ready ∷ all_ready ∷ []) typing rules)
    ≡ (97 ∷ 98 ∷ 99 ∷ [], 120 ∷ [])
unfolding copy_loop Copy.from_input Copy.to_socket Copy.from_socket Copy.to_output Copy.fill
    Copy.drain Copy.finish_stream wait_next_event EventLoop.prepare EventLoop.dispatch
    Descriptor.read Descriptor.write Descriptor.write_loop Views.remove_prefix ByteStream.create
    ByteStream.write ByteStream.write_loop ByteStream.put ByteStream.buffer_size
    ByteStream.buffer_full ByteStream.next_index_of ByteStream.end_input ByteStream.peek_output
    ByteStream.peek_loop ByteStream.pop_output ByteStream.eof ByteStream.buffer_empty
    ByteStream.remaining_capacity
copied = refl

copies-InOrder_example :
    IfReturns InOrder
      (bidirectional_stream_copy fresh ((97 ∷ 98 ∷ []) ∷ []) [] (2 ∷ []) [] (all_ready ∷ []))
copies-InOrder_example = copies-InOrder fresh ((97 ∷ 98 ∷ []) ∷ []) [] (2 ∷ []) [] (all_ready ∷ [])
