-- ===== src/Lib.antt =====
-- The TCP endpoint of libsponge: a byte stream on each side, a receiver that puts substrings in
-- order, a sender that keeps what is unacknowledged, and the connection that joins the two.
--
-- The parts, from the bottom up. `Wrapping` (libsponge/wrapping_integers) turns absolute 64-bit
-- sequence numbers into 32-bit ones and back. `ByteStream` (libsponge/byte_stream) is the bounded
-- queue that the application reads from and writes to. `Reassembler` (libsponge/stream_reassembler)
-- stores substrings by index and writes what is complete to its byte stream. `Receiver`
-- (libsponge/tcp_receiver) feeds it with the payloads of segments and answers with an
-- acknowledgment number and a window. `Window` (libsponge/tcp_sending_window) holds the segments in
-- flight with their timers, and `Sender` (libsponge/tcp_sender) cuts its byte stream into segments,
-- sends them again and takes acknowledgments. `State` (libsponge/tcp_helpers/tcp_state) sums both up
-- in the official states, and `Connection` (libsponge/tcp_connection) handles segments, ticks and the
-- application's calls by these states. `Segment` has the fields of a segment; `Checksum`
-- (libsponge/util/util.cc), `Parser` (libsponge/util/parser) and `TcpWire`
-- (libsponge/tcp_helpers/tcp_header.cc and tcp_segment.cc) turn it into bytes and back, and
-- `Ipv4` (libsponge/tcp_helpers/ipv4_header.cc and ipv4_datagram.cc) does so with the datagram around
-- it. `Buffer` (libsponge/util/buffer) has the shared strings and the strings in several pieces.
-- `Adapter` (libsponge/tcp_helpers/fd_adapter, tcp_over_ip, tuntap_adapter and lossy_fd_adapter)
-- carries segments over UDP and IPv4, filters what comes in and loses some. `EventLoop`
-- (libsponge/util/eventloop) is one round of polling over a list of rules, `Descriptor`
-- (libsponge/util/file_descriptor) reads and writes and counts its calls, and `Socket`
-- (libsponge/tcp_helpers/tcp_sponge_socket) the connection with its adapter, the four rules
-- between them and the application's pipe, and the thread that runs these rules in its event loop. `Network` joins a sender and a receiver, as
-- tcp_connection.cc calls them, by a network that may lose, repeat and reorder, as a step relation
-- over both ends and all that is in flight, and `Handshake` joins two connections and delivers their
-- first segments. Of the programs in apps, `Options` reads the command lines of tcp_ipv4.cc and
-- tcp_udp.cc, `Copy` is bidirectional_stream_copy.cc, and `Capture` finds the payload in the packets
-- of udp_tcpdump.cc. `Common` has the shared numbers, lists and results;
-- `Tests` applies the theorems at concrete inputs.
--
-- Each class is a record with the members of the source, under their names less the underscore, and
-- each method a function under the method's name; a method that changes the object returns the new
-- one. Numbers are natural numbers, and the code's 16-, 32- and 64-bit wrap-around is written out
-- (`add64`, `sub64`, `to_u32`, ...). A byte is a number, a string the list of its bytes,
-- and so is the `Buffer` that holds a payload. A thrown exception, and an access that C++ leaves undefined, is an error of the `Result`
-- type. A loop is recursion on the data it goes over or on fuel: `assemble` of the reassembler takes
-- one round more than its vectors are long, since a round moves one place on; `fill_loop` of the
-- sender three more than the bytes of its stream, since a round sends a byte at least, or the FIN;
-- `write_loop` of a descriptor one more than the bytes of its buffer, since a round writes a byte at
-- least or throws; the loops over command lines (`scan`, `parse_from`) a round for each argument, and
-- `skip_extensions` one more than the packet has bytes; and `fold` of the checksum two rounds, since one takes a 32-bit sum below 2 ^ 17 and the next one
-- below 2 ^ 16. Elsewhere than in `fold`, out of fuel is an error of its own.
--
-- The random initial sequence number (`random_device`) is an argument of `create`. What sockets, the
-- TUN device, the pipe and `poll` deliver are arguments of the functions that use it, and what is
-- sent is a result. The callbacks of an event loop act on a world of the client's choice, and its
-- descriptors are names of states in that world, so duplicates share their state. An address is
-- what `ipv4_numeric` and `port` tell of it; the C library's `strtol` and `strtof` and the resolver are
-- fields of `CLibrary`; the answers of `read` and `writev` in `Copy` are lists; `inet_ntoa` with the constructor of `Address` is a
-- parameter `from_dotted`, of which one theorem supposes that it keeps the number. In `Network` the
-- steps are the calls in any order and any number, so a theorem on all that can be reached holds
-- whatever the timing.
--
-- Not modelled: output to `cout` and `cerr`, the human-readable strings, the wrappers of system calls
-- (sockets, devices, the resolution of addresses), the start of a socket's thread and its destructor, and of
-- the programs in apps what makes sockets and captures packets, with tcp_native.cc, tun.cc, webget.cc
-- and tcp_benchmark.cc as a whole. The theorems on the sender are about streams shorter than
-- 2 ^ 31 - 2 bytes, the first block of sequence numbers, in which `unwrap` is exact.
pub mod Common
pub mod Wrapping
pub mod Buffer
pub mod ByteStream
pub mod Reassembler
pub mod Segment
pub mod Receiver
pub mod Window
pub mod Sender
pub mod State
pub mod Connection
pub mod Checksum
pub mod Parser
pub mod TcpWire
pub mod Ipv4
pub mod Tests
pub mod Adapter
pub mod EventLoop
pub mod Descriptor
pub mod Socket
pub mod Network
pub mod Handshake
pub mod Options
pub mod Capture
pub mod Copy
