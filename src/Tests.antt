-- ===== src/Tests.antt =====
-- The theorems at concrete inputs, and some runs of the program.
mod Streams
mod Rules
mod Sockets
mod Packets
mod Networks
mod Windows
mod Senders
mod Endpoints
mod Datagrams
mod Programs
