-- ===== src/Transport.antt =====
-- src/protocol/transport/TransportManager.hh and TransportManager.cc: messages as frames on a connection.
pub mod State
pub mod Sending
pub mod Receiving
pub mod Stream
pub mod Frames
pub mod Handshake
