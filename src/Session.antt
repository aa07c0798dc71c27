-- ===== src/Session.antt =====
-- src/protocol/Session.hh and Session.cc.
pub mod State
pub mod Sending
pub mod Table
pub mod Dispatch
pub mod Api
pub mod Order
pub mod Keeps
pub mod Phases
pub mod LostLink
pub mod Life
