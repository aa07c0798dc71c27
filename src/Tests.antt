-- ===== src/Tests.antt =====
-- Concrete runs of the library: each property with hypotheses or parameters applied to one.
pub mod Buffers
pub mod Numbers
pub mod Channels
pub mod Config
pub mod Forwarders
pub mod Literals
pub mod Sessions
pub mod Transports
pub mod Texts
pub mod References
