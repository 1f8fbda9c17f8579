-- ===== src/Relay.antt =====
-- internal/relay: the transfer of data between two streams.
pub mod Dump
pub mod Outcome
pub mod Transfer
pub mod Copy
pub mod Buffered
