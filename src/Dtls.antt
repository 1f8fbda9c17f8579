-- ===== src/Dtls.antt =====
-- internal/dtls13: the DTLS 1.3 stack. Its wire format, records, replay protection, handshake
-- fragments and their reassembly.
pub mod Error
pub mod Wire
pub mod Budget
pub mod Fragment
pub mod Reassembler
pub mod Replay
pub mod Record
pub mod Protection
pub mod Ack
pub mod Pmtu
pub mod Rtt
pub mod ConnectionId
pub mod Flight
pub mod MtuSearch
pub mod Sending
pub mod Path
pub mod Discovery
