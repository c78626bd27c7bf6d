-- ===== src/Pkt.antt =====
-- Polygon/lib/ngtcp2_pkt.c: packet headers, frames, packet numbers.
pub mod Frame
pub mod Header
pub mod Negotiation
pub mod Number
pub mod Reset
mod Tests
pub mod Validate
