-- ===== src/Sockets.antt =====
-- lib/sockets/sockets.c: the packets that SUSE, hilolay and libMUSE exchange.
pub mod Bytes
pub mod Packet
pub mod Channel
pub mod RoundTrip
pub mod Termination
mod Tests
