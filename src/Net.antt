-- ===== src/Net.antt =====
-- kernel/net: address resolution, routes, sockets and UDP.
pub mod Arp
pub mod Route
pub mod Checksum
pub mod Socket
pub mod Udp
mod Tests
