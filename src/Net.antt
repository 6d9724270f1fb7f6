-- ===== src/Net.antt =====
-- The network stack, crates/zenus-net.
pub mod Route
pub mod Firewall
pub mod Arp
pub mod Dhcp
