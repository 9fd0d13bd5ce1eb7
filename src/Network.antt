-- ===== src/Network.antt =====
-- src/network and include/network.
pub mod DnsServer
pub mod Hostname
