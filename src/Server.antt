-- ===== src/Server.antt =====
-- src/server: the listeners. Each asks a `DnsService`, the interface that the pipeline fills.
pub mod Service
pub mod Http
pub mod Tcp
pub mod Doh
pub mod Udp
