-- ===== src/Proxy.antt =====
-- internal/proxy: the pool of UDP relays (relay_pool.go) and the goroutines that share it, forwarded
-- TCP connections (tcp_forwarder.go) and ICMP echoes (icmp_forwarder.go).
pub mod Pool
pub mod Echo
pub mod Tcp
pub mod Counts
pub mod Relays
mod Samples
