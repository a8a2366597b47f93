-- ===== src/Net.antt =====
-- What the source uses of Go's `net` and `net/netip` packages.
pub mod Addr
pub mod ParseAddr
pub mod HostPort
