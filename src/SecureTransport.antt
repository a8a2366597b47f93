-- ===== src/SecureTransport.antt =====
-- internal/securetransport, as far as it is modelled.
pub mod Dns
pub mod Ech
