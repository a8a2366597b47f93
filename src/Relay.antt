-- ===== src/Relay.antt =====
-- internal/relay: the remote server's session, its dialer, and its count of failures.
pub mod Dialer
pub mod Session
pub mod Limiter
