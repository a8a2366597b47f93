-- ===== src/Tunnel.antt =====
-- internal/tunnel, as far as it is modelled.
pub mod Frames
pub mod Handshake
