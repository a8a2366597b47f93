-- ===== src/Protocol.antt =====
-- internal/protocol: the dproxy/1 control messages and their frames.
pub mod Message
pub mod Codec
