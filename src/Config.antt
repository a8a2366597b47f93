-- ===== src/Config.antt =====
-- internal/config: the shared secret, pins, and the reader of the configuration file.
pub mod Token
pub mod Pin
pub mod Toml
