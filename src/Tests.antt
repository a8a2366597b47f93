-- ===== src/Tests.antt =====
-- Tests, and the theorems at concrete inputs that meet their hypotheses.
mod Net
mod Policy
mod Allowlist
mod Addresses
mod Config
mod Limiter
mod Pins
mod Protocol
mod SecureTransport
mod Relay
mod Tunnel
mod Toml
mod Ech
mod LocalProxy
