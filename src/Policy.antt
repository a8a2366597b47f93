-- ===== src/Policy.antt =====
-- internal/policy: which destinations may be reached.
pub mod Decision
pub mod Hostname
pub mod Destination
pub mod Allowlist
pub mod Addresses
pub mod Checker
