-- ===== src/Policy/Decision.antt =====
-- internal/policy/decision.go: why a destination is refused, and the outcome of a check. The
-- cause of a refusal is prose for a verbose log and is left out.
use dproxy.Base.{Bool, true, false}

-- `DenyNone` and the reasons after it
pub data DenyReason : Type 0 where
  deny_none malformed_authority ip_literal port_not_allowed not_allowlisted : DenyReason
  resolution_failed non_public_address : DenyReason

pub record Decision : Type 0 where
  pub allowed : Bool
  pub reason : DenyReason

unfoldable pub allow : Decision
allow = record { allowed = true; reason = deny_none }

unfoldable pub deny : DenyReason → Decision
deny reason = record { allowed = false; reason = reason }

-- The zero value.
unfoldable pub zero_decision : Decision
zero_decision = record { allowed = false; reason = deny_none }
