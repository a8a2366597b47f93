-- ===== src/Policy/Checker.antt =====
-- internal/policy/checker.go: the destination policy of both sides.
pub mod Guarantee
use dproxy.Base.{not, Option, none, some, List, [], if◌then◌else◌, Result, ok, err}
use dproxy.Base.Text.{Bytes}
use dproxy.Net.Addr.{Addr}
use dproxy.Policy.Decision.{DenyReason, resolution_failed, Decision, allow, deny}
use dproxy.Policy.Destination.{
  Destination, zero_destination, parse_authority, deny_reason_of, invalid_destination,
}
use dproxy.Policy.Allowlist.{Allowlist, permits}
use dproxy.Policy.Addresses.{check_addresses}

-- `LookupAddresses` as the resolver answers it; `none` is an error.
abbrev pub Resolver : Type 0
Resolver = Bytes → Option (List Addr)

pub record Checker : Type 0 where
  pub allowlist : Allowlist
  pub resolver : Option Resolver

unfoldable pub check_destination : Checker → Destination → Decision
unfolding permits
check_destination c d = permits c.allowlist d

check_parsed : Checker → Result DenyReason Destination → Destination × Decision
unfolding deny_reason_of zero_destination deny
check_parsed c (err reason) = (zero_destination, deny (deny_reason_of (invalid_destination reason)))
check_parsed c (ok d) = (d, check_destination c d)

unfoldable pub check_authority : Checker → Bytes → Destination × Decision
unfolding check_parsed
check_authority c raw = check_parsed c (parse_authority raw)

judge_addresses : Option (List Addr) → List Addr × Decision
unfolding check_addresses allow deny
judge_addresses none = ([], deny resolution_failed)
judge_addresses (some addresses) =
    let decision = check_addresses addresses in
    if not decision.allowed then ([], decision) else (addresses, allow)

ask : Option Resolver → Bytes → List Addr × Decision
unfolding judge_addresses
ask none host = ([], deny resolution_failed)
ask (some lookup) host = judge_addresses (lookup host)

-- The nil address list of a refusal is the empty list.
unfoldable pub resolve : Checker → Destination → List Addr × Decision
unfolding check_destination ask
resolve c d =
    let decision = check_destination c d in
    if not decision.allowed then ([], decision) else ask c.resolver d.host
