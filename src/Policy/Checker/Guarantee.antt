-- ===== src/Policy/Checker/Guarantee.antt =====
-- The answers of `CheckAuthority` and `Resolve`.
use dproxy.Base.{
  ◌≡◌, refl, ◌≢◌, ◌↔◌, ◌⊎◌, inl, inr, true, false, Option, none, some, List, [], ◌∷◌, arith,
  Bool-cases, and_true, ok, Result-cases, all, All,
}
use dproxy.Base.Text.{Bytes}
use dproxy.Net.Addr.{Addr}
use dproxy.Policy.Decision.{allow, deny}
use dproxy.Policy.Destination.{Destination, parse_authority}
use dproxy.Policy.Addresses.{public, is_public, AddressClass, classify_address, check_addresses}
use dproxy.Policy.Addresses.Internet.{
  IsInternet, InRange, classify_address_iff, check_addresses_iff,
}
use dproxy.Policy.Allowlist.{permits}
use dproxy.Policy.Allowlist.Matching.{AnyMatches, permits_iff}
use dproxy.Policy.Checker.{
  Resolver, Checker, check_destination, check_authority, judge_addresses, ask, resolve,
  check_parsed,
}
use dproxy.Policy.Destination.Authority.{IsDestination, parse_authority-IsDestination}

public_of_is_public : (k : AddressClass) → is_public k ≡ true → k ≡ public
public_of_is_public public h = refl
public_of_is_public _ h = cc

pub all-Internet :
    (addresses : List Addr)
    → all (λ a. is_public (classify_address a)) addresses ≡ true
    → All (λ a. InRange a → IsInternet a) addresses
all-Internet [] h = tt
all-Internet (a ∷ rest) h =
    let (here, later) = and_true (is_public (classify_address a)) _ h in
    (
      λ r. (classify_address_iff a r).0 (public_of_is_public (classify_address a) here),
      all-Internet rest later,
    )

-- What was looked up is what is returned, and it passed the address check.
record Answered (c : Checker) (d : Destination) : Type 0 where
  permitted : (permits c.allowlist d).allowed ≡ true
  lookup : Resolver
  configured : c.resolver ≡ some lookup
  answered : lookup d.host ≡ some (resolve c d).0
  checked : (check_addresses (resolve c d).0).allowed ≡ true

judge_allowed :
    (answer : Option (List Addr))
    → (judge_addresses answer).1.allowed ≡ true
    → (answer ≡ some (judge_addresses answer).0)
      × ((check_addresses (judge_addresses answer).0).allowed ≡ true)
unfolding judge_addresses deny
judge_allowed none h = cc
judge_allowed (some addresses) h = ground arith

ask_allowed :
    (r : Option Resolver) (host : Bytes)
    → (ask r host).1.allowed ≡ true
    → (lookup : Resolver) × (r ≡ some lookup)
      × (lookup host ≡ some (ask r host).0)
      × ((check_addresses (ask r host).0).allowed ≡ true)
unfolding ask deny
ask_allowed none host h = cc
ask_allowed (some lookup) host h =
    let (a, b) = judge_allowed (lookup host) h in (lookup, refl, a, b)

resolve_allowed :
    (c : Checker) (d : Destination)
    → (resolve c d).1.allowed ≡ true
    → ((permits c.allowlist d).allowed ≡ true) × (resolve c d ≡ ask c.resolver d.host)
unfolding resolve check_destination
resolve_allowed c d h = elim (Bool-cases (permits c.allowlist d).allowed) [
  | inl e ↦ (e, rw e)
  | inr e ↦ cc (rw e at h)
]

-- When `Resolve` permits a destination, the allowlist permits it on port 443, the configured
-- resolver gave exactly the addresses that are returned, there is at least one, and every one
-- that fits its address family lies outside all special address blocks.
pub resolve_sound :
    (c : Checker) (d : Destination)
    → (resolve c d).1.allowed ≡ true
    → (d.port ≡ 443)
      × ((c.allowlist.all_hosts ≡ true) ⊎ AnyMatches c.allowlist.patterns d.host)
      × ((lookup : Resolver) × (c.resolver ≡ some lookup) × (lookup d.host ≡ some (resolve c d).0))
      × ((resolve c d).0 ≢ [])
      × All (λ a. InRange a → IsInternet a) (resolve c d).0
resolve_sound c d h =
    let (permitted, same) = resolve_allowed c d h in
    let (host_given, port_ok, listed) = (permits_iff c.allowlist d).0 permitted in
    let (lookup, configured, answered, checked) = ask_allowed c.resolver d.host (rw same at h) in
    let (some_address, publics) = (check_addresses_iff (ask c.resolver d.host).0).0 checked in
    (
      port_ok,
      listed,
      (lookup, configured, rw same answered),
      rw same some_address,
      rw same (all-Internet (ask c.resolver d.host).0 publics),
    )

-- `Resolve` returns no address to dial whenever it refuses.
pub resolve_refused :
    (c : Checker) (d : Destination) → (resolve c d).1.allowed ≡ false → (resolve c d).0 ≡ []
unfolding resolve ask judge_addresses check_destination allow
resolve_refused c d h = ground arith

resolve_complete :
    (c : Checker) (d : Destination) (lookup : Resolver) (addresses : List Addr)
    → (permits c.allowlist d).allowed ≡ true
    → c.resolver ≡ some lookup
    → lookup d.host ≡ some addresses
    → addresses ≢ []
    → all (λ a. is_public (classify_address a)) addresses ≡ true
    → resolve c d ≡ (addresses, allow)
unfolding resolve ask judge_addresses check_destination allow
resolve_complete c d lookup addresses p e answer ne publics =
    let checked = (check_addresses_iff addresses).1 (ne, publics) in
    rw (p, e, ask) (rw answer (rw checked))

all-is_public :
    (addresses : List Addr)
    → All InRange addresses
    → All IsInternet addresses
    → all (λ a. is_public (classify_address a)) addresses ≡ true
all-is_public [] r h = refl
all-is_public (a ∷ rest) r h = rw ((classify_address_iff a r.0).1 h.0) (all-is_public rest r.1 h.1)

All-IsInternet :
    (addresses : List Addr)
    → All InRange addresses
    → All (λ a. InRange a → IsInternet a) addresses
    → All IsInternet addresses
All-IsInternet [] r h = tt
All-IsInternet (a ∷ rest) r h = (h.0 r.0, All-IsInternet rest r.1 h.1)

resolve-permitted :
    (c : Checker) (d : Destination) (addresses : List Addr)
    → resolve c d ≡ (addresses, allow)
    → ((resolve c d).1.allowed ≡ true) × ((resolve c d).0 ≡ addresses)
unfolding allow
resolve-permitted c d addresses e = rw e (refl, refl)

-- What makes a destination one that may be dialed at a list of addresses.
abbrev pub MayDial : Checker → Destination → List Addr → Type 0
MayDial c d addresses =
    (d.host ≢ [])
    × (d.port ≡ 443)
    × ((c.allowlist.all_hosts ≡ true) ⊎ AnyMatches c.allowlist.patterns d.host)
    × ((lookup : Resolver) × (c.resolver ≡ some lookup) × (lookup d.host ≡ some addresses))
    × (addresses ≢ [])
    × All IsInternet addresses

resolve-MayDial :
    (c : Checker) (d : Destination) (addresses : List Addr)
    → All InRange addresses
    → resolve c d ≡ (addresses, allow)
    → MayDial c d addresses
resolve-MayDial c d addresses r e =
    let (permitted, same) = resolve-permitted c d addresses e in
    let (port_ok, listed, (lookup, configured, answered), some_address, publics) =
      resolve_sound c d permitted in
    (
      ((permits_iff c.allowlist d).0 (resolve_allowed c d permitted).0).0,
      port_ok,
      listed,
      (lookup, configured, rw same at answered),
      rw same at some_address,
      All-IsInternet addresses r (rw same at publics),
    )

-- `Resolve` permits a destination with a list of addresses that fit their families exactly if the
-- destination names a host on port 443 which the allowlist lets through, the configured resolver
-- answers with this list, and the list is not empty and holds addresses of the Internet only, with
-- no zone and in no special block.
pub resolve_iff :
    (c : Checker) (d : Destination) (addresses : List Addr)
    → All InRange addresses
    → (resolve c d ≡ (addresses, allow)) ↔ MayDial c d addresses
resolve_iff c d addresses r = (
  resolve-MayDial c d addresses r,
  λ (host_given, port_ok, listed, (lookup, configured, answered), some_address, publics).
      resolve_complete c d lookup addresses
        ((permits_iff c.allowlist d).1 (host_given, port_ok, listed)) configured answered
        some_address (all-is_public addresses r publics),
)

-- A CONNECT target that `CheckAuthority` permits is a canonical hostname on port 443 which the
-- allowlist lets through.
pub check_authority_sound :
    (c : Checker) (raw : Bytes)
    → (check_authority c raw).1.allowed ≡ true
    → IsDestination (check_authority c raw).0
      × (parse_authority raw ≡ ok (check_authority c raw).0)
      × ((c.allowlist.all_hosts ≡ true)
          ⊎ AnyMatches c.allowlist.patterns (check_authority c raw).0.host)
unfolding check_authority check_parsed check_destination deny
check_authority_sound c raw h = elim (Result-cases (parse_authority raw)) [
  | inl (d, e) ↦ rw e (
    parse_authority-IsDestination raw e,
    refl,
    ((permits_iff c.allowlist d).0 (rw (e, check_parsed) at h)).2,
  )
  | inr (r, e) ↦ cc (rw (e, check_parsed) at h)
]
