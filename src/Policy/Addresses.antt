-- ===== src/Policy/Addresses.antt =====
-- internal/policy/addresses.go: which resolved addresses may be dialed.
pub mod Blocks
pub mod Ipv4
pub mod Ipv6
pub mod Internet
use dproxy.Base.{◌+◌, ◌^◌, Bool, true, false, not, ◌||◌, List, [], ◌∷◌, ◌==◌, if◌then◌else◌, length}
use dproxy.Base.Text.{equal}
use dproxy.Net.Addr.{
  Addr, invalid, quad, groups2, is_valid, zone, unmap, is_unspecified, is_loopback, is_private,
  is_link_local_unicast, is_link_local_multicast, is_multicast, is_global_unicast, Prefix, prefix4,
  prefix6, prefix_contains,
}
use dproxy.Policy.Decision.{resolution_failed, non_public_address, Decision, allow, deny}

pub data AddressClass : Type 0 where
  public invalid_address unspecified loopback private link_local multicast : AddressClass
  non_global_unicast reserved : AddressClass

-- `Public`
abbrev pub is_public : AddressClass → Bool
is_public public = true
is_public _ = false

-- The table, in the source's order; an IPv4 prefix of n bits leaves 32 - n below.
unfoldable pub reserved_prefixes : List Prefix
reserved_prefixes =
    prefix4 (quad 0 0 0 0) 24
    ∷ prefix4 (quad 100 64 0 0) 22
    ∷ prefix4 (quad 192 0 0 0) 8
    ∷ prefix4 (quad 192 0 2 0) 8
    ∷ prefix4 (quad 192 88 99 0) 8
    ∷ prefix4 (quad 198 18 0 0) 17
    ∷ prefix4 (quad 198 51 100 0) 8
    ∷ prefix4 (quad 203 0 113 0) 8
    ∷ prefix4 (quad 240 0 0 0) 28
    ∷ prefix6 (groups2 0x64 0xff9b) 32
    ∷ prefix6 (groups2 0x64 0xff9b + 2 ^ 80) 80
    ∷ prefix6 (groups2 0x100 0) 64
    ∷ prefix6 (groups2 0x2001 0) 96
    ∷ prefix6 (groups2 0x2001 2) 80
    ∷ prefix6 (groups2 0x2001 0xdb8) 96
    ∷ prefix6 (groups2 0x2002 0) 112
    ∷ prefix6 (groups2 0xfec0 0) 118
    ∷ []

-- The loop over the table.
unfoldable pub any_contains : List Prefix → Addr → Bool
unfolding prefix_contains
any_contains [] a = false
any_contains (p ∷ ps) a = prefix_contains p a || any_contains ps a

-- The switch of `ClassifyAddress` and the loop behind it, on the unmapped address.
unfoldable pub classify_unmapped : Addr → AddressClass
unfolding is_unspecified is_loopback is_private is_link_local_unicast is_link_local_multicast
    is_multicast is_global_unicast any_contains reserved_prefixes
classify_unmapped a =
    if is_unspecified a
    then unspecified
    else if is_loopback a
    then loopback
    else if is_private a
    then private
    else if is_link_local_unicast a || is_link_local_multicast a
    then link_local
    else if is_multicast a
    then multicast
    else if not (is_global_unicast a)
    then non_global_unicast
    else if any_contains reserved_prefixes a
    then reserved
    else public

unfoldable pub classify_address : Addr → AddressClass
unfolding zone unmap equal
classify_address a =
    if not (is_valid a)
    then invalid_address
    else if not (equal (zone a) [])
    then non_global_unicast
    else classify_unmapped (unmap a)

-- The address, its class, and whether one was found.
unfoldable pub first_non_public : List Addr → Addr × AddressClass × Bool
first_non_public [] = (invalid, public, false)
first_non_public (a ∷ rest) =
    let class = classify_address a in
    let later = first_non_public rest in if not (is_public class) then (a, class, true) else later

unfoldable pub check_addresses : List Addr → Decision
unfolding first_non_public allow deny
check_addresses addresses =
    if length addresses == 0
    then deny resolution_failed
    else if (first_non_public addresses).2
    then deny non_public_address
    else allow
