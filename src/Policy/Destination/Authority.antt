-- ===== src/Policy/Destination/Authority.antt =====
-- What `NewDestination` and `ParseAuthority` accept.
use dproxy.Base.{ℕ, ◌≡◌, inl, inr, Option, none, some, [], ◌++◌, arith, ok, Result-cases}
use dproxy.Base.Text.{Bytes, codes, equal_iff}
use dproxy.Net.HostPort.{split_host_port}
use dproxy.Policy.Hostname.{canonical_hostname}
use dproxy.Policy.Destination.{
  Destination, new_destination, parse_authority, is_zero, authority, itoa16, parse_port,
}
use dproxy.Policy.Hostname.Canonical.{
  IsHostname, canonical_hostname-IsHostname, canonical_hostname_self,
}
use dproxy.Policy.Destination.{parse_parts, parse_port_of, with_port}

-- A destination that only `NewDestination` can build.
pub record IsDestination (d : Destination) : Type 0 where
  pub hostname : IsHostname d.host
  pub port_allowed : d.port ≡ 443

with_port-ok :
    (port : ℕ) (h : Bytes) {d : Destination}
    → with_port port h ≡ ok d
    → (port ≡ 443) × (d ≡ record { host = h; port = port })
unfolding with_port
with_port-ok port h e = ground arith

-- `NewDestination` succeeds only with a canonical hostname and port 443.
pub new_destination-IsDestination :
    (host : Bytes) (port : ℕ) {d : Destination} → new_destination host port ≡ ok d → IsDestination d
unfolding new_destination
new_destination-IsDestination host port {d} e = elim (Result-cases (canonical_hostname host)) [
  | inl (h, c) ↦
      let (port_ok, same) = with_port-ok port h (rw c at e) in
      rw same (record { hostname = canonical_hostname-IsHostname host c; port_allowed = port_ok })
  | inr (r, c) ↦ cc (rw c at e)
]

-- `NewDestination` takes the parts of a destination and builds the same destination again.
pub new_destination_self :
    (d : Destination) → IsDestination d → new_destination d.host d.port ≡ ok d
unfolding new_destination with_port
new_destination_self d v = rw (canonical_hostname_self d.host v.hostname, v.port_allowed)

-- The destination comes out of `NewDestination`, on some host and port.
parse_authority-new :
    (raw : Bytes) {d : Destination}
    → parse_authority raw ≡ ok d
    → (host : Bytes) × (port : ℕ) × (new_destination host port ≡ ok d)
unfolding parse_authority
parse_authority-new raw {d} e = parse_parts-new (split_host_port raw) (ground arith)
  where
    parse_port_of-new :
        (host : Bytes) (p : Option ℕ)
        → parse_port_of host p ≡ ok d
        → (h : Bytes) × (port : ℕ) × (new_destination h port ≡ ok d)
    parse_port_of-new host none x = cc
    parse_port_of-new host (some port) x = (host, port, x)

    parse_parts-new :
        (parts : Option (Bytes × Bytes))
        → parse_parts raw parts ≡ ok d
        → (h : Bytes) × (port : ℕ) × (new_destination h port ≡ ok d)
    parse_parts-new none x = cc
    parse_parts-new (some (host, text)) x = parse_port_of-new host (parse_port text) (ground arith)

-- `ParseAuthority` accepts canonical hostnames on port 443 only, whatever the text looks like.
pub parse_authority-IsDestination :
    (raw : Bytes) {d : Destination} → parse_authority raw ≡ ok d → IsDestination d
parse_authority-IsDestination raw e =
    let (host, port, n) = parse_authority-new raw e in new_destination-IsDestination host port n

pub authority-text : (d : Destination) → IsDestination d → authority d ≡ d.host ++ codes ":443"
unfolding authority is_zero itoa16
authority-text d v = rw (v.port_allowed) (ground (arith, equal_iff d.host [], v.hostname.not_nil))
