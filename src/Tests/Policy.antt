-- ===== src/Tests/Policy.antt =====
-- Runs of internal/policy, and its theorems at concrete inputs.
use dproxy.Base.{◌++◌, arith}
use dproxy.Base.Text.{Bytes}
use dproxy.Policy.Hostname.{is_label_byte}
use dproxy.Policy.Hostname.Canonical.{IsHostname, canonical_hostname-IsHostname}
use dproxy.Policy.Hostname.Kelvin.{kelvin, canonical_hostname-kelvin}
use dproxy.Policy.Destination.{Destination, new_destination, authority}
use dproxy.Policy.Destination.Authority.{IsDestination}
use dproxy.Policy.Destination.RoundTrip.{parse_authority-authority}
use dproxy.Base.{◌≡◌, refl, ok, err}
use dproxy.Base.Text.{codes, equal, contains, split, trim_suffix, trim, to_lower}
use dproxy.Base.Space.{trim_space}
use dproxy.Net.ParseAddr.{parse_addr}
use dproxy.Net.HostPort.{split_host_port}
use dproxy.Policy.Decision.{malformed_authority, ip_literal, port_not_allowed}
use dproxy.Policy.Hostname.{canonical_hostname, is_label_byte}
use dproxy.Policy.Destination.{parse_authority, parse_port}

canonical_runs :
    (canonical_hostname (codes "API.Example.com.") ≡ ok (codes "api.example.com"))
    × (canonical_hostname (codes "10.0.0.1") ≡ err ip_literal)
    × (canonical_hostname (codes "[::1]") ≡ err ip_literal)
    × (canonical_hostname (codes "a..b") ≡ err malformed_authority)
    × (canonical_hostname (codes "-a.b") ≡ err malformed_authority)
unfolding canonical_hostname is_label_byte split trim_suffix to_lower parse_addr trim contains
canonical_runs = (refl, refl, refl, refl, refl)

authority_runs :
    (parse_authority (codes "api.Example.com:443")
      ≡ ok (record { host = codes "api.example.com"; port = 443 }))
    × (parse_authority (codes "api.example.com:0443") ≡ err malformed_authority)
    × (parse_authority (codes "api.example.com:80") ≡ err port_not_allowed)
    × (parse_authority (codes "[::1]:443") ≡ err ip_literal)
    × (parse_authority (codes "127.0.0.1:443") ≡ err ip_literal)
    × (parse_authority (codes "[api.example.com]:443") ≡ err malformed_authority)
    × (parse_authority (codes " a.b:443") ≡ err malformed_authority)
unfolding parse_authority canonical_hostname is_label_byte split trim_suffix to_lower parse_addr
    trim contains equal trim_space split_host_port parse_port
authority_runs = (refl, refl, refl, refl, refl, refl, refl)

abbrev api : Bytes
api = codes "api.example.com"

api-canonical : canonical_hostname (codes "API.Example.com.") ≡ ok api
unfolding canonical_hostname is_label_byte split trim_suffix to_lower parse_addr trim contains
api-canonical = refl

api-IsHostname : IsHostname api
api-IsHostname = canonical_hostname-IsHostname (codes "API.Example.com.") api-canonical

abbrev api_destination : Destination
api_destination = record { host = api; port = 443 }

api-IsDestination : IsDestination api_destination
api-IsDestination = record { hostname = api-IsHostname; port_allowed = refl }

mark-canonical : canonical_hostname (codes "mark.com") ≡ ok (codes "mark.com")
unfolding canonical_hostname is_label_byte split trim_suffix to_lower parse_addr trim contains
mark-canonical = refl

canonical_hostname-kelvin_example :
    canonical_hostname (codes "mar" ++ (kelvin ++ codes ".com")) ≡ ok (codes "mark.com")
canonical_hostname-kelvin_example =
    canonical_hostname-kelvin (codes "mar") (codes ".com")
      (canonical_hostname-IsHostname (codes "mark.com") mark-canonical) (omega arith)

api-new : new_destination (codes "API.Example.com.") 443 ≡ ok api_destination
unfolding new_destination canonical_hostname is_label_byte split trim_suffix to_lower parse_addr
    trim contains
api-new = refl

api-parsed : parse_authority (codes "API.Example.com:443") ≡ ok api_destination
unfolding parse_authority canonical_hostname is_label_byte split trim_suffix to_lower parse_addr
    trim contains equal trim_space split_host_port parse_port
api-parsed = refl

parse_authority-authority_example : parse_authority (authority api_destination) ≡ ok api_destination
parse_authority-authority_example = parse_authority-authority api_destination api-IsDestination
