-- ===== src/Tests/Allowlist.antt =====
-- The theorems of the allowlist and of the checker at concrete inputs.
use dproxy.Base.{
  arith, ◌≡◌, refl, ◌≢◌, ◌↔◌, ◌⊎◌, true, false, some, List, [], ◌∷◌, ◌++◌, ok, err, All,
}
use dproxy.Base.Text.{
  Bytes, codes, equal, has_prefix, has_suffix, contains, split, trim_suffix, trim, to_lower,
}
use dproxy.Base.Space.{trim_space}
use dproxy.Base.Scanner.{scan_lines}
use dproxy.Net.Addr.{Addr, v4}
use dproxy.Net.ParseAddr.{parse_addr}
use dproxy.Net.HostPort.{split_host_port}
use dproxy.Policy.Decision.{allow}
use dproxy.Policy.Hostname.{canonical_hostname, is_label_byte}
use dproxy.Policy.Destination.{Destination, parse_authority, parse_port}
use dproxy.Policy.Destination.Authority.{IsDestination}
use dproxy.Policy.Allowlist.{
  HostPattern, wildcard, Allowlist, matches, permits, any_matches, parse_host_pattern,
  parse_allowlist, read_allowlist, invalid_pattern, add, has_pattern,
}
use dproxy.Policy.Allowlist.Matching.{MatchesName, matches_iff, AnyMatches, permits_iff}
use dproxy.Policy.Allowlist.Parsing.{IsPattern, parse_host_pattern-IsPattern}
use dproxy.Policy.Allowlist.Listing.{
  parse_allowlist-matches, read_allowlist-parse_allowlist, entries_match, entries_of, accepted,
}
use dproxy.Policy.Addresses.{check_addresses, classify_address, classify_unmapped}
use dproxy.Policy.Addresses.Internet.{InRange, IsInternet}
use dproxy.Policy.Checker.{check_destination, Checker, Resolver, resolve, check_authority}
use dproxy.Policy.Checker.Guarantee.{resolve_sound, MayDial, resolve_iff, check_authority_sound}

abbrev any_example : HostPattern
any_example = record { kind = wildcard; host = codes "example.com" }

matches_iff_example : (matches any_example (codes "api.example.com") ≡ true) ↔ (
    (codes "api.example.com" ≢ [])
    × MatchesName wildcard (codes "example.com") (codes "api.example.com"))
matches_iff_example = matches_iff any_example (codes "api.example.com")

abbrev examples : Allowlist
examples = record { patterns = any_example ∷ []; all_hosts = false }

abbrev api_destination : Destination
api_destination = record { host = codes "api.example.com"; port = 443 }

permits_iff_example : ((permits examples api_destination).allowed ≡ true) ↔ (
    (api_destination.host ≢ [])
    × (api_destination.port ≡ 443)
    × ((false ≡ true) ⊎ AnyMatches (any_example ∷ []) (codes "api.example.com")))
permits_iff_example = permits_iff examples api_destination

any_example-parsed : parse_host_pattern (codes " *.Example.com ") ≡ ok any_example
unfolding parse_host_pattern canonical_hostname is_label_byte split trim_suffix to_lower parse_addr
    trim contains trim_space equal has_prefix
any_example-parsed = refl

any-IsPattern : IsPattern any_example
any-IsPattern = parse_host_pattern-IsPattern (codes " *.Example.com ") any_example-parsed

examples-parsed : parse_allowlist (codes " *.Example.com " ∷ []) ≡ ok examples
unfolding parse_allowlist parse_host_pattern canonical_hostname is_label_byte split trim_suffix
    to_lower parse_addr trim contains trim_space equal has_prefix add has_pattern
examples-parsed = refl

parse_allowlist-matches_example :
    (any_matches (any_example ∷ []) (codes "b.example.com")
      ≡ entries_match (codes " *.Example.com " ∷ []) (codes "b.example.com"))
    × (false ≡ false)
parse_allowlist-matches_example =
    parse_allowlist-matches (codes " *.Example.com " ∷ []) (codes "b.example.com") examples-parsed

address-refused : parse_host_pattern (codes "10.0.0.1") ≡ err (invalid_pattern (codes "10.0.0.1"))
unfolding parse_host_pattern canonical_hostname is_label_byte split trim_suffix to_lower parse_addr
    trim contains trim_space equal has_prefix
address-refused = refl

abbrev file : Bytes
file = codes "# hosts" ++ 10 ∷ codes "*.example.com"

file-scanned : (scan_lines file).1 ≡ false
unfolding scan_lines
file-scanned = refl

read_allowlist-parse_allowlist_example :
    accepted (read_allowlist file) ≡ accepted (parse_allowlist (entries_of (scan_lines file).0))
read_allowlist-parse_allowlist_example = read_allowlist-parse_allowlist file file-scanned

-- 8.8.8.8
abbrev addresses : List Addr
addresses = v4 0x08080808 ∷ []

abbrev lookup : Resolver
lookup host = some addresses

abbrev checker : Checker
checker = record { allowlist = examples; resolver = some lookup }

resolve_iff_example :
    (resolve checker api_destination ≡ (addresses, allow))
    ↔ MayDial checker api_destination addresses
resolve_iff_example = resolve_iff checker api_destination addresses (omega arith, tt)

api-resolved : (resolve checker api_destination).1.allowed ≡ true
unfolding resolve permits any_matches matches has_suffix equal check_addresses classify_address
    classify_unmapped
api-resolved = refl

resolve_sound_example :
    (api_destination.port ≡ 443)
    × ((false ≡ true) ⊎ AnyMatches (any_example ∷ []) (codes "api.example.com"))
    × ((found : Resolver) × (some lookup ≡ some found)
        × (found (codes "api.example.com") ≡ some (resolve checker api_destination).0))
    × ((resolve checker api_destination).0 ≢ [])
    × All (λ a. InRange a → IsInternet a) (resolve checker api_destination).0
resolve_sound_example = resolve_sound checker api_destination api-resolved

abbrev other_destination : Destination
other_destination = record { host = codes "other.org"; port = 443 }

other-refused : (resolve checker other_destination).1.allowed ≡ false
unfolding resolve permits any_matches matches has_suffix equal check_addresses classify_address
    classify_unmapped
other-refused = refl

api-checked : (check_authority checker (codes "api.example.com:443")).1.allowed ≡ true
unfolding check_authority check_destination permits any_matches matches has_suffix equal
    parse_authority canonical_hostname is_label_byte split trim_suffix to_lower parse_addr trim
    contains trim_space split_host_port parse_port
api-checked = refl

check_authority_sound_example :
    IsDestination (check_authority checker (codes "api.example.com:443")).0
    × (parse_authority (codes "api.example.com:443")
        ≡ ok (check_authority checker (codes "api.example.com:443")).0)
    × ((false ≡ true)
        ⊎ AnyMatches
            (any_example ∷ [])
            (check_authority checker (codes "api.example.com:443")).0.host)
check_authority_sound_example =
    check_authority_sound checker (codes "api.example.com:443") api-checked
