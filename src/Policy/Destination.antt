-- ===== src/Policy/Destination.antt =====
-- internal/policy/destination.go: a validated CONNECT target.
pub mod Authority
pub mod RoundTrip
use dproxy.Base.{
  ℕ, zero, suc, ◌+◌, ◌-◌, ◌*◌, ◌/◌, ◌%◌, Bool, true, false, not, ◌&&◌, ◌||◌, Option, none, some, [],
  ◌∷◌, ◌++◌, ltb, ◌==◌, if◌then◌else◌, Result, ok, err, ◌>>=◌, length, all,
}
use dproxy.Base.Text.{Bytes, equal, trim}
use dproxy.Base.Space.{trim_space}
use dproxy.Net.Addr.{Addr}
use dproxy.Net.ParseAddr.{parse_addr, is_digit}
use dproxy.Net.HostPort.{split_host_port}
use dproxy.Policy.Decision.{
  DenyReason, deny_none, malformed_authority, ip_literal, port_not_allowed,
}
use dproxy.Policy.Hostname.{canonical_hostname}

-- `AllowedPort`
abbrev pub allowed_port : ℕ
allowed_port = 443

pub record Destination : Type 0 where
  pub host : Bytes
  pub port : ℕ

-- The zero value, which the source returns beside an error.
unfoldable pub zero_destination : Destination
zero_destination = record { host = []; port = 0 }

-- An `InvalidDestinationError` keeps its `Deny`; the authority and the prose are left out.
with_port : ℕ → Bytes → Result DenyReason Destination
with_port port canonical =
    if not (port == allowed_port)
    then err port_not_allowed
    else ok (record { host = canonical; port = port })

unfoldable pub new_destination : Bytes → ℕ → Result DenyReason Destination
unfolding with_port
new_destination host port = canonical_hostname host >>= with_port port

-- The digits' value, in 32 bits as `strconv.ParseUint` is called.
decimal : ℕ → Bytes → ℕ
decimal acc [] = acc
decimal acc (c ∷ s) = decimal (acc * 10 + (c - b'0')) s

-- `text[0] == '0'`
abbrev starts_with_zero : Bytes → Bool
starts_with_zero [] = false
starts_with_zero (c ∷ s) = c == b'0'

-- At most five digits get to `ParseUint`, so it cannot overflow.
unfoldable pub parse_port : Bytes → Option ℕ
unfolding decimal
parse_port text =
    if length text == 0
    then none
    else if ltb 5 (length text)
    then none
    else if not (all is_digit text)
    then none
    else if ltb 1 (length text) && starts_with_zero text
    then none
    else let value = decimal 0 text in if value == 0 || ltb 65535 value then none else some value

abbrev is_bracket : ℕ → Bool
is_bracket c = c == b'[' || c == b']'

is_address : Option Addr → Bool
is_address none = false
is_address (some a) = true

starts_with_bracket : Bytes → Bool
starts_with_bracket [] = false
starts_with_bracket (c ∷ s) = c == b'['

parse_port_of : Bytes → Option ℕ → Result DenyReason Destination
unfolding new_destination
parse_port_of host none = err malformed_authority
parse_port_of host (some port) = new_destination host port

-- The part of `ParseAuthority` behind `SplitHostPort`.
parse_parts : Bytes → Option (Bytes × Bytes) → Result DenyReason Destination
unfolding parse_port_of is_address starts_with_bracket
parse_parts raw none = err malformed_authority
parse_parts raw (some (host, port_text)) =
    if starts_with_bracket raw
    then (if is_address (parse_addr host) then err ip_literal else err malformed_authority)
    else parse_port_of host (parse_port port_text)

unfoldable pub parse_authority : Bytes → Result DenyReason Destination
unfolding parse_parts is_address
parse_authority raw =
    if equal raw []
    then err malformed_authority
    else if not (equal (trim_space raw) raw)
    then err malformed_authority
    else if is_address (parse_addr (trim is_bracket raw))
    then err ip_literal
    else parse_parts raw (split_host_port raw)

-- `IsZero`
unfoldable pub is_zero : Destination → Bool
unfolding equal
is_zero d = equal d.host []

emit_decimal : ℕ → ℕ → Bytes → Bytes
emit_decimal zero n out = out
emit_decimal (suc fuel) n out =
    let digits = (b'0' + n % 10) ∷ out in
    let rest = emit_decimal fuel (n / 10) digits in if ltb n 10 then digits else rest

-- `strconv.Itoa` of a uint16: five digits are enough.
unfoldable pub itoa16 : ℕ → Bytes
unfolding emit_decimal
itoa16 n = emit_decimal 5 n []

unfoldable pub authority : Destination → Bytes
unfolding is_zero itoa16
authority d = if is_zero d then [] else d.host ++ b':' ∷ itoa16 d.port

-- `DenyReasonOf` on nil, on an `InvalidDestinationError`, and on any other error.
pub data AnyError : Type 0 where
  no_error other_error : AnyError
  invalid_destination : DenyReason → AnyError

unfoldable pub deny_reason_of : AnyError → DenyReason
deny_reason_of no_error = deny_none
deny_reason_of other_error = malformed_authority
deny_reason_of (invalid_destination deny_none) = malformed_authority
deny_reason_of (invalid_destination r) = r
