-- ===== src/Policy/Hostname.antt =====
-- internal/policy/allowlist.go: `canonicalHostname` and `validateLabel`. An error's prose is left
-- out; its `DenyReason` is kept.
pub mod Lowering
pub mod Canonical
pub mod Kelvin
use dproxy.Base.{
  ℕ, Bool, true, false, ◌||◌, Option, none, some, [], ◌∷◌, ltb, ◌==◌, within, if◌then◌else◌, Result,
  ok, err, length, all,
}
use dproxy.Base.Text.{Bytes, contains, split, trim_suffix, trim, to_lower}
use dproxy.Net.Addr.{Addr}
use dproxy.Net.ParseAddr.{parse_addr}
use dproxy.Policy.Decision.{DenyReason, malformed_authority, ip_literal}

-- `maxHostnameLength`
abbrev pub max_hostname_length : ℕ
max_hostname_length = 253

-- The bytes that the loop of `validateLabel` accepts.
unfoldable pub is_label_byte : ℕ → Bool
is_label_byte c = within b'a' b'z' c || (within b'0' b'9' c || (c == b'-' || c == b'_'))

unfoldable pub ends_with_hyphen : Bytes → Bool
ends_with_hyphen [] = false
ends_with_hyphen (c ∷ []) = c == b'-'
ends_with_hyphen (c ∷ d ∷ s) = ends_with_hyphen (d ∷ s)

-- `true` where the source returns nil.
unfoldable pub validate_label : Bytes → Bool
unfolding ends_with_hyphen
validate_label [] = false
validate_label (c ∷ s) =
    if ltb 63 (length (c ∷ s))
    then false
    else if c == b'-' || ends_with_hyphen (c ∷ s)
    then false
    else all is_label_byte (c ∷ s)

abbrev pub is_bracket : ℕ → Bool
is_bracket c = c == b'[' || c == b']'

-- The label loop of `canonicalHostname`, on the lower-cased name.
unfoldable pub check_labels : Bytes → Result DenyReason Bytes
unfolding validate_label
check_labels lowered =
    if all validate_label (split b'.' lowered) then ok lowered else err malformed_authority

is_some : Option Addr → Bool
is_some none = false
is_some (some a) = true

unfoldable pub canonical_host : Bytes → Result DenyReason Bytes
unfolding check_labels is_some
canonical_host [] = err malformed_authority
canonical_host (c ∷ s) =
    if ltb max_hostname_length (length (c ∷ s))
    then err malformed_authority
    else if contains (c ∷ s) b'*'
    then err malformed_authority
    else if is_some (parse_addr (trim is_bracket (c ∷ s)))
    then err ip_literal
    else check_labels (to_lower (c ∷ s))

unfoldable pub canonical_hostname : Bytes → Result DenyReason Bytes
unfolding canonical_host
canonical_hostname raw = canonical_host (trim_suffix b'.' raw)
