-- ===== src/Policy/Hostname/Canonical.antt =====
-- The names that `canonicalHostname` returns.
use dproxy.Base.{◌≤◌, ◌≡◌, refl, ◌≢◌, true, false, none, [], ◌∷◌, arith, ok, length, all}
use dproxy.Base.Text.{Bytes, split, trim_suffix, trim, to_lower}
use dproxy.Net.ParseAddr.{parse_addr}
use dproxy.Base.Predicates.{
  all_weaken, trim-all, contains-all, not_empty, trim_suffix-split, all-split,
}
use dproxy.Policy.Hostname.{
  max_hostname_length, is_label_byte, validate_label, is_bracket, canonical_host,
  canonical_hostname,
}
use dproxy.Policy.Hostname.Lowering.{
  is_host_byte, to_lower-host, length-to_lower, host_not_bracket, parse_addr-to_lower,
}

-- A canonical hostname.
pub record IsHostname (h : Bytes) : Type 0 where
  pub not_nil : h ≢ []
  pub fits : length h ≤ max_hostname_length
  pub labels_valid : all validate_label (split b'.' h) ≡ true
  pub not_address : parse_addr h ≡ none

label_bytes : (l : Bytes) → validate_label l ≡ true → all is_label_byte l ≡ true
unfolding validate_label
label_bytes [] h = cc
label_bytes (c ∷ s) h = ground arith

pub label-not_empty : (l : Bytes) → validate_label l ≡ true → not_empty l ≡ true
unfolding validate_label
label-not_empty [] h = cc
label-not_empty (c ∷ s) h = refl

pub host_bytes : (h : Bytes) → all validate_label (split b'.' h) ≡ true → all is_host_byte h ≡ true
unfolding is_label_byte
host_bytes h v =
    all-split is_label_byte b'.' h
      (all_weaken validate_label (all is_label_byte) label_bytes (split b'.' h) v)

host_not_star : is_host_byte b'*' ≡ false
unfolding is_label_byte
host_not_star = refl

-- The parts of a successful check.
canonical_host-ok :
    (host : Bytes) {h : Bytes}
    → canonical_host host ≡ ok h
    → (host ≢ [])
      × (length host ≤ max_hostname_length)
      × (parse_addr (trim is_bracket host) ≡ none)
      × (all validate_label (split b'.' (to_lower host)) ≡ true)
      × (h ≡ to_lower host)
unfolding canonical_host
canonical_host-ok [] e = cc
canonical_host-ok (c ∷ s) e = ground arith

to_lower-ne_nil :
    (s : Bytes) → all validate_label (split b'.' (to_lower s)) ≡ true → to_lower s ≢ []
unfolding split validate_label
to_lower-ne_nil s v e = cc (rw (e, split) at v)

canonical_host-IsHostname : (host : Bytes) {h : Bytes} → canonical_host host ≡ ok h → IsHostname h
canonical_host-IsHostname host e =
    let (ne, fits, no_address, labels, same) = canonical_host-ok host e in
    rw same (record {
      not_nil = to_lower-ne_nil host labels;
      fits = omega (arith, length-to_lower host);
      labels_valid = labels;
      not_address = parse_addr-to_lower host (host_bytes (to_lower host) labels) no_address;
    })

-- A canonical hostname is not empty, has at most 253 bytes, consists of valid labels only, and
-- does not read as an IP address.
pub canonical_hostname-IsHostname :
    (raw : Bytes) {h : Bytes} → canonical_hostname raw ≡ ok h → IsHostname h
unfolding canonical_hostname
canonical_hostname-IsHostname raw = canonical_host-IsHostname (trim_suffix b'.' raw)

canonical_host_self : (h : Bytes) → IsHostname h → canonical_host h ≡ ok h
unfolding canonical_host
canonical_host_self [] v = absurd (v.not_nil refl)
canonical_host_self (c ∷ s) v =
    let bytes = host_bytes (c ∷ s) v.labels_valid in
    ground (
      arith,
      to_lower-host (c ∷ s) bytes,
      contains-all is_host_byte b'*' host_not_star (c ∷ s) bytes,
      trim-all is_host_byte is_bracket host_not_bracket (c ∷ s) bytes,
    )

-- A canonical hostname is its own canonical form.
pub canonical_hostname_self : (h : Bytes) → IsHostname h → canonical_hostname h ≡ ok h
unfolding canonical_hostname
canonical_hostname_self h v =
    rw
      (trim_suffix-split b'.' h
        (all_weaken validate_label not_empty label-not_empty (split b'.' h) v.labels_valid))
      (canonical_host_self h v)

-- Canonicalization is idempotent: what it returns is returned again unchanged.
pub canonical_hostname_idem :
    (raw : Bytes) {h : Bytes} → canonical_hostname raw ≡ ok h → canonical_hostname h ≡ ok h
canonical_hostname_idem raw {h} e = canonical_hostname_self h (canonical_hostname-IsHostname raw e)
