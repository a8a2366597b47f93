-- ===== src/Policy/Allowlist/Parsing.antt =====
-- `ParseHostPattern` and `String` of a pattern.
use dproxy.Base.{
  ℕ, ◌≡◌, refl, ap, inl, inr, true, [], ◌∷◌, arith, and_true, ok, err, Result-cases, all,
}
use dproxy.Base.Text.{Bytes, contains}
use dproxy.Base.Space.{trim_space}
use dproxy.Base.Predicates.{all_weaken}
use dproxy.Policy.Decision.{DenyReason}
use dproxy.Policy.Hostname.{canonical_hostname, is_label_byte}
use dproxy.Base.Graphic.{is_graphic, trim_space-graphic}
use dproxy.Policy.Hostname.Canonical.{
  IsHostname, host_bytes, canonical_hostname-IsHostname, canonical_hostname_self,
}
use dproxy.Policy.Hostname.Lowering.{is_host_byte}
use dproxy.Policy.Destination.RoundTrip.{host-graphic}
use dproxy.Policy.Allowlist.{
  PatternKind, exact, wildcard, HostPattern, pattern_string, invalid_pattern, cut_star,
  needs_two_labels, finish_pattern, parse_trimmed, parse_host_pattern,
}

-- A pattern that only `ParseHostPattern` can build.
pub record IsPattern (p : HostPattern) : Type 0 where
  pub name : IsHostname p.host
  pub two_labels : p.kind ≡ wildcard → contains p.host b'.' ≡ true

finish_pattern-ok :
    (trimmed : Bytes) (kind : PatternKind) (h : Bytes) {p : HostPattern}
    → finish_pattern trimmed kind (ok h) ≡ ok p
    → (p ≡ record { kind = kind; host = h }) × (kind ≡ wildcard → contains h b'.' ≡ true)
unfolding finish_pattern needs_two_labels
finish_pattern-ok trimmed exact h e = ground arith
finish_pattern-ok trimmed wildcard h e = ground arith

finish_pattern-err :
    (trimmed : Bytes) (kind : PatternKind) (r : DenyReason)
    → finish_pattern trimmed kind (err r) ≡ err (invalid_pattern trimmed)
unfolding finish_pattern
finish_pattern-err trimmed kind r = refl

finish_pattern-IsPattern :
    (trimmed raw : Bytes) (kind : PatternKind) {p : HostPattern}
    → finish_pattern trimmed kind (canonical_hostname raw) ≡ ok p
    → IsPattern p
finish_pattern-IsPattern trimmed raw kind e = elim (Result-cases (canonical_hostname raw)) [
  | inl (h, c) ↦
      let (same, labels) = finish_pattern-ok trimmed kind h (rw c at e) in
      rw same (record { name = canonical_hostname-IsHostname raw c; two_labels = labels })
  | inr (r, c) ↦ cc (finish_pattern-err trimmed kind r, ap (finish_pattern trimmed kind) c)
]

-- An accepted allowlist entry gives a canonical name, and a wildcard has two labels or more.
pub parse_host_pattern-IsPattern :
    (raw : Bytes) {p : HostPattern} → parse_host_pattern raw ≡ ok p → IsPattern p
unfolding parse_host_pattern
parse_host_pattern-IsPattern raw = go (trim_space raw)
  where
    go : (s : Bytes) {p : HostPattern} → parse_trimmed s ≡ ok p → IsPattern p
    go [] e = cc
    go (c ∷ s) e = finish_pattern-IsPattern (c ∷ s) (cut_star (c ∷ s)).1 (cut_star (c ∷ s)).0 e

cut_star-host : (c : ℕ) (s : Bytes) → is_host_byte c ≡ true → cut_star (c ∷ s) ≡ (exact, c ∷ s)
unfolding cut_star is_label_byte
cut_star-host c [] h = refl
cut_star-host c (d ∷ s) h = ground arith

parse_exact : (h : Bytes) → IsHostname h → parse_trimmed h ≡ ok (record { kind = exact; host = h })
unfolding parse_trimmed finish_pattern needs_two_labels
parse_exact [] v = absurd (v.not_nil refl)
parse_exact (c ∷ s) v =
    let bytes = host_bytes (c ∷ s) v.labels_valid in
    rw (cut_star-host c s (and_true _ _ bytes).0, canonical_hostname_self (c ∷ s) v)

parse_wildcard :
    (h : Bytes)
    → IsHostname h
    → contains h b'.' ≡ true
    → parse_trimmed (b'*' ∷ b'.' ∷ h) ≡ ok (record { kind = wildcard; host = h })
unfolding parse_trimmed finish_pattern needs_two_labels cut_star
parse_wildcard h v labels = rw (canonical_hostname_self h v, labels)

graphic : (h : Bytes) → IsHostname h → all is_graphic h ≡ true
graphic h v = all_weaken is_host_byte is_graphic host-graphic h (host_bytes h v.labels_valid)

round_trip :
    (kind : PatternKind) (h : Bytes)
    → IsPattern (record { kind = kind; host = h })
    → parse_host_pattern (pattern_string (record { kind = kind; host = h }))
      ≡ ok (record { kind = kind; host = h })
unfolding parse_host_pattern pattern_string
round_trip exact h v = rw (trim_space-graphic h (graphic h v.name)) (parse_exact h v.name)
round_trip wildcard h v =
    rw (trim_space-graphic (b'*' ∷ b'.' ∷ h) (graphic h v.name))
      (parse_wildcard h v.name (v.two_labels refl))

-- The text of a pattern is parsed back into the pattern.
pub parse_host_pattern-pattern_string :
    (p : HostPattern) → IsPattern p → parse_host_pattern (pattern_string p) ≡ ok p
parse_host_pattern-pattern_string p v = round_trip p.kind p.host v
