-- ===== src/Net/ParseAddr/Port.antt =====
-- `netip.ParseAddr` on a name with a port behind it.
use dproxy.Base.{
  ℕ, zero, suc, ◌+◌, ◌-◌, ◌*◌, ◌≡◌, refl, ◌≢◌, ◌⊎◌, inl, inr, Bool, true, not, ◌&&◌, none, some, [],
  ◌∷◌, ◌++◌, arith, ltb, ◌==◌, Bool-cases, Option-cases, and_true, all,
}
use dproxy.Base.Text.{Bytes, codes, cut}
use dproxy.Net.ParseAddr.{
  ipv4_fields, parse_ipv4, hex_value, hex_group, ipv6_tail, next_of, ipv6_loop, ipv6_groups,
  parse_ipv6, parse_as, parse_addr,
}

-- Neither the colon nor the mark of a zone.
abbrev pub is_plain : ℕ → Bool
is_plain c = not (c == b':') && not (c == b'%')

abbrev suffix : Bytes
suffix = b':' ∷ b'4' ∷ b'4' ∷ b'3' ∷ []

ipv4_fields-colon :
    (h t : Bytes) (val digits pos acc : ℕ) → ipv4_fields (h ++ b':' ∷ t) val digits pos acc ≡ none
unfolding ipv4_fields
ipv4_fields-colon [] t val digits pos acc = refl
ipv4_fields-colon (c ∷ h) t val digits pos acc = ground (
  arith,
  ipv4_fields-colon h t (val * 10 + (c - b'0')) (digits + 1) pos acc,
  ipv4_fields-colon h t 0 0 (pos + 1) (acc * 256 + val),
)

-- The digits of a group stop at the colon or before it.
hex_group-colon :
    (h : Bytes) (off acc : ℕ)
    → all is_plain h ≡ true
    → (hex_group (h ++ suffix) off acc ≡ none)
      ⊎ ((o a : ℕ) × (r : Bytes) × (hex_group (h ++ suffix) off acc ≡ some (o, a, r ++ suffix))
          × (all is_plain r ≡ true))
unfolding hex_group hex_value
hex_group-colon [] off acc p = inr (off, acc, [], refl, refl)
hex_group-colon (c ∷ h) off acc p = elim (Option-cases (hex_value c)) [
  | inl e ↦ inr (off, acc, c ∷ h, rw (e, hex_group), p)
  | inr (d, e) ↦ elim (Bool-cases (ltb 3 off)) [
    | inl f ↦ inl (rw (e, hex_group) (rw f))
    | inr f ↦ elim (hex_group-colon h (off + 1) (acc * 16 + d) (and_true (is_plain c) _ p).1) [
      | inl g ↦ inl (rw (e, hex_group) (rw f g))
      | inr (o, a, r, g, q) ↦ inr (o, a, r, rw (e, hex_group) (rw f g), q)
    ]
  ]
]

next_of-plain :
    (c : ℕ) (r : Bytes) → is_plain c ≡ true → next_of (c ∷ (r ++ suffix)) ≡ next_of (b'x' ∷ [])
unfolding next_of
next_of-plain c [] p = ground arith
next_of-plain c (d ∷ r) p = ground arith

ipv6_tail-colon : (h : Bytes) (left : ℕ) → ipv6_tail left (h ++ suffix) [] none ≡ none
unfolding ipv6_tail parse_ipv4
ipv6_tail-colon h left = rw (ipv4_fields-colon h (b'4' ∷ b'4' ∷ b'3' ∷ []) 0 0 0 0, ipv6_tail)

ipv6_loop-colon : (h : Bytes) → all is_plain h ≡ true → ipv6_loop 8 (h ++ suffix) [] none ≡ none
unfolding ipv6_loop
ipv6_loop-colon h p = elim (hex_group-colon h 0 0 p) [
  | inl e ↦ rw (e, ipv6_loop)
  | inr (zero, a, r, e, q) ↦ rw (e, ipv6_loop)
  | inr (suc o, a, [], e, q) ↦ rw (e, ipv6_loop)
  | inr (suc o, a, c ∷ r, e, q) ↦ elim (Bool-cases (c == b'.')) [
    | inl f ↦ rw (e, ipv6_loop) (rw f (ipv6_tail-colon h 8))
    | inr f ↦ rw (e, ipv6_loop) (rw (f, next_of-plain c r (and_true (is_plain c) _ q).0))
  ]
]

ipv6_groups-colon : (h : Bytes) → h ≢ [] → all is_plain h ≡ true → ipv6_groups (h ++ suffix) ≡ none
unfolding ipv6_groups
ipv6_groups-colon [] ne p = absurd (ne refl)
ipv6_groups-colon (c ∷ []) ne p = ground (arith, ipv6_loop-colon (c ∷ []) p)
ipv6_groups-colon (c ∷ d ∷ h) ne p = ground (arith, ipv6_loop-colon (c ∷ d ∷ h) p)

cut-percent : (h : Bytes) → all is_plain h ≡ true → cut b'%' (h ++ suffix) ≡ none
unfolding cut
cut-percent [] p = refl
cut-percent (c ∷ h) p = ground (arith, cut-percent h)

parse_ipv6-colon : (h : Bytes) → h ≢ [] → all is_plain h ≡ true → parse_ipv6 (h ++ suffix) ≡ none
unfolding parse_ipv6
parse_ipv6-colon h ne p = rw (cut-percent h p, parse_ipv6) (rw (ipv6_groups-colon h ne p))

parse_as-colon :
    (whole h : Bytes)
    → parse_ipv4 whole ≡ none
    → parse_ipv6 whole ≡ none
    → all is_plain h ≡ true
    → parse_as whole (h ++ suffix) ≡ none
unfolding parse_as
parse_as-colon whole [] four six p = ground arith
parse_as-colon whole (c ∷ h) four six p = ground (arith, parse_as-colon whole h four six)

-- A name with ":443" behind it is read as no address.
pub parse_addr-port :
    (h : Bytes) → h ≢ [] → all is_plain h ≡ true → parse_addr (h ++ codes ":443") ≡ none
unfolding parse_addr parse_ipv4
parse_addr-port h ne p =
    parse_as-colon (h ++ suffix) h (ipv4_fields-colon h (b'4' ∷ b'4' ∷ b'3' ∷ []) 0 0 0 0)
      (parse_ipv6-colon h ne p) p
