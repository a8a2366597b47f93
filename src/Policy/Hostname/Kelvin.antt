-- ===== src/Policy/Hostname/Kelvin.antt =====
-- `canonicalHostname` on a name that holds the Kelvin sign.
use dproxy.Base.{
  ℕ, ◌≤◌, ◌≡◌, refl, ap, ◌∙◌, ◌≢◌, inl, inr, Bool, true, false, not, ◌&&◌, ◌||◌, none, [], ◌∷◌,
  ◌++◌, arith, ◌==◌, Option-cases, and_true, ok, length, all, length-append,
}
use dproxy.Base.Text.{Bytes, contains, split, trim_suffix, trim, to_lower}
use dproxy.Net.ParseAddr.{parse_addr, parse_as, parse_ipv4}
use dproxy.Base.Predicates.{all_weaken, all-append, trim-all, contains-all, trim_suffix-split}
use dproxy.Policy.Hostname.{
  is_bracket, check_labels, canonical_host, canonical_hostname, validate_label, is_label_byte,
}
use dproxy.Policy.Hostname.Canonical.{IsHostname, host_bytes, label-not_empty}
use dproxy.Policy.Hostname.Lowering.{
  is_host_byte, is_ipv4_byte, ipv4_fields-bytes, host-IsPlain, to_lower-cons, to_lower-host,
}

-- U+212A in UTF-8.
abbrev pub kelvin : Bytes
kelvin = 0xe2 ∷ 0x84 ∷ 0xaa ∷ []

-- The bytes of a hostname and of the sign.
abbrev is_kelvin_byte : ℕ → Bool
is_kelvin_byte c = is_host_byte c || (c == 0xe2 || (c == 0x84 || c == 0xaa))

abbrev is_unmarked : ℕ → Bool
is_unmarked c = not (c == b':') && not (c == b'%')

host-kelvin : (c : ℕ) → is_host_byte c ≡ true → is_kelvin_byte c ≡ true
host-kelvin c h = rw h

kelvin-unmarked : (c : ℕ) → is_kelvin_byte c ≡ true → is_unmarked c ≡ true
unfolding is_label_byte
kelvin-unmarked c h = ground arith

kelvin-unbracketed : (c : ℕ) → is_kelvin_byte c ≡ true → is_bracket c ≡ false
unfolding is_label_byte
kelvin-unbracketed c h = ground arith

kelvin-unstarred : is_kelvin_byte b'*' ≡ false
unfolding is_label_byte
kelvin-unstarred = refl

parse_as-unmarked :
    (whole s : Bytes) → parse_ipv4 whole ≡ none → all is_unmarked s ≡ true → parse_as whole s ≡ none
unfolding parse_as
parse_as-unmarked whole [] four h = refl
parse_as-unmarked whole (c ∷ s) four h = ground (arith, parse_as-unmarked whole s four)

-- No dotted quad holds the sign.
parse_ipv4-kelvin : (p s : Bytes) → parse_ipv4 (p ++ (kelvin ++ s)) ≡ none
unfolding parse_ipv4
parse_ipv4-kelvin p s = elim (Option-cases (parse_ipv4 (p ++ (kelvin ++ s)))) [
  | inl n ↦ n
  | inr (n, e) ↦
      let bytes = ipv4_fields-bytes (p ++ (kelvin ++ s)) 0 0 0 0 n e in
      cc (
        (and_true (all is_ipv4_byte p) false
          (rw (all-append is_ipv4_byte p (kelvin ++ s)) at bytes)).1)
]

to_lower-append : (p t : Bytes) → all is_host_byte p ≡ true → to_lower (p ++ t) ≡ p ++ to_lower t
to_lower-append [] t h = refl
to_lower-append (c ∷ p) t h =
    let (here, later) = and_true (is_host_byte c) (all is_host_byte p) h in
    to_lower-cons c (p ++ t) (host-IsPlain c here) ∙ ap (◌∷◌ c) (to_lower-append p t later)

to_lower-kelvin : (s : Bytes) → to_lower (kelvin ++ s) ≡ b'k' ∷ to_lower s
unfolding to_lower
to_lower-kelvin s = refl

-- What is trimmed at the end of a text does not depend on what stands before it.
trim_suffix-tail :
    (b c : ℕ) (p s : Bytes)
    → trim_suffix b (p ++ c ∷ s) ≡ p ++ c ∷ s
    → trim_suffix b (c ∷ s) ≡ c ∷ s
unfolding trim_suffix
trim_suffix-tail b c [] s h = h
trim_suffix-tail b c (x ∷ []) s h = cc
trim_suffix-tail b c (x ∷ y ∷ p) s h = trim_suffix-tail b c (y ∷ p) s (cc)

trim_suffix-append :
    (b c : ℕ) (p s : Bytes)
    → trim_suffix b (c ∷ s) ≡ c ∷ s
    → trim_suffix b (p ++ c ∷ s) ≡ p ++ c ∷ s
unfolding trim_suffix
trim_suffix-append b c [] s h = h
trim_suffix-append b c (x ∷ []) s h = ap (◌∷◌ x) h
trim_suffix-append b c (x ∷ y ∷ p) s h = ap (◌∷◌ x) (trim_suffix-append b c (y ∷ p) s h)

-- The first byte does not matter to what is trimmed, if it is no dot.
trim_suffix-swap :
    (c d : ℕ) (s : Bytes)
    → (d == b'.') ≡ false
    → trim_suffix b'.' (c ∷ s) ≡ c ∷ s
    → trim_suffix b'.' (d ∷ s) ≡ d ∷ s
unfolding trim_suffix
trim_suffix-swap c d [] n h = rw n
trim_suffix-swap c d (e ∷ s) n h = cc

trim_suffix-kelvin :
    (s : Bytes)
    → trim_suffix b'.' (b'k' ∷ s) ≡ b'k' ∷ s
    → trim_suffix b'.' (kelvin ++ s) ≡ kelvin ++ s
unfolding trim_suffix
trim_suffix-kelvin s h = ap (λ r. 0xe2 ∷ 0x84 ∷ r) (trim_suffix-swap b'k' 0xaa s refl h)

-- The tests of `canonicalHostname` on a text that passes them.
canonical_host_accepts :
    (t : Bytes)
    → t ≢ []
    → length t ≤ 253
    → contains t b'*' ≡ false
    → parse_addr (trim is_bracket t) ≡ none
    → all validate_label (split b'.' (to_lower t)) ≡ true
    → canonical_host t ≡ ok (to_lower t)
unfolding canonical_host check_labels
canonical_host_accepts [] n fits stars address labels = absurd (n refl)
canonical_host_accepts (c ∷ t) n fits stars address labels = ground arith

module _ (p s : Bytes) (v : IsHostname (p ++ b'k' ∷ s)) where
  parts : (all is_host_byte p ≡ true) × (all is_host_byte s ≡ true)
  unfolding is_label_byte
  parts =
      let (front, back) = and_true (all is_host_byte p) (all is_host_byte (b'k' ∷ s)) (
        rw (all-append is_host_byte p (b'k' ∷ s)) at (host_bytes (p ++ b'k' ∷ s) v.labels_valid)) in
      (front, back)

  bytes : all is_kelvin_byte (p ++ (kelvin ++ s)) ≡ true
  unfolding is_label_byte
  bytes =
      let (front, back) = parts in
      rw
        (
          all-append is_kelvin_byte p (kelvin ++ s),
          all_weaken is_host_byte is_kelvin_byte host-kelvin p front,
        )
        (all_weaken is_host_byte is_kelvin_byte host-kelvin s back)

  not_address : parse_addr (trim is_bracket (p ++ (kelvin ++ s))) ≡ none
  unfolding parse_addr
  not_address =
      rw (trim-all is_kelvin_byte is_bracket kelvin-unbracketed (p ++ (kelvin ++ s)) bytes) (
        parse_as-unmarked (p ++ (kelvin ++ s)) (p ++ (kelvin ++ s)) (parse_ipv4-kelvin p s)
          (all_weaken is_kelvin_byte is_unmarked kelvin-unmarked (p ++ (kelvin ++ s)) bytes))

  lowered : to_lower (p ++ (kelvin ++ s)) ≡ p ++ b'k' ∷ s
  lowered =
      to_lower-append p (kelvin ++ s) parts.0
      ∙ ap (◌++◌ p) (to_lower-kelvin s ∙ ap (◌∷◌ b'k') (to_lower-host s parts.1))

  untrimmed : trim_suffix b'.' (p ++ (kelvin ++ s)) ≡ p ++ (kelvin ++ s)
  untrimmed =
      let whole =
        trim_suffix-split b'.' (p ++ b'k' ∷ s) (
          all_weaken validate_label _ label-not_empty (split b'.' (p ++ b'k' ∷ s))
            v.labels_valid) in
      trim_suffix-append b'.' 0xe2 p (0x84 ∷ 0xaa ∷ s)
        (trim_suffix-kelvin s (trim_suffix-tail b'.' b'k' p s whole))

append-ne_nil : (p : Bytes) (c : ℕ) (s : Bytes) → p ++ c ∷ s ≢ []
append-ne_nil [] c s e = cc
append-ne_nil (x ∷ p) c s e = cc

-- Put the Kelvin sign in place of any "k" of a canonical hostname that has two bytes to spare: the
-- result is no ASCII text, and yet it is accepted and canonicalized into the hostname.
pub canonical_hostname-kelvin :
    (p s : Bytes)
    → IsHostname (p ++ b'k' ∷ s)
    → length (p ++ b'k' ∷ s) ≤ 251
    → canonical_hostname (p ++ (kelvin ++ s)) ≡ ok (p ++ b'k' ∷ s)
unfolding canonical_hostname
canonical_hostname-kelvin p s v room = rw (untrimmed p s v) (
    canonical_host_accepts (p ++ (kelvin ++ s)) (append-ne_nil p 0xe2 (0x84 ∷ 0xaa ∷ s))
      (omega (arith, length-append p (kelvin ++ s), length-append p (b'k' ∷ s)))
      (contains-all is_kelvin_byte b'*' kelvin-unstarred (p ++ (kelvin ++ s)) (bytes p s v))
      (not_address p s v) (rw (lowered p s v) v.labels_valid)
    ∙ ap ok (lowered p s v))
