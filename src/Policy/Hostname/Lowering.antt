-- ===== src/Policy/Hostname/Lowering.antt =====
-- What lower-casing does to the bytes of a hostname and to the text of an address.
use dproxy.Base.{
  ℕ, ◌+◌, ◌-◌, ◌*◌, ◌≤◌, ◌≡◌, refl, sym, ap, ◌∙◌, ◌⊎◌, inl, inr, Bool, true, false, ◌&&◌, ◌||◌,
  none, some, [], ◌∷◌, arith, ◌==◌, within, Bool-cases, Option-cases, and_true, length, all,
}
use dproxy.Base.Text.{Bytes, trim, to_lower}
use dproxy.Net.ParseAddr.{parse_addr, parse_as, parse_ipv4, ipv4_fields, is_digit}
use dproxy.Base.Predicates.{trim-all}
use dproxy.Policy.Hostname.{is_label_byte, is_bracket}

abbrev pub is_host_byte : ℕ → Bool
unfolding is_label_byte
is_host_byte c = is_label_byte c || c == b'.'

abbrev pub is_ipv4_byte : ℕ → Bool
is_ipv4_byte c = is_digit c || c == b'.'

-- The tests of `strings.ToLower` fail at a byte that is no upper-case letter and no lead byte.
abbrev pub IsPlain : ℕ → Type 0
IsPlain c = (within b'A' b'Z' c ≡ false) × ((c == 0xc4) ≡ false) × ((c == 0xe2) ≡ false)

pub host-IsPlain : (c : ℕ) → is_host_byte c ≡ true → IsPlain c
unfolding is_label_byte
host-IsPlain c h = ground arith

pub to_lower-cons : (c : ℕ) (s : Bytes) → IsPlain c → to_lower (c ∷ s) ≡ c ∷ to_lower s
unfolding to_lower
to_lower-cons c [] (u, v, w) = rw u
to_lower-cons c (d ∷ []) (u, v, w) = rw (u, v)
to_lower-cons c (d ∷ e ∷ s) (u, v, w) = rw (u, v, w)

pub to_lower-host : (s : Bytes) → all is_host_byte s ≡ true → to_lower s ≡ s
to_lower-host [] h = unfold to_lower in refl
to_lower-host (c ∷ s) h =
    let (here, rest) = and_true _ _ h in
    to_lower-cons c s (host-IsPlain c here) ∙ ap (◌∷◌ c) (to_lower-host s rest)

pub length-to_lower : (s : Bytes) → length (to_lower s) ≤ length s
unfolding to_lower
length-to_lower [] = omega arith
length-to_lower (c ∷ []) = ground arith
length-to_lower (c ∷ d ∷ []) = ground (arith, length-to_lower (d ∷ []))
length-to_lower (c ∷ d ∷ e ∷ s) =
    ground (arith, length-to_lower (d ∷ e ∷ s), length-to_lower (e ∷ s), length-to_lower s)

upper_not_ipv4 : (c : ℕ) → within b'A' b'Z' c ≡ true → is_ipv4_byte (c + 32) ≡ false
upper_not_ipv4 c h = ground arith

ipv4-IsPlain : (c : ℕ) → is_ipv4_byte c ≡ true → IsPlain c
ipv4-IsPlain c h = ground arith

head_ipv4 : (c : ℕ) (s : Bytes) → all is_ipv4_byte (c ∷ s) ≡ true → is_ipv4_byte c ≡ true
head_ipv4 c s h = (and_true (is_ipv4_byte c) (all is_ipv4_byte s) h).0

upper_absurd :
    (c : ℕ) (s : Bytes) → within b'A' b'Z' c ≡ true → all is_ipv4_byte ((c + 32) ∷ s) ≡ true → ⊥
upper_absurd c s u h = cc (upper_not_ipv4 c u, head_ipv4 (c + 32) s h)

-- The first byte of a lower-cased text is a digit or a dot only if it stood there before.
head-IsPlain : (c : ℕ) (s : Bytes) → all is_ipv4_byte (to_lower (c ∷ s)) ≡ true → IsPlain c
unfolding to_lower
head-IsPlain c [] h = elim (Bool-cases (within b'A' b'Z' c)) [
  | inl u ↦ absurd (upper_absurd c [] u (rw u at h))
  | inr u ↦ ipv4-IsPlain c (head_ipv4 c [] (rw u at h))
]
head-IsPlain c (d ∷ []) h =
    let rest = to_lower (d ∷ []) in
    elim (Bool-cases (within b'A' b'Z' c)) [
      | inl u ↦ absurd (upper_absurd c rest u (rw u at h))
      | inr u ↦ elim (Bool-cases (c == 0xc4 && d == 0xb0)) [
        | inl two ↦ cc (head_ipv4 b'i' [] (rw (u, two) at h))
        | inr two ↦ ipv4-IsPlain c (head_ipv4 c rest (rw (u, two) at h))
      ]
    ]
head-IsPlain c (d ∷ e ∷ s) h =
    let rest = to_lower (d ∷ e ∷ s) in
    elim (Bool-cases (within b'A' b'Z' c)) [
      | inl u ↦ absurd (upper_absurd c rest u (rw u at h))
      | inr u ↦ elim (Bool-cases (c == 0xc4 && d == 0xb0)) [
        | inl two ↦ cc (head_ipv4 b'i' (to_lower (e ∷ s)) (rw (u, two) at h))
        | inr two ↦ elim (Bool-cases (c == 0xe2 && (d == 0x84 && e == 0xaa))) [
          | inl three ↦ cc (head_ipv4 b'k' (to_lower s) (rw (u, two, three) at h))
          | inr three ↦ ipv4-IsPlain c (head_ipv4 c rest (rw (u, two, three) at h))
        ]
      ]
    ]

to_lower-ipv4 : (s : Bytes) → all is_ipv4_byte (to_lower s) ≡ true → to_lower s ≡ s
to_lower-ipv4 [] h = unfold to_lower in refl
to_lower-ipv4 (c ∷ s) h =
    let step = to_lower-cons c s (head-IsPlain c s h) in
    step ∙ ap (◌∷◌ c) (to_lower-ipv4 s (and_true (is_ipv4_byte c) _ (rw step at h)).1)

pub ipv4_fields-bytes :
    (s : Bytes) (val digits pos acc n : ℕ)
    → ipv4_fields s val digits pos acc ≡ some n
    → all is_ipv4_byte s ≡ true
unfolding ipv4_fields
ipv4_fields-bytes [] val digits pos acc n h = refl
ipv4_fields-bytes (c ∷ s) val digits pos acc n h = ground (
  arith,
  ipv4_fields-bytes s (val * 10 + (c - b'0')) (digits + 1) pos acc n,
  ipv4_fields-bytes s 0 0 (pos + 1) (acc * 256 + val) n,
)

-- Among host bytes there is neither ':' nor '%', so only an IPv4 address can be read.
parse_as-host :
    (whole s : Bytes)
    → all is_host_byte s ≡ true
    → (parse_as whole s ≡ none) ⊎ ((n : ℕ) × (parse_ipv4 whole ≡ some n))
unfolding parse_as is_label_byte
parse_as-host whole [] h = inl refl
parse_as-host whole (c ∷ s) h = elim (Bool-cases (c == b'.')) [
  | inl e ↦ elim (Option-cases (parse_ipv4 whole)) [
    | inl n ↦ inl (ground arith)
    | inr (n, m) ↦ inr (n, m)
  ]
  | inr e ↦ elim (parse_as-host whole s (ground arith)) [
    | inl p ↦ inl (ground arith)
    | inr q ↦ inr q
  ]
]

pub host_not_bracket : (c : ℕ) → is_host_byte c ≡ true → is_bracket c ≡ false
unfolding is_label_byte
host_not_bracket c p = ground arith

pub parse_addr-to_lower :
    (host : Bytes)
    → all is_host_byte (to_lower host) ≡ true
    → parse_addr (trim is_bracket host) ≡ none
    → parse_addr (to_lower host) ≡ none
unfolding parse_addr parse_ipv4
parse_addr-to_lower host h none_raw = elim (parse_as-host (to_lower host) (to_lower host) h) [
  | inl p ↦ p
  | inr (n, q) ↦
      let same = to_lower-ipv4 host (ipv4_fields-bytes (to_lower host) 0 0 0 0 n q) in
      let trimmed = trim-all is_host_byte is_bracket host_not_bracket host (rw same at h) in
      ap parse_addr (same ∙ sym trimmed) ∙ none_raw
]
