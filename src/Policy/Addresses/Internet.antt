-- ===== src/Policy/Addresses/Internet.antt =====
-- `ClassifyAddress` and `CheckAddresses` against the list of special address blocks.
use dproxy.Base.{
  ℕ, ◌/◌, ◌%◌, ◌^◌, ◌<◌, ◌≡◌, refl, ◌≢◌, ◌↔◌, ◌⊎◌, inl, inr, true, not, List, [], ◌∷◌, arith, ◌==◌,
  if◌then◌else◌, ==_iff, Bool-cases, all,
}
use dproxy.Base.Text.{Bytes}
use dproxy.Net.Addr.{Addr, invalid, v4, v6}
use dproxy.Policy.Addresses.{
  public, is_public, classify_unmapped, classify_address, first_non_public, check_addresses,
}
use dproxy.Policy.Addresses.Blocks.{Outside, special4, special6}
use dproxy.Policy.Decision.{allow, deny}
use dproxy.Policy.Addresses.Ipv4.{unmapped4}
use dproxy.Policy.Addresses.Ipv6.{unmapped6}

-- The addresses of the Internet: IPv4, or IPv6 with no zone, and in no special block; an
-- IPv4-mapped IPv6 address counts as the IPv4 address in it.
abbrev pub IsInternet : Addr → Type 0
IsInternet invalid = ⊥
IsInternet (v4 n) = Outside n special4
IsInternet (v6 n z) =
    (z ≡ [])
    × (((n / 2 ^ 32 ≡ 0xffff) × Outside (n % 2 ^ 32) special4)
        ⊎ ((n / 2 ^ 32 ≢ 0xffff) × Outside n special6))

-- An IPv4 address has 32 bits.
abbrev pub InRange : Addr → Type 0
InRange (v4 n) = n < 2 ^ 32
InRange _ = Unit

classify_v6 :
    (n : ℕ)
    → classify_address (v6 n []) ≡ (
        if n / 2 ^ 32 == 0xffff
        then classify_unmapped (v4 (n % 2 ^ 32))
        else classify_unmapped (v6 n []))
unfolding classify_address
classify_v6 n = ground arith

zoned_not_public : (n c : ℕ) (z : Bytes) → classify_address (v6 n (c ∷ z)) ≢ public
unfolding classify_address
zoned_not_public n c z h = ground arith

invalid_not_public : classify_address invalid ≢ public
unfolding classify_address
invalid_not_public h = ground arith

-- `ClassifyAddress` calls an address that fits its family public exactly if it is an address of
-- the Internet: one with no zone, outside all special blocks.
pub classify_address_iff : (a : Addr) → InRange a → (classify_address a ≡ public) ↔ IsInternet a
unfolding classify_address
classify_address_iff invalid r = (λ h. absurd (invalid_not_public h), λ h. absurd h)
classify_address_iff (v4 n) r = unmapped4 n r
classify_address_iff (v6 n (c ∷ z)) r = (λ h. absurd (zoned_not_public n c z h), λ h. cc (h.0))
classify_address_iff (v6 n []) r = elim (Bool-cases (n / 2 ^ 32 == 0xffff)) [
  | inl e ↦
      let mapped : n / 2 ^ 32 ≡ 0xffff = (==_iff _ _).0 e in
      let inner = unmapped4 (n % 2 ^ 32) (omega arith) in
      (
        λ h. (refl, inl (mapped, inner.0 (rw (classify_v6 n, e) at h))),
        λ h. elim h.1 [ inl m ↦ rw (classify_v6 n, e) (inner.1 m.1) | inr m ↦ absurd (m.0 mapped) ],
      )
  | inr e ↦
      let plain : n / 2 ^ 32 ≢ 0xffff = ground arith in
      let inner = unmapped6 n plain in
      (
        λ h. (refl, inr (plain, inner.0 (rw (classify_v6 n, e) at h))),
        λ h. elim h.1 [ inl m ↦ absurd (plain m.0) | inr m ↦ rw (classify_v6 n, e) (inner.1 m.1) ],
      )
]

first_non_public-all :
    (addresses : List Addr)
    → (first_non_public addresses).2 ≡ not (all (λ a. is_public (classify_address a)) addresses)
unfolding first_non_public
first_non_public-all [] = refl
first_non_public-all (a ∷ rest) = ground (arith, first_non_public-all rest)

-- The whole answer passes exactly if there is an address in it and all of them are public.
pub check_addresses_iff :
    (addresses : List Addr)
    → ((check_addresses addresses).allowed ≡ true)
      ↔ ((addresses ≢ []) × (all (λ a. is_public (classify_address a)) addresses ≡ true))
unfolding check_addresses allow deny
check_addresses_iff [] = ground arith
check_addresses_iff (a ∷ rest) = ground (arith, first_non_public-all (a ∷ rest))
