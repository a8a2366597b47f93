-- ===== src/Policy/Addresses/Ipv6.antt =====
-- The tests of `ClassifyAddress` on an IPv6 address.
use dproxy.Base.{ℕ, ◌+◌, ◌/◌, ◌^◌, ◌≡◌, ◌≢◌, ◌↔◌, [], arith}
use dproxy.Net.Addr.{v6, groups2}
use dproxy.Policy.Addresses.Blocks.{
  Outside, special6, outside, clear32, clear64, clear80, clear96, clear112, clear118, clear120,
  clear121, clear0,
}
use dproxy.Policy.Addresses.{public, classify_unmapped}

-- The tests that an IPv6 address has to fail.
record Clear6 (n : ℕ) : Type 0 where
  b1 : n ≢ 0
  b2 : n ≢ 1
  b3 : n / 2 ^ 32 ≢ groups2 0x64 0xff9b / 2 ^ 32
  b4 : n / 2 ^ 80 ≢ (groups2 0x64 0xff9b + 2 ^ 80) / 2 ^ 80
  b5 : n / 2 ^ 64 ≢ groups2 0x100 0 / 2 ^ 64
  b6 : n / 2 ^ 96 ≢ groups2 0x2001 0 / 2 ^ 96
  b7 : n / 2 ^ 80 ≢ groups2 0x2001 2 / 2 ^ 80
  b8 : n / 2 ^ 96 ≢ groups2 0x2001 0xdb8 / 2 ^ 96
  b9 : n / 2 ^ 112 ≢ groups2 0x2002 0 / 2 ^ 112
  b10 : n / 2 ^ 121 ≢ 0x7e
  b11 : n / 2 ^ 118 ≢ 0x3fa
  b12 : n / 2 ^ 118 ≢ groups2 0xfec0 0 / 2 ^ 118
  b13 : n / 2 ^ 120 ≢ 0xff

public-Clear6 : (n : ℕ) → classify_unmapped (v6 n []) ≡ public → Clear6 n
unfolding classify_unmapped
public-Clear6 n h = record {
  b1 = ground arith;
  b2 = ground arith;
  b3 = ground arith;
  b4 = ground arith;
  b5 = ground arith;
  b6 = ground arith;
  b7 = ground arith;
  b8 = ground arith;
  b9 = ground arith;
  b10 = ground arith;
  b11 = ground arith;
  b12 = ground arith;
  b13 = ground arith;
}

Clear6-Outside : (n : ℕ) → Clear6 n → Outside n special6
Clear6-Outside n c = (
  outside n (0) (1) (λ p q. omega (arith, c.b1)),
  (
    outside n (1) (1) (λ p q. omega (arith, c.b2)),
    (
      outside n (groups2 0x64 0xff9b) (2 ^ 32) (λ p q. omega (arith, c.b3)),
      (
        outside n (groups2 0x64 0xff9b + 2 ^ 80) (2 ^ 80) (λ p q. omega (arith, c.b4)),
        (
          outside n (groups2 0x100 0) (2 ^ 64) (λ p q. omega (arith, c.b5)),
          (
            outside n (groups2 0x2001 0) (2 ^ 96) (λ p q. omega (arith, c.b6)),
            (
              outside n (groups2 0x2001 2) (2 ^ 80) (λ p q. omega (arith, c.b7)),
              (
                outside n (groups2 0x2001 0xdb8) (2 ^ 96) (λ p q. omega (arith, c.b8)),
                (
                  outside n (groups2 0x2002 0) (2 ^ 112) (λ p q. omega (arith, c.b9)),
                  (
                    outside n (groups2 0xfc00 0) (2 ^ 121) (λ p q. omega (arith, c.b10)),
                    (
                      outside n (groups2 0xfe80 0) (2 ^ 118) (λ p q. omega (arith, c.b11)),
                      (
                        outside n (groups2 0xfec0 0) (2 ^ 118) (λ p q. omega (arith, c.b12)),
                        (outside n (groups2 0xff00 0) (2 ^ 120) (λ p q. omega (arith, c.b13)), tt),
                      ),
                    ),
                  ),
                ),
              ),
            ),
          ),
        ),
      ),
    ),
  ),
)

Outside-Clear6 : (n : ℕ) → Outside n special6 → Clear6 n
Outside-Clear6 n h = record {
  b1 = clear0 n (0) h.0;
  b2 = clear0 n (1) h.1.0;
  b3 = clear32 n (groups2 0x64 0xff9b / 2 ^ 32) h.1.1.0;
  b4 = clear80 n ((groups2 0x64 0xff9b + 2 ^ 80) / 2 ^ 80) h.1.1.1.0;
  b5 = clear64 n (groups2 0x100 0 / 2 ^ 64) h.1.1.1.1.0;
  b6 = clear96 n (groups2 0x2001 0 / 2 ^ 96) h.1.1.1.1.1.0;
  b7 = clear80 n (groups2 0x2001 2 / 2 ^ 80) h.1.1.1.1.1.1.0;
  b8 = clear96 n (groups2 0x2001 0xdb8 / 2 ^ 96) h.1.1.1.1.1.1.1.0;
  b9 = clear112 n (groups2 0x2002 0 / 2 ^ 112) h.1.1.1.1.1.1.1.1.0;
  b10 = clear121 n (0x7e) h.1.1.1.1.1.1.1.1.1.0;
  b11 = clear118 n (0x3fa) h.1.1.1.1.1.1.1.1.1.1.0;
  b12 = clear118 n (groups2 0xfec0 0 / 2 ^ 118) h.1.1.1.1.1.1.1.1.1.1.1.0;
  b13 = clear120 n (0xff) h.1.1.1.1.1.1.1.1.1.1.1.1.0;
}

public_of_Clear6 : (n : ℕ) → n / 2 ^ 32 ≢ 0xffff → Clear6 n → classify_unmapped (v6 n []) ≡ public
unfolding classify_unmapped
public_of_Clear6 n plain c = ground arith

pub unmapped6 :
    (n : ℕ) → n / 2 ^ 32 ≢ 0xffff → (classify_unmapped (v6 n []) ≡ public) ↔ Outside n special6
unmapped6 n plain =
    (λ h. Clear6-Outside n (public-Clear6 n h), λ h. public_of_Clear6 n plain (Outside-Clear6 n h))
