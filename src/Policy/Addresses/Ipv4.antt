-- ===== src/Policy/Addresses/Ipv4.antt =====
-- The tests of `ClassifyAddress` on an IPv4 address.
use dproxy.Base.{ℕ, ◌+◌, ◌*◌, ◌/◌, ◌^◌, ◌<◌, ◌≡◌, ◌≢◌, ◌↔◌, arith}
use dproxy.Net.Addr.{v4, quad}
use dproxy.Policy.Addresses.Blocks.{
  Outside, special4, outside, clear8, clear16, clear17, clear20, clear22, clear24, clear28,
}
use dproxy.Policy.Addresses.{public, classify_unmapped}

-- The tests that an IPv4 address has to fail.
record Clear4 (n : ℕ) : Type 0 where
  b1 : n / 2 ^ 24 ≢ 0
  b2 : n / 2 ^ 24 ≢ 10
  b3 : n / 2 ^ 22 ≢ quad 100 64 0 0 / 2 ^ 22
  b4 : n / 2 ^ 24 ≢ 127
  b5 : n / 2 ^ 16 ≢ 169 * 256 + 254
  b6 : n / 2 ^ 20 ≢ 172 * 16 + 1
  b7 : n / 2 ^ 8 ≢ quad 192 0 0 0 / 2 ^ 8
  b8 : n / 2 ^ 8 ≢ quad 192 0 2 0 / 2 ^ 8
  b9 : n / 2 ^ 8 ≢ quad 192 88 99 0 / 2 ^ 8
  b10 : n / 2 ^ 16 ≢ 192 * 256 + 168
  b11 : n / 2 ^ 17 ≢ quad 198 18 0 0 / 2 ^ 17
  b12 : n / 2 ^ 8 ≢ quad 198 51 100 0 / 2 ^ 8
  b13 : n / 2 ^ 8 ≢ quad 203 0 113 0 / 2 ^ 8
  b14 : n / 2 ^ 28 ≢ 14
  b15 : n / 2 ^ 28 ≢ 15

public-Clear4 : (n : ℕ) → classify_unmapped (v4 n) ≡ public → Clear4 n
unfolding classify_unmapped
public-Clear4 n h = record {
  b1 = ground arith;
  b2 = ground arith;
  b3 = ground arith;
  b4 = ground arith;
  b5 = ground arith;
  b6 = ground arith;
  b7 = ground arith;
  b8 = ground arith;
  b9 = ground arith;
  b10 = ground arith;
  b11 = ground arith;
  b12 = ground arith;
  b13 = ground arith;
  b14 = ground arith;
  b15 = ground arith;
}

Clear4-Outside : (n : ℕ) → Clear4 n → Outside n special4
Clear4-Outside n c = (
  outside n (quad 0 0 0 0) (2 ^ 24) (λ p q. omega (arith, c.b1)),
  (
    outside n (quad 10 0 0 0) (2 ^ 24) (λ p q. omega (arith, c.b2)),
    (
      outside n (quad 100 64 0 0) (2 ^ 22) (λ p q. omega (arith, c.b3)),
      (
        outside n (quad 127 0 0 0) (2 ^ 24) (λ p q. omega (arith, c.b4)),
        (
          outside n (quad 169 254 0 0) (2 ^ 16) (λ p q. omega (arith, c.b5)),
          (
            outside n (quad 172 16 0 0) (2 ^ 20) (λ p q. omega (arith, c.b6)),
            (
              outside n (quad 192 0 0 0) (2 ^ 8) (λ p q. omega (arith, c.b7)),
              (
                outside n (quad 192 0 2 0) (2 ^ 8) (λ p q. omega (arith, c.b8)),
                (
                  outside n (quad 192 88 99 0) (2 ^ 8) (λ p q. omega (arith, c.b9)),
                  (
                    outside n (quad 192 168 0 0) (2 ^ 16) (λ p q. omega (arith, c.b10)),
                    (
                      outside n (quad 198 18 0 0) (2 ^ 17) (λ p q. omega (arith, c.b11)),
                      (
                        outside n (quad 198 51 100 0) (2 ^ 8) (λ p q. omega (arith, c.b12)),
                        (
                          outside n (quad 203 0 113 0) (2 ^ 8) (λ p q. omega (arith, c.b13)),
                          (
                            outside n (quad 224 0 0 0) (2 ^ 28) (λ p q. omega (arith, c.b14)),
                            (outside n (quad 240 0 0 0) (2 ^ 28) (λ p q. omega (arith, c.b15)), tt),
                          ),
                        ),
                      ),
                    ),
                  ),
                ),
              ),
            ),
          ),
        ),
      ),
    ),
  ),
)

Outside-Clear4 : (n : ℕ) → Outside n special4 → Clear4 n
Outside-Clear4 n h = record {
  b1 = clear24 n (0) h.0;
  b2 = clear24 n (10) h.1.0;
  b3 = clear22 n (quad 100 64 0 0 / 2 ^ 22) h.1.1.0;
  b4 = clear24 n (127) h.1.1.1.0;
  b5 = clear16 n (169 * 256 + 254) h.1.1.1.1.0;
  b6 = clear20 n (172 * 16 + 1) h.1.1.1.1.1.0;
  b7 = clear8 n (quad 192 0 0 0 / 2 ^ 8) h.1.1.1.1.1.1.0;
  b8 = clear8 n (quad 192 0 2 0 / 2 ^ 8) h.1.1.1.1.1.1.1.0;
  b9 = clear8 n (quad 192 88 99 0 / 2 ^ 8) h.1.1.1.1.1.1.1.1.0;
  b10 = clear16 n (192 * 256 + 168) h.1.1.1.1.1.1.1.1.1.0;
  b11 = clear17 n (quad 198 18 0 0 / 2 ^ 17) h.1.1.1.1.1.1.1.1.1.1.0;
  b12 = clear8 n (quad 198 51 100 0 / 2 ^ 8) h.1.1.1.1.1.1.1.1.1.1.1.0;
  b13 = clear8 n (quad 203 0 113 0 / 2 ^ 8) h.1.1.1.1.1.1.1.1.1.1.1.1.0;
  b14 = clear28 n (14) h.1.1.1.1.1.1.1.1.1.1.1.1.1.0;
  b15 = clear28 n (15) h.1.1.1.1.1.1.1.1.1.1.1.1.1.1.0;
}

public_of_Clear4 : (n : ℕ) → n < 2 ^ 32 → Clear4 n → classify_unmapped (v4 n) ≡ public
unfolding classify_unmapped
public_of_Clear4 n bound c = ground arith

pub unmapped4 : (n : ℕ) → n < 2 ^ 32 → (classify_unmapped (v4 n) ≡ public) ↔ Outside n special4
unmapped4 n bound =
    (λ h. Clear4-Outside n (public-Clear4 n h), λ h. public_of_Clear4 n bound (Outside-Clear4 n h))
