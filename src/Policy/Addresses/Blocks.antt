-- ===== src/Policy/Addresses/Blocks.antt =====
-- The special address blocks, and tests of leading bits as bounds.
use dproxy.Base.{
  ℕ, ◌+◌, ◌*◌, ◌/◌, ◌^◌, ◌≤◌, ◌<◌, ◌≢◌, ◌⊎◌, inl, inr, List, [], ◌∷◌, arith, ltb, ltb→lt,
  Bool-cases,
}
use dproxy.Net.Addr.{quad, groups2}

-- A block is its first address and its size.
abbrev pub Outside : ℕ → List (ℕ × ℕ) → Type 0
Outside n [] = Unit {0}
Outside n ((first, size) ∷ blocks) = ((n < first) ⊎ (first + size ≤ n)) × Outside n blocks

-- This network, RFC 1918, carrier-grade NAT, loopback, link-local, protocol assignments,
-- documentation, 6to4 relays, benchmarking, multicast and reserved space.
abbrev pub special4 : List (ℕ × ℕ)
special4 =
    (quad 0 0 0 0, 2 ^ 24)
    ∷ (quad 10 0 0 0, 2 ^ 24)
    ∷ (quad 100 64 0 0, 2 ^ 22)
    ∷ (quad 127 0 0 0, 2 ^ 24)
    ∷ (quad 169 254 0 0, 2 ^ 16)
    ∷ (quad 172 16 0 0, 2 ^ 20)
    ∷ (quad 192 0 0 0, 2 ^ 8)
    ∷ (quad 192 0 2 0, 2 ^ 8)
    ∷ (quad 192 88 99 0, 2 ^ 8)
    ∷ (quad 192 168 0 0, 2 ^ 16)
    ∷ (quad 198 18 0 0, 2 ^ 17)
    ∷ (quad 198 51 100 0, 2 ^ 8)
    ∷ (quad 203 0 113 0, 2 ^ 8)
    ∷ (quad 224 0 0 0, 2 ^ 28)
    ∷ (quad 240 0 0 0, 2 ^ 28)
    ∷ []

-- The unspecified address, loopback, NAT64, discard-only, Teredo, benchmarking, documentation,
-- 6to4, unique-local, link-local, site-local and multicast space.
abbrev pub special6 : List (ℕ × ℕ)
special6 =
    (0, 1)
    ∷ (1, 1)
    ∷ (groups2 0x64 0xff9b, 2 ^ 32)
    ∷ (groups2 0x64 0xff9b + 2 ^ 80, 2 ^ 80)
    ∷ (groups2 0x100 0, 2 ^ 64)
    ∷ (groups2 0x2001 0, 2 ^ 96)
    ∷ (groups2 0x2001 2, 2 ^ 80)
    ∷ (groups2 0x2001 0xdb8, 2 ^ 96)
    ∷ (groups2 0x2002 0, 2 ^ 112)
    ∷ (groups2 0xfc00 0, 2 ^ 121)
    ∷ (groups2 0xfe80 0, 2 ^ 118)
    ∷ (groups2 0xfec0 0, 2 ^ 118)
    ∷ (groups2 0xff00 0, 2 ^ 120)
    ∷ []

pub outside :
    (n first size : ℕ) → (first ≤ n → n < first + size → ⊥) → (n < first) ⊎ (first + size ≤ n)
outside n first size h = elim (Bool-cases (ltb n first)) [
  | inl e ↦ inl (ltb→lt n first e)
  | inr e ↦ elim (Bool-cases (ltb n (first + size))) [
    | inl f ↦ absurd (h (ground arith) (ltb→lt n (first + size) f))
    | inr f ↦ inr (ground arith)
  ]
]

pub clear8 : (n b : ℕ) → (n < b * 2 ^ 8) ⊎ (b * 2 ^ 8 + 2 ^ 8 ≤ n) → n / 2 ^ 8 ≢ b
clear8 n b h = omega arith

pub clear16 : (n b : ℕ) → (n < b * 2 ^ 16) ⊎ (b * 2 ^ 16 + 2 ^ 16 ≤ n) → n / 2 ^ 16 ≢ b
clear16 n b h = omega arith

pub clear17 : (n b : ℕ) → (n < b * 2 ^ 17) ⊎ (b * 2 ^ 17 + 2 ^ 17 ≤ n) → n / 2 ^ 17 ≢ b
clear17 n b h = omega arith

pub clear20 : (n b : ℕ) → (n < b * 2 ^ 20) ⊎ (b * 2 ^ 20 + 2 ^ 20 ≤ n) → n / 2 ^ 20 ≢ b
clear20 n b h = omega arith

pub clear22 : (n b : ℕ) → (n < b * 2 ^ 22) ⊎ (b * 2 ^ 22 + 2 ^ 22 ≤ n) → n / 2 ^ 22 ≢ b
clear22 n b h = omega arith

pub clear24 : (n b : ℕ) → (n < b * 2 ^ 24) ⊎ (b * 2 ^ 24 + 2 ^ 24 ≤ n) → n / 2 ^ 24 ≢ b
clear24 n b h = omega arith

pub clear28 : (n b : ℕ) → (n < b * 2 ^ 28) ⊎ (b * 2 ^ 28 + 2 ^ 28 ≤ n) → n / 2 ^ 28 ≢ b
clear28 n b h = omega arith

pub clear32 : (n b : ℕ) → (n < b * 2 ^ 32) ⊎ (b * 2 ^ 32 + 2 ^ 32 ≤ n) → n / 2 ^ 32 ≢ b
clear32 n b h = omega arith

pub clear64 : (n b : ℕ) → (n < b * 2 ^ 64) ⊎ (b * 2 ^ 64 + 2 ^ 64 ≤ n) → n / 2 ^ 64 ≢ b
clear64 n b h = omega arith

pub clear80 : (n b : ℕ) → (n < b * 2 ^ 80) ⊎ (b * 2 ^ 80 + 2 ^ 80 ≤ n) → n / 2 ^ 80 ≢ b
clear80 n b h = omega arith

pub clear96 : (n b : ℕ) → (n < b * 2 ^ 96) ⊎ (b * 2 ^ 96 + 2 ^ 96 ≤ n) → n / 2 ^ 96 ≢ b
clear96 n b h = omega arith

pub clear112 : (n b : ℕ) → (n < b * 2 ^ 112) ⊎ (b * 2 ^ 112 + 2 ^ 112 ≤ n) → n / 2 ^ 112 ≢ b
clear112 n b h = omega arith

pub clear118 : (n b : ℕ) → (n < b * 2 ^ 118) ⊎ (b * 2 ^ 118 + 2 ^ 118 ≤ n) → n / 2 ^ 118 ≢ b
clear118 n b h = omega arith

pub clear120 : (n b : ℕ) → (n < b * 2 ^ 120) ⊎ (b * 2 ^ 120 + 2 ^ 120 ≤ n) → n / 2 ^ 120 ≢ b
clear120 n b h = omega arith

pub clear121 : (n b : ℕ) → (n < b * 2 ^ 121) ⊎ (b * 2 ^ 121 + 2 ^ 121 ≤ n) → n / 2 ^ 121 ≢ b
clear121 n b h = omega arith

pub clear0 : (n b : ℕ) → (n < b) ⊎ (b + 1 ≤ n) → n ≢ b
clear0 n b h = omega arith
