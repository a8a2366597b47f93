-- ===== src/Base/Bits.antt =====
-- The exclusive or of numbers, by their binary digits.
use Prim.Native.Nat.{bit_xor, digits, differ, bit_xor-bitwise}
use dproxy.Base.{ℕ, zero, suc, ◌+◌, ◌*◌, ◌/◌, ◌%◌, ◌≤◌, ◌<◌, ◌≡◌, refl, arith, ◌∙◌}

abbrev xor_digits : ℕ → ℕ → ℕ → ℕ
xor_digits n a b = digits (λ b. b) differ n a b

xor_digits-fuel : (n m a b : ℕ) → a ≤ n → a ≤ m → xor_digits n a b ≡ xor_digits m a b
xor_digits-fuel zero zero a b p q = refl
xor_digits-fuel zero (suc m) zero b p q = refl
xor_digits-fuel zero (suc m) (suc a) b p q = absurd (omega arith)
xor_digits-fuel (suc n) zero zero b p q = refl
xor_digits-fuel (suc n) zero (suc a) b p q = absurd (omega arith)
xor_digits-fuel (suc n) (suc m) zero b p q = refl
xor_digits-fuel (suc n) (suc m) (suc a) b p q =
    omega (arith, xor_digits-fuel n m (suc a / 2) (b / 2) (omega arith) (omega arith))

zero-bit_xor : (b : ℕ) → bit_xor 0 b ≡ b
zero-bit_xor b = bit_xor-bitwise 0 b

differ_digit : (x y : ℕ) → x < 2 → y < 2 → (differ x y < 2) × (differ (differ x y) y ≡ x)
differ_digit zero zero p q = omega arith
differ_digit zero (suc zero) p q = omega arith
differ_digit (suc zero) zero p q = omega arith
differ_digit (suc zero) (suc zero) p q = omega arith
differ_digit (suc (suc x)) y p q = absurd (omega arith)
differ_digit zero (suc (suc y)) p q = absurd (omega arith)
differ_digit (suc zero) (suc (suc y)) p q = absurd (omega arith)

bit_xor_step : (a b : ℕ) → bit_xor a b ≡ bit_xor (a / 2) (b / 2) * 2 + differ (a % 2) (b % 2)
bit_xor_step zero b = omega (arith, zero-bit_xor b, zero-bit_xor (b / 2))
bit_xor_step (suc a) b = omega (
  arith,
  bit_xor-bitwise (suc a) b,
  bit_xor-bitwise (suc a / 2) (b / 2),
  xor_digits-fuel a (suc a / 2) (suc a / 2) (b / 2) (omega arith) (omega arith),
)

-- The halves of a number that is put together from a half and a digit.
halves : (n h d : ℕ) → n ≡ h * 2 + d → d < 2 → (n / 2 ≡ h) × (n % 2 ≡ d)
halves n h d e p = omega arith

xor_twice : (k a b : ℕ) → a ≤ k → b ≤ k → bit_xor (bit_xor a b) b ≡ a
xor_twice zero zero zero p q = refl
xor_twice zero (suc a) b p q = absurd (omega arith)
xor_twice zero zero (suc b) p q = absurd (omega arith)
xor_twice (suc k) a b p q =
    let (small, back) = differ_digit (a % 2) (b % 2) (omega arith) (omega arith) in
    let (half, digit) =
      halves (bit_xor a b) (bit_xor (a / 2) (b / 2)) (differ (a % 2) (b % 2)) (bit_xor_step a b)
        small in
    let rest = xor_twice k (a / 2) (b / 2) (omega (arith, p)) (omega (arith, q)) in
    bit_xor_step (bit_xor a b) b ∙ rw (half, digit) (omega (arith, rest, back))

-- Exclusive or with the same number twice gives the first number back.
pub bit_xor-bit_xor : (a b : ℕ) → bit_xor (bit_xor a b) b ≡ a
bit_xor-bit_xor a b = xor_twice (a + b) a b (omega arith) (omega arith)
