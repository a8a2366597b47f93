-- ===== src/Tunnel/Frames/Masking.antt =====
-- `applyMask` on a payload and on its parts.
use Prim.Native.Nat.{bit_xor}
use dproxy.Base.{
  Bool, true, false, not, if◌then◌else◌, ℕ, zero, suc, ◌+◌, ◌≡◌, refl, ap, ◌∙◌, [], ◌∷◌, length,
  take, drop, arith,
}
use dproxy.Base.Text.{Bytes}
use dproxy.Base.Bits.{bit_xor-bit_xor}
use dproxy.Tunnel.Frames.{apply_mask, mask_byte}

module _ (mask : Bytes) where
  pub length-apply_mask : (p : Bytes) (o : ℕ) → length (apply_mask p mask o) ≡ length p
  unfolding apply_mask
  length-apply_mask [] o = refl
  length-apply_mask (c ∷ p) o = omega (arith, length-apply_mask p (o + 1))

  -- Masking twice gives the payload back.
  pub apply_mask-apply_mask : (p : Bytes) (o : ℕ) → apply_mask (apply_mask p mask o) mask o ≡ p
  unfolding apply_mask
  apply_mask-apply_mask [] o = refl
  apply_mask-apply_mask (c ∷ p) o =
      rw (bit_xor-bit_xor c (mask_byte mask o), apply_mask-apply_mask p (o + 1)) refl

  pub take-apply_mask :
      (n : ℕ) (p : Bytes) (o : ℕ) → take n (apply_mask p mask o) ≡ apply_mask (take n p) mask o
  unfolding apply_mask
  take-apply_mask zero p o = refl
  take-apply_mask (suc n) [] o = refl
  take-apply_mask (suc n) (c ∷ p) o =
      ap (λ s. bit_xor c (mask_byte mask o) ∷ s) (take-apply_mask n p (o + 1))

  pub drop-apply_mask :
      (n : ℕ) (p : Bytes) (o : ℕ)
      → drop n (apply_mask p mask o) ≡ apply_mask (drop n p) mask (o + n)
  unfolding apply_mask
  drop-apply_mask zero p o = ap (apply_mask p mask) (omega arith)
  drop-apply_mask (suc n) [] o = refl
  drop-apply_mask (suc n) (c ∷ p) o =
      drop-apply_mask n p (o + 1) ∙ ap (apply_mask (drop n p) mask) (omega arith)

-- A payload as `Read` takes it: a client's connection reads what is not masked.
abbrev pub plain : Bool → Bytes → ℕ → Bytes → Bytes
plain client mask o p = if not client then apply_mask p mask o else p

abbrev pub moved : Bool → ℕ → ℕ → ℕ
moved client o n = if not client then o + n else o

module _ (mask : Bytes) (o : ℕ) where
  pub plain_nil : (client : Bool) → plain client mask o [] ≡ []
  unfolding apply_mask
  plain_nil true = refl
  plain_nil false = refl

  pub length-plain : (client : Bool) (p : Bytes) → length (plain client mask o p) ≡ length p
  length-plain true p = refl
  length-plain false p = length-apply_mask mask p o

  pub plain-plain : (client : Bool) (p : Bytes) → plain client mask o (plain client mask o p) ≡ p
  plain-plain true p = refl
  plain-plain false p = apply_mask-apply_mask mask p o

  pub take-plain :
      (client : Bool) (n : ℕ) (p : Bytes)
      → take n (plain client mask o p) ≡ plain client mask o (take n p)
  take-plain true n p = refl
  take-plain false n p = take-apply_mask mask n p o

  pub drop-plain :
      (client : Bool) (n : ℕ) (p : Bytes)
      → drop n (plain client mask o p) ≡ plain client mask (moved client o n) (drop n p)
  drop-plain true n p = refl
  drop-plain false n p = drop-apply_mask mask n p o
