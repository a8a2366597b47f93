-- ===== src/Base/Graphic.antt =====
-- Texts of visible ASCII, and `strings.TrimSpace` on them.
use dproxy.Base.{
  ℕ, ◌≡◌, refl, Bool, true, false, ◌&&◌, ◌||◌, [], ◌∷◌, reverse, arith, ◌==◌, within, and_true, all,
}
use dproxy.Base.Text.{Bytes}
use dproxy.Base.Space.{is_ascii_space, trim_space_left, trim_space_right, trim_space}
use dproxy.Base.Predicates.{all-reverse}
use mathlib.Core.List.{reverse-reverse}

abbrev pub is_graphic : ℕ → Bool
is_graphic c = within 33 126 c

pub not_space : (c : ℕ) → is_graphic c ≡ true → is_ascii_space c ≡ false
not_space c h = ground arith

-- No visible ASCII byte starts or ends the encoding of a space.
pub no_lead :
    (c : ℕ)
    → is_graphic c ≡ true
    → ((c == 0xc2) ≡ false) × ((c == 0xe1) ≡ false) × ((c == 0xe2) ≡ false) × ((c == 0xe3) ≡ false)
no_lead c h = ground arith

pub no_last :
    (c : ℕ)
    → is_graphic c ≡ true
    → ((c == 0x85 || c == 0xa0) ≡ false)
      × ((c == 0x80) ≡ false)
      × ((within 0x80 0x8a c || (within 0xa8 0xa9 c || c == 0xaf)) ≡ false)
      × ((c == 0x9f) ≡ false)
no_last c h = ground arith

trim_space_left-graphic : (s : Bytes) → all is_graphic s ≡ true → trim_space_left s ≡ s
unfolding trim_space_left
trim_space_left-graphic [] h = refl
trim_space_left-graphic (c ∷ []) h = rw (not_space c (and_true _ _ h).0)
trim_space_left-graphic (c ∷ d ∷ []) h =
    let g = (and_true _ _ h).0 in let (n2, n1, ne, n3) = no_lead c g in rw (not_space c g, n2)
trim_space_left-graphic (c ∷ d ∷ e ∷ s) h =
    let g = (and_true _ _ h).0 in
    let (n2, n1, ne, n3) = no_lead c g in rw (not_space c g, n2, n1, ne, n3)

and_false : (a : Bool) → (a && false) ≡ false
and_false true = refl
and_false false = refl

trim_space_right-graphic : (s : Bytes) → all is_graphic s ≡ true → trim_space_right s ≡ s
unfolding trim_space_right
trim_space_right-graphic [] h = refl
trim_space_right-graphic (c ∷ []) h = rw (not_space c (and_true _ _ h).0)
trim_space_right-graphic (d ∷ c ∷ []) h =
    let g = (and_true _ _ h).0 in
    let (n2, n1, ne, n3) = no_last d g in simp (not_space d g, n2, and_false)
trim_space_right-graphic (e ∷ d ∷ c ∷ s) h =
    let g = (and_true _ _ h).0 in
    let (n2, n1, ne, n3) = no_last e g in simp (not_space e g, n2, n1, ne, n3, and_false)

-- A text of visible ASCII has nothing to trim.
pub trim_space-graphic : (s : Bytes) → all is_graphic s ≡ true → trim_space s ≡ s
unfolding trim_space
trim_space-graphic s h =
    rw
      (
        trim_space_left-graphic s h,
        trim_space_right-graphic (reverse s) (all-reverse is_graphic s h),
      )
      (reverse-reverse s)
