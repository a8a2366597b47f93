-- ===== src/Base/Trim.antt =====
-- `strings.TrimSpace` on a text with blanks around it.
use dproxy.Base.{
  ℕ, ◌≡◌, refl, sym, ap, ◌∙◌, Bool, true, false, ◌&&◌, [], ◌∷◌, ◌++◌, reverse, and_true, all,
  append-nil,
}
use dproxy.Base.Text.{Bytes}
use dproxy.Base.Space.{is_ascii_space, trim_space_left, trim_space_right, trim_space}
use dproxy.Base.Graphic.{is_graphic, not_space, no_lead, no_last}
use dproxy.Base.Predicates.{all-reverse}
use mathlib.Core.List.{reverse-reverse, reverse-append, reverse-cons}

left_blank :
    (c : ℕ) (s : Bytes) → is_ascii_space c ≡ true → trim_space_left (c ∷ s) ≡ trim_space_left s
unfolding trim_space_left
left_blank c [] h = rw h refl
left_blank c (d ∷ []) h = rw h refl
left_blank c (d ∷ e ∷ s) h = rw h refl

right_blank :
    (c : ℕ) (s : Bytes) → is_ascii_space c ≡ true → trim_space_right (c ∷ s) ≡ trim_space_right s
unfolding trim_space_right
right_blank c [] h = rw h refl
right_blank c (d ∷ []) h = rw h refl
right_blank c (d ∷ e ∷ s) h = rw h refl

pub left_graphic : (c : ℕ) (s : Bytes) → is_graphic c ≡ true → trim_space_left (c ∷ s) ≡ c ∷ s
unfolding trim_space_left
left_graphic c [] h = rw (not_space c h)
left_graphic c (d ∷ []) h = let (n2, n1, ne, n3) = no_lead c h in rw (not_space c h, n2)
left_graphic c (d ∷ e ∷ s) h =
    let (n2, n1, ne, n3) = no_lead c h in rw (not_space c h, n2, n1, ne, n3)

and_never : (a : Bool) → (a && false) ≡ false
and_never true = refl
and_never false = refl

right_graphic : (c : ℕ) (s : Bytes) → is_graphic c ≡ true → trim_space_right (c ∷ s) ≡ c ∷ s
unfolding trim_space_right
right_graphic c [] h = rw (not_space c h)
right_graphic c (d ∷ []) h =
    let (n2, n1, ne, n3) = no_last c h in simp (not_space c h, n2, and_never)
right_graphic c (d ∷ e ∷ s) h =
    let (n2, n1, ne, n3) = no_last c h in simp (not_space c h, n2, n1, ne, n3, and_never)

left_blanks :
    (b s : Bytes) → all is_ascii_space b ≡ true → trim_space_left (b ++ s) ≡ trim_space_left s
left_blanks [] s h = refl
left_blanks (c ∷ b) s h =
    let (space, more) = and_true _ _ h in left_blank c (b ++ s) space ∙ left_blanks b s more

right_blanks :
    (b s : Bytes) → all is_ascii_space b ≡ true → trim_space_right (b ++ s) ≡ trim_space_right s
right_blanks [] s h = refl
right_blanks (c ∷ b) s h =
    let (space, more) = and_true _ _ h in right_blank c (b ++ s) space ∙ right_blanks b s more

-- A text that starts and ends with a visible byte, between blanks.
pub trim_space-blanks :
    (l r m w : Bytes) (a z : ℕ) (s : Bytes)
    → all is_ascii_space l ≡ true
    → all is_ascii_space r ≡ true
    → s ≡ a ∷ m
    → is_graphic a ≡ true
    → reverse s ≡ z ∷ w
    → is_graphic z ≡ true
    → trim_space (l ++ (s ++ r)) ≡ s
unfolding trim_space
trim_space-blanks l r m w a z s hl hr starts ha ends hz =
    let front : trim_space_left (l ++ (s ++ r)) ≡ s ++ r =
      left_blanks l (s ++ r) hl
      ∙ ap (λ t. trim_space_left (t ++ r)) starts
      ∙ left_graphic a (m ++ r) ha
      ∙ ap (λ t. t ++ r) (sym starts) in
    let back : trim_space_right (reverse (s ++ r)) ≡ reverse s =
      ap trim_space_right (reverse-append s r)
      ∙ right_blanks (reverse r) (reverse s) (all-reverse is_ascii_space r hr)
      ∙ ap trim_space_right ends
      ∙ right_graphic z w hz
      ∙ sym ends in
    ap (λ t. reverse (trim_space_right (reverse t))) front ∙ ap reverse back ∙ reverse-reverse s

reverse-ends : (a z : ℕ) (m : Bytes) → reverse (a ∷ (m ++ z ∷ [])) ≡ z ∷ (reverse m ++ (a ∷ []))
reverse-ends a z m =
    reverse-cons a (m ++ z ∷ []) ∙ ap (λ s. s ++ (a ∷ [])) (reverse-append m (z ∷ []))

-- A text between two visible bytes has nothing to trim.
pub trim_space-ends :
    (a z : ℕ) (m : Bytes)
    → is_graphic a ≡ true
    → is_graphic z ≡ true
    → trim_space (a ∷ (m ++ z ∷ [])) ≡ a ∷ (m ++ z ∷ [])
trim_space-ends a z m ha hz =
    let text = a ∷ (m ++ z ∷ []) in
    ap trim_space (sym (append-nil text))
    ∙ trim_space-blanks [] [] (m ++ z ∷ []) (reverse m ++ (a ∷ [])) a z text refl refl refl ha
        (reverse-ends a z m) hz

not_nothing : (c : ℕ) (s : Bytes) → reverse (c ∷ s) ≡ [] → ⊥
not_nothing c s e = let same : c ∷ s ≡ [] = sym (reverse-reverse (c ∷ s)) ∙ ap reverse e in cc

visible_from :
    (l r : Bytes) (c : ℕ) (s t : Bytes)
    → all is_ascii_space l ≡ true
    → all is_ascii_space r ≡ true
    → is_graphic c ≡ true
    → reverse (c ∷ s) ≡ t
    → all is_graphic t ≡ true
    → trim_space (l ++ ((c ∷ s) ++ r)) ≡ c ∷ s
visible_from l r c s [] hl hr hc e h = absurd (not_nothing c s e)
visible_from l r c s (z ∷ w) hl hr hc e h =
    trim_space-blanks l r s w c z (c ∷ s) hl hr refl hc e (and_true _ _ h).0

-- A text of visible bytes between blanks.
pub trim_space-visible :
    (l r : Bytes) (c : ℕ) (s : Bytes)
    → all is_ascii_space l ≡ true
    → all is_ascii_space r ≡ true
    → all is_graphic (c ∷ s) ≡ true
    → trim_space (l ++ ((c ∷ s) ++ r)) ≡ c ∷ s
trim_space-visible l r c s hl hr h =
    visible_from l r c s (reverse (c ∷ s)) hl hr (and_true _ _ h).0 refl
      (all-reverse is_graphic (c ∷ s) h)
