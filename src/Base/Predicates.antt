-- ===== src/Base/Predicates.antt =====
-- Tests that every byte of a text passes, and how the text functions treat such texts.
use dproxy.Base.{
  ℕ, ◌≡◌, refl, sym, ap, ◌∙◌, inl, inr, Bool, true, false, ◌&&◌, ◌||◌, List, [], ◌∷◌, ◌++◌, reverse,
  arith, ◌==◌, ==_iff, Bool-cases, and_true, all,
}
use dproxy.Base.Text.{Bytes, contains, cons_head, split, trim_suffix, trim_left, trim}
use mathlib.Core.List.{reverse-cons, reverse-reverse}

module _ {ℓ} {A : Type ℓ} (p : A → Bool) where
  pub all-append : (xs ys : List A) → all p (xs ++ ys) ≡ all p xs && all p ys
  all-append [] ys = refl
  all-append (x ∷ xs) ys = ground (arith, all-append xs ys)

  pub all-reverse : (xs : List A) → all p xs ≡ true → all p (reverse xs) ≡ true
  all-reverse [] h = refl
  all-reverse (x ∷ xs) h =
      ground (arith, reverse-cons x xs, all-append (reverse xs) (x ∷ []), all-reverse xs)

  pub all_weaken :
      (q : A → Bool)
      → ((x : A) → p x ≡ true → q x ≡ true)
      → (xs : List A) → all p xs ≡ true
      → all q xs ≡ true
  all_weaken q imp [] h = refl
  all_weaken q imp (x ∷ xs) h = ground (arith, imp x, all_weaken q imp xs)

module _ (p cut_set : ℕ → Bool) (apart : (c : ℕ) → p c ≡ true → cut_set c ≡ false) where
  pub trim_left-all : (s : Bytes) → all p s ≡ true → trim_left cut_set s ≡ s
  unfolding trim_left
  trim_left-all [] h = refl
  trim_left-all (c ∷ s) h = ground (arith, apart c)

  -- Trimming leaves alone a text that holds no byte of the set.
  pub trim-all : (s : Bytes) → all p s ≡ true → trim cut_set s ≡ s
  unfolding trim
  trim-all s h =
      rw (trim_left-all s h, trim_left-all (reverse s) (all-reverse p s h)) (reverse-reverse s)

pub contains-all :
    (p : ℕ → Bool) (b : ℕ) → p b ≡ false → (s : Bytes) → all p s ≡ true → contains s b ≡ false
unfolding contains
contains-all p b out [] h = refl
contains-all p b out (c ∷ s) h = elim (Bool-cases (c == b)) [
  | inl e ↦ let same : c ≡ b = (==_iff c b).0 e in absurd (ground (arith, ap p same))
  | inr e ↦ ground (arith, contains-all p b out s)
]

abbrev pub not_empty : Bytes → Bool
not_empty [] = false
not_empty (c ∷ s) = true

-- A text whose last piece is not empty does not end in the separator.
abbrev later_not_empty : List Bytes → Bool
later_not_empty [] = true
later_not_empty (l ∷ ls) = all not_empty ls

later-cons_head : (c : ℕ) (ls : List Bytes) → later_not_empty (cons_head c ls) ≡ later_not_empty ls
later-cons_head c [] = refl
later-cons_head c (l ∷ ls) = refl

later-all : (ls : List Bytes) → all not_empty ls ≡ true → later_not_empty ls ≡ true
later-all [] h = refl
later-all (l ∷ ls) h = (and_true _ _ h).1

trim_suffix-later : (b : ℕ) (s : Bytes) → later_not_empty (split b s) ≡ true → trim_suffix b s ≡ s
unfolding trim_suffix split
trim_suffix-later b [] h = refl
trim_suffix-later b (c ∷ []) h = ground arith
trim_suffix-later b (c ∷ d ∷ s) h = elim (Bool-cases (c == b)) [
  | inl e ↦
      ap (◌∷◌ c) (trim_suffix-later b (d ∷ s) (later-all (split b (d ∷ s)) (rw (e, split) at h)))
  | inr e ↦ ap (◌∷◌ c) (
      trim_suffix-later b (d ∷ s)
        (sym (later-cons_head c (split b (d ∷ s))) ∙ (rw (e, split) at h)))
]

pub trim_suffix-split : (b : ℕ) (s : Bytes) → all not_empty (split b s) ≡ true → trim_suffix b s ≡ s
trim_suffix-split b s h = trim_suffix-later b s (later-all (split b s) h)

all-cons_head :
    (p : ℕ → Bool) (c : ℕ) (ls : List Bytes)
    → all (all p) (cons_head c ls) ≡ true
    → (p c ≡ true) × (all (all p) ls ≡ true)
all-cons_head p c [] h = ground arith
all-cons_head p c (l ∷ ls) h = ground arith

-- Each byte of a text is in a piece of its split, or is the separator.
pub all-split :
    (p : ℕ → Bool) (b : ℕ) (s : Bytes)
    → all (all p) (split b s) ≡ true
    → all (λ c. p c || c == b) s ≡ true
unfolding split
all-split p b [] h = refl
all-split p b (c ∷ s) h = elim (Bool-cases (c == b)) [
  | inl e ↦ ground (arith, all-split p b s (rw (e, split) at h))
  | inr e ↦
      let parts = all-cons_head p c (split b s) (rw (e, split) at h) in
      ground (arith, parts, all-split p b s parts.1)
]
