-- ===== src/Base/Outcomes.antt =====
-- Results that are an error, or have a property.
use dproxy.Base.{◌≡◌, refl, sym, Bool, true, false, Result, ok, err, ◌>>=◌, if◌then◌else◌}

abbrev pub OkWith : {E A : Type 0} → (A → Type 0) → Result E A → Type 0
OkWith P (ok a) = P a
OkWith P (err e) = Unit {0}

-- A property of both branches.
pub choose_lem :
    {A : Type 0} (P : A → Type 0) (b : Bool) (x y : A)
    → (b ≡ true → P x)
    → (b ≡ false → P y)
    → P (if b then x else y)
choose_lem P true x y p q = p refl
choose_lem P false x y p q = q refl

module _ {E A : Type 0} where
  pub ok_inj : (a b : A) → ◌≡◌ {A = Result E A} (ok a) (ok b) → a ≡ b
  ok_inj a b e = cc

  module _ (P : A → Type 0) where
    pub ok-OkWith : (x : Result E A) → ((a : A) → x ≡ ok a → P a) → OkWith P x
    ok-OkWith (ok a) f = f a refl
    ok-OkWith (err e) f = tt

    pub OkWith-ok : (x : Result E A) {a : A} → OkWith P x → x ≡ ok a → P a
    OkWith-ok (ok b) {a} p e = rw (sym (ok_inj b a e)) p
    OkWith-ok (err x) p e = cc

    pub choose_OkWith :
        (b : Bool) (x y : Result E A)
        → (b ≡ true → OkWith P x)
        → (b ≡ false → OkWith P y)
        → OkWith P (if b then x else y)
    choose_OkWith true x y p q = p refl
    choose_OkWith false x y p q = q refl

    pub bind-OkWith :
        {B : Type 0} (Q : B → Type 0) (x : Result E A) (f : A → Result E B)
        → OkWith P x
        → ((a : A) → P a → OkWith Q (f a))
        → OkWith Q (x >>= f)
    bind-OkWith Q (ok a) f p g = g a p
    bind-OkWith Q (err e) f p g = tt
