-- ===== src/Base/Text.antt =====
-- What the source uses of Go's `strings` and `bytes` packages, over byte lists.
use Prim.Native.Char.{code}
use Prim.Native.String.{String}
use Prim.Native.Nat.{ℕ, ◌+◌, ◌-◌}
use mathlib.Core.Path.{◌≡◌}
use mathlib.Core.Logic.{◌↔◌}
use mathlib.Core.Bool.{Bool, true, false, ◌&&◌, ◌||◌}
use mathlib.Core.List.{List, [], ◌∷◌, reverse}
use mathlib.Core.Option.{Option, none, some}
use native.Mathlib.Omega.{arith}
use dproxy.Base.Tests.{leb, ◌==◌, if◌then◌else◌, within}
use dproxy.Base.Lists.{length, drop}

abbrev pub Bytes : Type 0
Bytes = List ℕ

-- The bytes of an ASCII literal.
abbrev pub codes : String → Bytes
codes String.[] = []
codes (String.◌∷◌ c s) = code c ∷ codes s

-- `a == b` on strings
unfoldable pub equal : Bytes → Bytes → Bool
equal [] [] = true
equal [] (d ∷ t) = false
equal (c ∷ s) [] = false
equal (c ∷ s) (d ∷ t) = c == d && equal s t

pub equal_iff : (s t : Bytes) → (equal s t ≡ true) ↔ (s ≡ t)
unfolding equal
equal_iff [] [] = ground arith
equal_iff [] (d ∷ t) = ground arith
equal_iff (c ∷ s) [] = ground arith
equal_iff (c ∷ s) (d ∷ t) = ground (arith, equal_iff s t)

-- `strings.HasPrefix`
unfoldable pub has_prefix : Bytes → Bytes → Bool
has_prefix s [] = true
has_prefix [] (p ∷ ps) = false
has_prefix (c ∷ s) (p ∷ ps) = c == p && has_prefix s ps

-- `strings.HasSuffix`
unfoldable pub has_suffix : Bytes → Bytes → Bool
unfolding equal
has_suffix s suffix =
    leb (length suffix) (length s) && equal (drop (length s - length suffix) s) suffix

-- `strings.Contains` of one byte
unfoldable pub contains : Bytes → ℕ → Bool
contains [] b = false
contains (c ∷ s) b = c == b || contains s b

-- `strings.Cut` at one byte
unfoldable pub cut : ℕ → Bytes → Option (Bytes × Bytes)
cut sep [] = none
cut sep (c ∷ s) = elim (c == sep) [
  | true ↦ some ([], s)
  | false ↦ elim (cut sep s) [ none ↦ none | some (before, after) ↦ some (c ∷ before, after) ]
]

abbrev pub cons_head : ℕ → List Bytes → List Bytes
cons_head c [] = (c ∷ []) ∷ []
cons_head c (p ∷ ps) = (c ∷ p) ∷ ps

-- `strings.Split` at one byte
unfoldable pub split : ℕ → Bytes → List Bytes
split sep [] = [] ∷ []
split sep (c ∷ s) = let rest = split sep s in if c == sep then [] ∷ rest else cons_head c rest

-- `strings.TrimSuffix(s, ".")` and the like, for a suffix of one byte
unfoldable pub trim_suffix : ℕ → Bytes → Bytes
trim_suffix b [] = []
trim_suffix b (c ∷ []) = if c == b then [] else c ∷ []
trim_suffix b (c ∷ d ∷ s) = c ∷ trim_suffix b (d ∷ s)

-- `strings.TrimLeft`, for a set of ASCII bytes
unfoldable pub trim_left : (ℕ → Bool) → Bytes → Bytes
trim_left cut_set [] = []
trim_left cut_set (c ∷ s) = let rest = trim_left cut_set s in if cut_set c then rest else c ∷ s

-- `strings.Trim`, for a set of ASCII bytes
unfoldable pub trim : (ℕ → Bool) → Bytes → Bytes
unfolding trim_left
trim cut_set s = reverse (trim_left cut_set (reverse (trim_left cut_set s)))

-- `strings.ToLower`. Two code points outside ASCII have an ASCII lower case: U+212A, the Kelvin
-- sign (bytes 226, 132, 170), and U+0130, the capital I with a dot (bytes 196, 176). Every other
-- code point outside ASCII stays outside ASCII; how it is folded is left out, since no caller of
-- the code modelled here accepts the result.
unfoldable pub to_lower : Bytes → Bytes
to_lower [] = []
to_lower (c ∷ []) = (if within b'A' b'Z' c then c + 32 else c) ∷ []
to_lower (c ∷ d ∷ []) =
    let rest = to_lower (d ∷ []) in
    if within b'A' b'Z' c
    then (c + 32) ∷ rest
    else if c == 0xc4 && d == 0xb0
    then b'i' ∷ []
    else c ∷ rest
to_lower (c ∷ d ∷ e ∷ s) =
    let rest = to_lower (d ∷ e ∷ s) in
    let after_two = to_lower (e ∷ s) in
    let after_three = to_lower s in
    if within b'A' b'Z' c
    then (c + 32) ∷ rest
    else if c == 0xc4 && d == 0xb0
    then b'i' ∷ after_two
    else if c == 0xe2 && (d == 0x84 && e == 0xaa)
    then b'k' ∷ after_three
    else c ∷ rest
