-- ===== src/Base/Space.antt =====
-- `strings.TrimSpace`: the white space of Unicode, in UTF-8, off both ends.
use Prim.Native.Nat.{ℕ}
use mathlib.Core.Bool.{Bool, ◌&&◌, ◌||◌}
use mathlib.Core.List.{[], ◌∷◌, reverse}
use dproxy.Base.Tests.{◌==◌, if◌then◌else◌, within}
use dproxy.Base.Text.{Bytes}

-- `'\t', '\n', '\v', '\f', '\r', ' '`
abbrev pub is_ascii_space : ℕ → Bool
is_ascii_space c = within 9 13 c || c == b' '

-- U+0085 and U+00A0
abbrev is_space_2 : ℕ → ℕ → Bool
is_space_2 c d = c == 0xc2 && (d == 0x85 || d == 0xa0)

-- U+1680, U+2000 to U+200A, U+2028, U+2029, U+202F, U+205F and U+3000
abbrev is_space_3 : ℕ → ℕ → ℕ → Bool
is_space_3 c d e =
    (c == 0xe1 && (d == 0x9a && e == 0x80))
    || (c == 0xe2 && (d == 0x80 && (within 0x80 0x8a e || (within 0xa8 0xa9 e || e == 0xaf))))
    || (c == 0xe2 && (d == 0x81 && e == 0x9f))
    || (c == 0xe3 && (d == 0x80 && e == 0x80))

unfoldable pub trim_space_left : Bytes → Bytes
trim_space_left [] = []
trim_space_left (c ∷ []) = if is_ascii_space c then [] else c ∷ []
trim_space_left (c ∷ d ∷ []) =
    let rest = trim_space_left (d ∷ []) in
    if is_ascii_space c then rest else if is_space_2 c d then [] else c ∷ d ∷ []
trim_space_left (c ∷ d ∷ e ∷ s) =
    let rest = trim_space_left (d ∷ e ∷ s) in
    let after_two = trim_space_left (e ∷ s) in
    let after_three = trim_space_left s in
    if is_ascii_space c
    then rest
    else if is_space_2 c d
    then after_two
    else if is_space_3 c d e
    then after_three
    else c ∷ d ∷ e ∷ s

-- The same from the right end, on the reversed text.
unfoldable pub trim_space_right : Bytes → Bytes
trim_space_right [] = []
trim_space_right (c ∷ []) = if is_ascii_space c then [] else c ∷ []
trim_space_right (d ∷ c ∷ []) =
    let rest = trim_space_right (c ∷ []) in
    if is_ascii_space d then rest else if is_space_2 c d then [] else d ∷ c ∷ []
trim_space_right (e ∷ d ∷ c ∷ s) =
    let rest = trim_space_right (d ∷ c ∷ s) in
    let after_two = trim_space_right (c ∷ s) in
    let after_three = trim_space_right s in
    if is_ascii_space e
    then rest
    else if is_space_2 d e
    then after_two
    else if is_space_3 c d e
    then after_three
    else e ∷ d ∷ c ∷ s

unfoldable pub trim_space : Bytes → Bytes
unfolding trim_space_left trim_space_right
trim_space s = reverse (trim_space_right (reverse (trim_space_left s)))
