-- ===== src/Base/Binary.antt =====
-- `encoding/binary`'s `BigEndian` at 16, 32 and 64 bits.
use Prim.Native.Nat.{ℕ, ◌+◌, ◌*◌, ◌/◌, ◌%◌, ◌^◌}
use mathlib.Core.List.{[], ◌∷◌}
use dproxy.Base.Text.{Bytes}

abbrev pub be16 : ℕ → ℕ → ℕ
be16 a b = a * 256 + b

abbrev pub put16 : ℕ → Bytes
put16 n = (n / 256 % 256) ∷ (n % 256) ∷ []

abbrev pub be32 : ℕ → ℕ → ℕ → ℕ → ℕ
be32 a b c d = a * 2 ^ 24 + b * 2 ^ 16 + c * 2 ^ 8 + d

abbrev pub put32 : ℕ → Bytes
put32 n = (n / 2 ^ 24 % 256) ∷ (n / 2 ^ 16 % 256) ∷ (n / 2 ^ 8 % 256) ∷ (n % 256) ∷ []

abbrev pub put64 : ℕ → Bytes
put64 n =
    (n / 2 ^ 56 % 256)
    ∷ (n / 2 ^ 48 % 256)
    ∷ (n / 2 ^ 40 % 256)
    ∷ (n / 2 ^ 32 % 256)
    ∷ (n / 2 ^ 24 % 256)
    ∷ (n / 2 ^ 16 % 256)
    ∷ put16 n
