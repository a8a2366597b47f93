-- ===== src/Tests/Config.antt =====
-- The theorems of the configuration at concrete inputs, with a stand-in for the digest.
use dproxy.Base.{◌<◌, ◌≤◌, ◌≡◌, refl, ◌≢◌, ◌↔◌, true, ok, [], ◌∷◌, length}
use dproxy.Base.Text.{Bytes, codes}
use dproxy.Config.Token.{Token, TokenSet, new_token_set, token_set_contains, token_is_zero}
use dproxy.Config.Token.Rotation.{SameDigest, token_set_contains_iff}

abbrev digest : Bytes → Bytes
digest s = s

abbrev secret : Token
secret = record { value = codes "0123456789abcdef0123456789abcdef" }

abbrev secrets : TokenSet digest
secrets = record { digests = codes "0123456789abcdef0123456789abcdef" ∷ [] }

secrets-built : new_token_set digest (secret ∷ []) ≡ ok secrets
unfolding new_token_set token_is_zero
secrets-built = refl

token_set_contains_iff_example :
    (0 < length (secret ∷ []))
    × (length (secret ∷ []) ≤ 2)
    × ((token_set_contains digest secrets secret ≡ true)
        ↔ ((secret.value ≢ []) × SameDigest digest (digest secret.value) (secret ∷ [])))
token_set_contains_iff_example =
    token_set_contains_iff digest (secret ∷ []) secrets secret secrets-built
