-- ===== src/Config/Token.antt =====
-- internal/config/token.go: the shared secret and the accepted set. SHA-256 is a parameter; a
-- constant-time comparison is equality. Formatting, which only redacts, is left out.
pub mod Rotation
use dproxy.Base.{
  ℕ, Bool, false, ◌||◌, List, [], ◌∷◌, ltb, ◌==◌, if◌then◌else◌, Result, ok, err, ◌>>=◌, length,
}
use dproxy.Base.Text.{Bytes, equal, split}
use dproxy.Base.Space.{trim_space}

abbrev pub min_token_bytes : ℕ
min_token_bytes = 32

abbrev pub max_token_bytes : ℕ
max_token_bytes = 4094

abbrev pub max_server_tokens : ℕ
max_server_tokens = 2

pub record Token : Type 0 where
  pub value : Bytes

-- `IsZero`
unfoldable pub token_is_zero : Token → Bool
token_is_zero t = length t.value == 0

unfoldable pub token_len : Token → ℕ
token_len t = length t.value

-- `Equal`: an unloaded token equals nothing.
unfoldable pub token_equal : Token → Token → Bool
unfolding token_is_zero equal
token_equal t other =
    if token_is_zero t || token_is_zero other then false else equal t.value other.value

-- `EqualBytes`
unfoldable pub token_equal_bytes : Token → Bytes → Bool
unfolding token_is_zero equal
token_equal_bytes t candidate =
    if token_is_zero t || length candidate == 0 then false else equal t.value candidate

pub data TokenError : Type 0 where
  too_short too_long : TokenError
  no_tokens too_many_tokens empty_entry : TokenError

unfoldable pub new_token : Bytes → Result TokenError Token
new_token value =
    if ltb (length value) min_token_bytes
    then err too_short
    else if ltb max_token_bytes (length value)
    then err too_long
    else ok (record { value = value })

module _ (sha256 : Bytes → Bytes) where
  pub record TokenSet : Type 0 where
    pub digests : List Bytes

  digest_all : List Token → Result TokenError (List Bytes)
  unfolding token_is_zero
  digest_all [] = ok []
  digest_all (t ∷ ts) =
      let rest = digest_all ts in
      if token_is_zero t then err empty_entry else rest >>= λ ds. ok (sha256 t.value ∷ ds)

  unfoldable pub new_token_set : List Token → Result TokenError TokenSet
  unfolding digest_all
  new_token_set tokens =
      if length tokens == 0
      then err no_tokens
      else if ltb max_server_tokens (length tokens)
      then err too_many_tokens
      else digest_all tokens >>= λ ds. ok (record { digests = ds })

  -- The comparing loop of `Contains`: it runs over every digest.
  match_any : List Bytes → Bytes → Bool → Bool
  unfolding equal
  match_any [] candidate matched = matched
  match_any (d ∷ ds) candidate matched = match_any ds candidate (matched || equal d candidate)

  unfoldable pub token_set_contains : TokenSet → Token → Bool
  unfolding match_any token_is_zero
  token_set_contains s candidate =
      if token_is_zero candidate || length s.digests == 0
      then false
      else match_any s.digests (sha256 candidate.value) false

  -- The loop of `ReadSet` over the lines: blank lines are passed over.
  read_lines : List Bytes → Result TokenError (List Token)
  unfolding new_token
  read_lines [] = ok []
  read_lines (line ∷ lines) =
      let rest = read_lines lines in
      let value = trim_space line in
      if equal value [] then rest else new_token value >>= λ t. rest >>= λ ts. ok (t ∷ ts)

  -- `ReadSet` behind the checks of the file: what its text means.
  unfoldable pub read_set : Bytes → Result TokenError TokenSet
  unfolding read_lines new_token_set
  read_set raw = read_lines (split 10 (trim_space raw)) >>= new_token_set

-- `Read` behind the checks of the file.
unfoldable pub read_token : Bytes → Result TokenError Token
unfolding new_token
read_token raw = new_token (trim_space raw)
