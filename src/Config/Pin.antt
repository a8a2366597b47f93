-- ===== src/Config/Pin.antt =====
-- internal/config/pin.go and pinset.go: pins of public keys. SHA-256 and the decoders of hex and
-- base64 are parameters; a constant-time comparison is equality.
pub mod Accepted
use dproxy.Base.{
  ℕ, ◌+◌, Bool, true, false, not, ◌||◌, Option, none, some, List, [], ◌∷◌, ◌++◌, ltb, ◌==◌,
  if◌then◌else◌, Result, ok, err, ◌>>=◌, length,
}
use dproxy.Base.Text.{Bytes, codes, equal, cut, to_lower}
use dproxy.Base.Space.{trim_space}

abbrev pub digest_size : ℕ
digest_size = 32

abbrev pub max_client_pins : ℕ
max_client_pins = 16

pub record Pin : Type 0 where
  pub algorithm : Bytes
  pub digest : Bytes
  pub set : Bool

-- `IsZero`
unfoldable pub pin_is_zero : Pin → Bool
pin_is_zero p = not p.set

-- `Matches`
unfoldable pub pin_matches : Pin → Bytes → Bool
unfolding equal
pin_matches p digest =
    if not p.set || not (length digest == digest_size) then false else equal p.digest digest

pub data PinError : Type 0 where
  empty_pin no_algorithm unsupported_algorithm bad_digest wrong_size : PinError

pub data PinSetError : Type 0 where
  no_pins too_many_pins empty_pin_entry : PinSetError
  invalid_entry : ℕ → PinSetError

pub record PinSet : Type 0 where
  pub pins : List Pin

has_zero : List Pin → Bool
unfolding pin_is_zero
has_zero [] = false
has_zero (p ∷ ps) = pin_is_zero p || has_zero ps

unfoldable pub new_pin_set : List Pin → Result PinSetError PinSet
unfolding has_zero
new_pin_set pins =
    if length pins == 0
    then err no_pins
    else if ltb max_client_pins (length pins)
    then err too_many_pins
    else if has_zero pins
    then err empty_pin_entry
    else ok (record { pins = pins })

module _ (sha256 : Bytes → Bytes) (hex_decode base64_decode : Bytes → Option Bytes)
    (base64_encode : Bytes → Bytes) where
  -- `String`
  unfoldable pub pin_string : Pin → Bytes
  pin_string p = if not p.set then codes "<unset>" else p.algorithm ++ b':' ∷ base64_encode p.digest

  -- `MatchesSPKI`
  unfoldable pub matches_spki : Pin → Bytes → Bool
  unfolding pin_matches
  matches_spki p spki = pin_matches p (sha256 spki)

  -- `PinFromSPKI`
  unfoldable pub pin_from_spki : Bytes → Pin
  pin_from_spki spki = record { algorithm = codes "sha256"; digest = sha256 spki; set = true }

  -- `decodeDigest`: hex if the length is that of hex and it is hex, else base64.
  unfoldable pub decode_digest : Bytes → Option Bytes
  decode_digest encoded =
      if length encoded == 64
      then elim (hex_decode encoded) [ some d ↦ some d | none ↦ base64_decode encoded ]
      else base64_decode encoded

  finish_pin : Option Bytes → Result PinError Pin
  finish_pin none = err bad_digest
  finish_pin (some d) =
      if not (length d == digest_size)
      then err wrong_size
      else ok (record { algorithm = codes "sha256"; digest = d; set = true })

  parse_cut : Option (Bytes × Bytes) → Result PinError Pin
  unfolding finish_pin decode_digest to_lower equal
  parse_cut none = err no_algorithm
  parse_cut (some (algorithm, encoded)) =
      if not (equal (to_lower algorithm) (codes "sha256"))
      then err unsupported_algorithm
      else finish_pin (decode_digest encoded)

  unfoldable pub parse_pin : Bytes → Result PinError Pin
  unfolding parse_cut equal cut
  parse_pin raw =
      if equal (trim_space raw) [] then err empty_pin else parse_cut (cut b':' (trim_space raw))

  -- The loop of `ParsePinSet`, at the position of an entry.
  unfoldable pub parse_pins : ℕ → List Bytes → Result PinSetError (List Pin)
  unfolding parse_pin
  parse_pins position [] = ok []
  parse_pins position (entry ∷ entries) = elim (parse_pin entry) [
    | err e ↦ err (invalid_entry position)
    | ok p ↦ parse_pins (position + 1) entries >>= λ ps. ok (p ∷ ps)
  ]

  unfoldable pub parse_pin_set : List Bytes → Result PinSetError PinSet
  unfolding parse_pins new_pin_set
  parse_pin_set raw =
      if length raw == 0 then ok (record { pins = [] }) else parse_pins 1 raw >>= new_pin_set

  -- The comparing loop of `ContainsSPKI`: it runs over every pin.
  unfoldable pub match_pins : List Pin → Bytes → Bool → Bool
  unfolding matches_spki
  match_pins [] spki matched = matched
  match_pins (p ∷ ps) spki matched = match_pins ps spki (matches_spki p spki || matched)

  unfoldable pub contains_spki : PinSet → Bytes → Bool
  unfolding match_pins
  contains_spki s spki =
      if length s.pins == 0 || length spki == 0 then false else match_pins s.pins spki false
