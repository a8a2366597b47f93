-- ===== src/Tests/Pins.antt =====
-- The theorems of pins at concrete inputs, with stand-ins for the digest and the decoders.
use dproxy.Base.{
  ◌≤◌, ◌≡◌, ◌≢◌, ◌↔◌, refl, true, Option, some, none, ok, [], ◌∷◌, ◌++◌, length, drop,
}
use dproxy.Base.Text.{Bytes, codes, equal, cut, to_lower}
use dproxy.Base.Space.{trim_space}
use dproxy.Config.Pin.{
  PinSet, parse_pin, pin_string, pin_from_spki, parse_pin_set, new_pin_set, contains_spki,
  decode_digest, pin_is_zero,
}
use dproxy.Config.Pin.Accepted.{AnyPin, parse_pin_set_iff, parse_pin-pin_string}

abbrev digest : Bytes → Bytes
digest s = codes "0123456789abcdef0123456789abcdef"

abbrev no_hex : Bytes → Option Bytes
no_hex s = none

-- The text behind twelve characters.
abbrev plain : Bytes → Bytes
plain d = codes "base64-here-" ++ d

abbrev decoded : Bytes → Option Bytes
decoded s = some (drop 12 s)

parse_pin-pin_string_example :
    parse_pin digest no_hex decoded plain (
      pin_string digest no_hex decoded plain
        (pin_from_spki digest no_hex decoded plain (codes "key")))
    ≡ ok (pin_from_spki digest no_hex decoded plain (codes "key"))
parse_pin-pin_string_example =
    parse_pin-pin_string digest no_hex decoded plain (codes "key") refl refl refl refl

abbrev entry : Bytes
entry = codes "SHA256:base64-here-0123456789abcdef0123456789abcdef"

abbrev pins : PinSet
pins = record {
  pins =
      record {
        algorithm = codes "sha256";
        digest = codes "0123456789abcdef0123456789abcdef";
        set = true;
      }
      ∷ [];
}

pins-parsed : parse_pin_set digest no_hex decoded plain (entry ∷ []) ≡ ok pins
unfolding parse_pin_set parse_pin new_pin_set decode_digest pin_is_zero equal cut to_lower
    trim_space
pins-parsed = refl

parse_pin_set_iff_example :
    (length pins.pins ≤ 16)
    × ((contains_spki digest no_hex decoded plain pins (codes "key") ≡ true) ↔ (
        (codes "key" ≢ [])
        × AnyPin digest no_hex decoded plain (entry ∷ []) (digest (codes "key"))))
parse_pin_set_iff_example =
    parse_pin_set_iff digest no_hex decoded plain (entry ∷ []) (codes "key") pins-parsed
