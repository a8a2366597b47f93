-- ===== src/Protocol/Codec/RoundTrip.antt =====
-- `Decode` on the frames that `Encode` writes.
use dproxy.Base.{
  ℕ, ◌/◌, ◌%◌, ◌^◌, ◌≤◌, ◌<◌, ◌≡◌, refl, sym, ◌∙◌, ◌≢◌, true, none, [], ◌∷◌, ◌++◌, arith, ok,
  length, length-append, take-append, drop-append,
}
use dproxy.Base.Binary.{be16, put16, be32, put32}
use dproxy.Base.Text.{Bytes, equal_iff}
use dproxy.Policy.Destination.{Destination, is_zero}
use dproxy.Config.Token.{Token, new_token, min_token_bytes, max_token_bytes}
use dproxy.Protocol.Message.{
  Message, hello, hello_ok, open_to, open_ok, open_error, validate, code_valid,
}
use dproxy.Protocol.Codec.{
  marshal_message, frame, encode_checked, encode, unmarshal_hello, unmarshal_hello_ok, open_at_port,
  unmarshal_open, unmarshal_open_ok, unmarshal_open_error, validated, unmarshal_message,
  decode_body, decode,
}
use dproxy.Policy.Destination.Authority.{IsDestination, new_destination_self}
use dproxy.Protocol.Codec.Decoded.{IsMessage}

-- The body of a message, and what the decoder makes of it.
record Body (m : Message) : Type 0 where
  body : Bytes
  marshalled : marshal_message m ≡ ok body
  unmarshalled : unmarshal_message body ≡ ok m
  not_empty : 0 < length body
  bounded : length body ≤ 4096
  valid : validate m ≡ none

hello-Body :
    (t : Token)
    → min_token_bytes ≤ length t.value
    → length t.value ≤ max_token_bytes
    → Body (hello 1 t)
unfolding marshal_message unmarshal_message unmarshal_hello new_token validate
hello-Body t low high = record {
  body = 1 ∷ 1 ∷ t.value;
  marshalled = refl;
  unmarshalled = ground arith;
  not_empty = omega arith;
  bounded = omega arith;
  valid = ground arith;
}

open_at_port_self :
    (d : Destination) → IsDestination d → open_at_port d.host (put16 d.port) ≡ ok (open_to d)
unfolding open_at_port
open_at_port_self d v =
    let port_bytes : be16 (d.port / 256 % 256) (d.port % 256) ≡ d.port =
      omega (arith, v.port_allowed) in
    rw (port_bytes, open_at_port) (rw (new_destination_self d v))

host_length : (d : Destination) → IsDestination d → (0 < length d.host) × (length d.host ≤ 253)
host_length d v = (positive d.host v.hostname.not_nil, v.hostname.fits)
  where
    positive : (s : Bytes) → s ≢ [] → 0 < length s
    positive [] h = absurd (h refl)
    positive (c ∷ s) h = omega arith

unmarshal_open_self :
    (d : Destination)
    → IsDestination d
    → unmarshal_open (put16 (length d.host) ++ (d.host ++ put16 d.port)) ≡ ok (open_to d)
unfolding unmarshal_open
unmarshal_open_self d v =
    let (some_host, short) = host_length d v in
    let len : be16 (length d.host / 256 % 256) (length d.host % 256) ≡ length d.host =
      omega arith in
    rw
      (
        len,
        length-append d.host (put16 d.port),
        take-append d.host (put16 d.port),
        drop-append d.host (put16 d.port),
        open_at_port_self d v,
      )
      (ground arith)

open_valid : (d : Destination) → IsDestination d → validate (open_to d) ≡ none
unfolding validate is_zero
open_valid d v = ground (arith, equal_iff d.host [], v.hostname.not_nil, v.port_allowed)

open-Body : (d : Destination) → IsDestination d → Body (open_to d)
unfolding marshal_message unmarshal_message
open-Body d v =
    let (some_host, short) = host_length d v in
    let valid = open_valid d v in
    record {
      body = 3 ∷ (put16 (length d.host) ++ (d.host ++ put16 d.port));
      marshalled = ground arith;
      unmarshalled = rw (unmarshal_open_self d v) (rw (valid, validated));
      not_empty = omega arith;
      bounded = omega (arith, length-append d.host (put16 d.port));
      valid = valid;
    }

code-below : (c : ℕ) → code_valid c ≡ true → c < 10
unfolding code_valid
code-below c h = ground arith

open_error-Body : (c : ℕ) → code_valid c ≡ true → Body (open_error c)
unfolding marshal_message unmarshal_message unmarshal_open_error validate
open_error-Body c h =
    let low = code-below c h in
    let back : be16 (c / 256 % 256) (c % 256) ≡ c = omega arith in
    record {
      body = 5 ∷ put16 c;
      marshalled = refl;
      unmarshalled = ground (arith, h, back);
      not_empty = omega arith;
      bounded = omega arith;
      valid = rw h;
    }

message-Body : (m : Message) → IsMessage m → Body m
unfolding marshal_message unmarshal_message unmarshal_hello_ok unmarshal_open_ok validate
message-Body (hello v t) (one, low, high) = rw one (hello-Body t low high)
message-Body (hello_ok v) one = rw one (record {
  body = 2 ∷ 1 ∷ [];
  marshalled = refl;
  unmarshalled = refl;
  not_empty = omega arith;
  bounded = omega arith;
  valid = refl;
})
message-Body (open_to d) v = open-Body d v
message-Body open_ok v = record {
  body = 4 ∷ [];
  marshalled = refl;
  unmarshalled = refl;
  not_empty = omega arith;
  bounded = omega arith;
  valid = refl;
}
message-Body (open_error c) v = open_error-Body c v

encode-body : (max : ℕ) (m : Message) (b : Body m) → encode max m ≡ frame max b.body
unfolding encode
encode-body max m b = rw (b.valid, encode_checked) (rw b.marshalled)

frame-ok :
    (max : ℕ) (body : Bytes) {bytes : Bytes}
    → frame max body ≡ ok bytes
    → (0 < max) × (length body ≤ max) × (bytes ≡ put32 (length body) ++ body)
unfolding frame
frame-ok max body e = ground arith

decode-frame :
    (max : ℕ) (body rest : Bytes)
    → 0 < max
    → 0 < length body
    → length body ≤ max
    → length body ≤ 4096
    → decode max ((put32 (length body) ++ body) ++ rest) ≡ (unmarshal_message body, rest)
unfolding decode decode_body
decode-frame max body rest room some_byte fits small =
    let n = length body in
    let len : be32 (n / 2 ^ 24 % 256) (n / 2 ^ 16 % 256) (n / 2 ^ 8 % 256) (n % 256) ≡ n =
      omega arith in
    rw (len, take-append body rest, drop-append body rest) (ground (arith, length-append body rest))

-- `Decode` reads back every valid message that `Encode` wrote, leaves what follows the frame
-- unread, and needs no other bytes.
pub decode-encode :
    (max : ℕ) (m : Message) (rest : Bytes) {bytes : Bytes}
    → IsMessage m
    → encode max m ≡ ok bytes
    → decode max (bytes ++ rest) ≡ (ok m, rest)
decode-encode max m rest v e =
    let b = message-Body m v in
    let (room, fits, same) = frame-ok max b.body (sym (encode-body max m b) ∙ e) in
    rw (same, decode-frame max b.body rest room b.not_empty fits b.bounded, b.unmarshalled)

-- Every valid message fits a limit of 4096 bytes, the default, or more.
pub encode_total :
    (max : ℕ) (m : Message) → IsMessage m → 4096 ≤ max → (bytes : Bytes) × (encode max m ≡ ok bytes)
unfolding frame
encode_total max m v room =
    let b = message-Body m v in
    (put32 (length b.body) ++ b.body, rw (encode-body max m b) (ground (arith, b.bounded)))
