-- ===== src/Protocol/Codec.antt =====
-- internal/protocol/codec.go: frames of a four-byte length and a body. The reader gives its bytes
-- and then the end; a write that fails ends the session and is left to the callers.
pub mod RoundTrip
pub mod Decoded
use dproxy.Base.{
  ℕ, ◌+◌, not, ◌||◌, Option, none, some, [], ◌∷◌, ◌++◌, ltb, ◌==◌, if◌then◌else◌, Result, ok, err,
  ◌>>=◌, length, take, drop,
}
use dproxy.Base.Binary.{be16, put16, be32, put32}
use dproxy.Base.Text.{Bytes}
use dproxy.Policy.Destination.{new_destination}
use dproxy.Config.Token.{new_token}
use dproxy.Protocol.Message.{
  CodecError, malformed_message, message_too_large, unknown_message_type, unsupported_version,
  clean_end, Message, hello, hello_ok, open_to, open_ok, open_error, validate, supported,
  type_valid,
}

unfoldable pub marshal_message : Message → Result CodecError Bytes
marshal_message (hello version token) = ok (1 ∷ version ∷ token.value)
marshal_message (hello_ok version) = ok (2 ∷ version ∷ [])
marshal_message (open_to d) =
    if ltb 65535 (length d.host)
    then err malformed_message
    else ok (3 ∷ (put16 (length d.host) ++ (d.host ++ put16 d.port)))
marshal_message open_ok = ok (4 ∷ [])
marshal_message (open_error code) = ok (5 ∷ put16 code)

-- The limit and the length prefix of `Encode`. A limit below 0 acts as 0.
frame : ℕ → Bytes → Result CodecError Bytes
frame max body =
    if max == 0 || ltb max (length body)
    then err message_too_large
    else ok (put32 (length body) ++ body)

encode_checked : ℕ → Option CodecError → Message → Result CodecError Bytes
unfolding frame marshal_message
encode_checked max (some e) m = err e
encode_checked max none m = marshal_message m >>= frame max

-- `Encode`: the bytes that it writes.
unfoldable pub encode : ℕ → Message → Result CodecError Bytes
unfolding encode_checked validate
encode max m = encode_checked max (validate m) m

unmarshal_hello : Bytes → Result CodecError Message
unfolding new_token
unmarshal_hello [] = err malformed_message
unmarshal_hello (version ∷ secret) =
    if not (supported version)
    then err (unsupported_version version)
    else elim (new_token secret) [ err e ↦ err malformed_message | ok t ↦ ok (hello version t) ]

unmarshal_hello_ok : Bytes → Result CodecError Message
unmarshal_hello_ok (version ∷ []) = ok (hello_ok version)
unmarshal_hello_ok _ = err malformed_message

-- The two bytes of the port behind the hostname.
open_at_port : Bytes → Bytes → Result CodecError Message
unfolding new_destination
open_at_port host (p ∷ q ∷ []) = elim (new_destination host (be16 p q)) [
  | err e ↦ err malformed_message
  | ok d ↦ ok (open_to d)
]
open_at_port host _ = err malformed_message

unmarshal_open : Bytes → Result CodecError Message
unfolding open_at_port
unmarshal_open (a ∷ b ∷ rest) =
    if be16 a b == 0 || not (length rest == be16 a b + 2)
    then err malformed_message
    else open_at_port (take (be16 a b) rest) (drop (be16 a b) rest)
unmarshal_open _ = err malformed_message

unmarshal_open_ok : Bytes → Result CodecError Message
unmarshal_open_ok [] = ok open_ok
unmarshal_open_ok (c ∷ rest) = err malformed_message

unmarshal_open_error : Bytes → Result CodecError Message
unmarshal_open_error (a ∷ b ∷ []) = ok (open_error (be16 a b))
unmarshal_open_error _ = err malformed_message

-- The `Validate` at the end of `unmarshalMessage`.
validated : Message → Result CodecError Message
unfolding validate
validated m = elim (validate m) [ some e ↦ err e | none ↦ ok m ]

unmarshal_payload : ℕ → Bytes → Result CodecError Message
unfolding unmarshal_hello unmarshal_hello_ok unmarshal_open unmarshal_open_ok unmarshal_open_error
unmarshal_payload t payload =
    if t == 1
    then unmarshal_hello payload
    else if t == 2
    then unmarshal_hello_ok payload
    else if t == 3
    then unmarshal_open payload
    else if t == 4
    then unmarshal_open_ok payload
    else unmarshal_open_error payload

-- The decoder never calls it with an empty body.
unfoldable pub unmarshal_message : Bytes → Result CodecError Message
unfolding unmarshal_payload validated
unmarshal_message [] = err malformed_message
unmarshal_message (t ∷ payload) =
    if not (type_valid t)
    then err (unknown_message_type t)
    else unmarshal_payload t payload >>= validated

-- The body behind the length prefix.
decode_body : ℕ → ℕ → Bytes → Result CodecError Message × Bytes
unfolding unmarshal_message
decode_body max len rest =
    if len == 0
    then (err malformed_message, rest)
    else if max == 0 || ltb max len
    then (err message_too_large, rest)
    else if ltb (length rest) len
    then (err malformed_message, [])
    else (unmarshal_message (take len rest), drop len rest)

-- `Decode`: the result, and what the reader holds then.
unfoldable pub decode : ℕ → Bytes → Result CodecError Message × Bytes
unfolding decode_body
decode max [] = (err clean_end, [])
decode max (a ∷ b ∷ c ∷ d ∷ rest) = decode_body max (be32 a b c d) rest
decode max _ = (err malformed_message, [])
