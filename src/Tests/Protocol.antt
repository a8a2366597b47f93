-- ===== src/Tests/Protocol.antt =====
-- The theorems of the codec at concrete inputs.
use dproxy.Base.{◌≡◌, ◌↔◌, refl, ok, [], ◌∷◌, ◌++◌}
use dproxy.Base.Text.{Bytes}
use dproxy.Protocol.Message.{Message, open_error, validate, code_valid}
use dproxy.Protocol.Codec.{encode, decode, unmarshal_message, marshal_message}
use dproxy.Protocol.Codec.Decoded.{IsMessage, Read, decode_iff, decode-IsMessage}
use dproxy.Protocol.Codec.RoundTrip.{decode-encode}

abbrev refusal : Message
refusal = open_error 2

abbrev refusal_frame : Bytes
refusal_frame = 0 ∷ 0 ∷ 0 ∷ 3 ∷ 5 ∷ 0 ∷ 2 ∷ []

refusal-read : decode 4096 (refusal_frame ++ 7 ∷ []) ≡ (ok refusal, 7 ∷ [])
unfolding decode unmarshal_message validate code_valid
refusal-read = refl

decode-IsMessage_example : IsMessage refusal
decode-IsMessage_example =
    decode-IsMessage 4096 (refusal_frame ++ 7 ∷ []) refusal (7 ∷ []) refusal-read

decode_iff_example :
    (decode 4096 (refusal_frame ++ 7 ∷ []) ≡ (ok refusal, 7 ∷ []))
    ↔ Read 4096 (refusal_frame ++ 7 ∷ []) refusal (7 ∷ [])
decode_iff_example = decode_iff 4096 (refusal_frame ++ 7 ∷ []) refusal (7 ∷ [])

refusal-written : encode 4096 refusal ≡ ok refusal_frame
unfolding encode marshal_message validate code_valid
refusal-written = refl

decode-encode_example : decode 4096 (refusal_frame ++ 7 ∷ []) ≡ (ok refusal, 7 ∷ [])
decode-encode_example = decode-encode 4096 refusal (7 ∷ []) decode-IsMessage_example refusal-written
