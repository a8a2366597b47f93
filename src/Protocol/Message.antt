-- ===== src/Protocol/Message.antt =====
-- internal/protocol/protocol.go and messages.go: the messages, their checks, and the error codes.
-- A message behind a pointer is the message: no code path holds a nil one.
use dproxy.Base.{ℕ, Bool, not, ◌||◌, Option, none, some, ltb, ◌==◌, if◌then◌else◌}
use dproxy.Policy.Decision.{
  DenyReason, deny_none, malformed_authority, ip_literal, port_not_allowed, not_allowlisted,
  resolution_failed, non_public_address,
}
use dproxy.Policy.Destination.{Destination, allowed_port, is_zero}
use dproxy.Config.Token.{Token, token_is_zero, token_len, min_token_bytes}

-- The errors of the codec; their prose is left out. `clean_end` is `io.EOF`.
pub data CodecError : Type 0 where
  malformed_message message_too_large clean_end : CodecError
  unknown_message_type unsupported_version : ℕ → CodecError

pub data Message : Type 0 where
  hello : ℕ → Token → Message
  hello_ok : ℕ → Message
  open_to : Destination → Message
  open_ok : Message
  open_error : ℕ → Message

-- `Supported`: `Version1` is the only version.
abbrev pub supported : ℕ → Bool
supported version = version == 1

-- `MessageType.Valid`
abbrev pub type_valid : ℕ → Bool
type_valid t = t == 1 || (t == 2 || (t == 3 || (t == 4 || t == 5)))

-- The values of `ErrorCode`.
abbrev pub error_unauthenticated : ℕ
error_unauthenticated = 1

abbrev pub error_forbidden_destination : ℕ
error_forbidden_destination = 2

abbrev pub error_resolution_failed : ℕ
error_resolution_failed = 3

abbrev pub error_address_rejected : ℕ
error_address_rejected = 4

abbrev pub error_dial_failed : ℕ
error_dial_failed = 5

abbrev pub error_limit_exceeded : ℕ
error_limit_exceeded = 6

abbrev pub error_malformed : ℕ
error_malformed = 7

abbrev pub error_unsupported_version : ℕ
error_unsupported_version = 8

abbrev pub error_internal : ℕ
error_internal = 9

-- `ErrorCode.Valid`
unfoldable pub code_valid : ℕ → Bool
code_valid c =
    c == error_unauthenticated
    || (c == error_forbidden_destination
        || (c == error_resolution_failed
            || (c == error_address_rejected
                || (c == error_dial_failed
                    || (c == error_limit_exceeded
                        || (c == error_malformed
                            || (c == error_unsupported_version || c == error_internal)))))))

-- `Validate` of each message; `none` is nil.
unfoldable pub validate : Message → Option CodecError
unfolding token_is_zero token_len is_zero code_valid
validate (hello version token) =
    if not (supported version)
    then some (unsupported_version version)
    else if token_is_zero token
    then some malformed_message
    else if ltb (token_len token) min_token_bytes
    then some malformed_message
    else none
validate (hello_ok version) =
    if not (supported version) then some (unsupported_version version) else none
validate (open_to d) =
    if is_zero d
    then some malformed_message
    else if not (d.port == allowed_port)
    then some malformed_message
    else none
validate open_ok = none
validate (open_error code) = if not (code_valid code) then some malformed_message else none

unfoldable pub error_code_for : DenyReason → ℕ
error_code_for resolution_failed = error_resolution_failed
error_code_for non_public_address = error_address_rejected
error_code_for malformed_authority = error_forbidden_destination
error_code_for ip_literal = error_forbidden_destination
error_code_for port_not_allowed = error_forbidden_destination
error_code_for not_allowlisted = error_forbidden_destination
error_code_for deny_none = error_internal
