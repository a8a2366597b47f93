-- ===== src/Relay/Session.antt =====
-- internal/relay/server.go: `handleSession`, as the list of what it does. The inner TLS handshake,
-- the connection's deadlines and writes, and the dialer are given by the surroundings.
pub mod Authentication
pub mod Destinations
use dproxy.Base.{
  ℕ, Bool, true, false, not, ◌&&◌, List, [], ◌∷◌, ◌++◌, ltb, if◌then◌else◌, Result, ok, err,
}
use dproxy.Base.Text.{Bytes}
use dproxy.Net.Addr.{Addr}
use dproxy.Policy.Destination.{Destination}
use dproxy.Protocol.Message.{
  CodecError, Message, hello, hello_ok, open_to, open_ok, open_error, error_code_for,
}
use dproxy.Protocol.Codec.{encode, decode}
use dproxy.Policy.Checker.{Checker, resolve}
use dproxy.Config.Token.{TokenSet, token_set_contains}

-- The outcome of `AcceptInnerTLS`; a failure says whether it is `ErrClientPinMismatch`.
pub data Handshake : Type 0 where
  failed : Bool → Handshake
  established : Handshake

-- The reasons of `authenticationFailed`.
pub data FailureReason : Type 0 where
  inner_tls client_pin malformed_hello invalid_token : FailureReason

-- What a session does, in order; what it only logs is left out. `sent` is a message written whole.
-- The deferred calls of `Close` come last, in reverse order.
pub data Action : Type 0 where
  failure_recorded : FailureReason → Action
  failures_reset : Action
  sent : Message → Action
  dialed : List Addr → ℕ → Action
  relayed : Action
  target_closed inner_closed : Action

module _ (sha256 : Bytes → Bytes) where
  -- The server's settings, and what happens around the session: the bytes that the peer sends
  -- before its end, which writes and deadline changes succeed, and whether the dial does.
  pub record Session : Type 0 where
    pub handshake : Handshake
    pub client_pins : ℕ
    pub max_control_message_bytes : ℕ
    pub tokens : TokenSet sha256
    pub checker : Checker
    pub input : Bytes
    pub deadline_set : Bool
    pub can_write : Message → Bool
    pub dial_succeeds : List Addr → ℕ → Bool
    pub deadline_cleared : Bool

  encodes : Result CodecError Bytes → Bool
  encodes (ok b) = true
  encodes (err e) = false

  -- `encoder.Encode(m) == nil`
  unfoldable pub can_send : Session → Message → Bool
  unfolding encodes
  can_send s m = encodes (encode s.max_control_message_bytes m) && s.can_write m

  -- `_ = encoder.Encode(OpenError{...})`, the last thing on its path.
  unfoldable pub refuse : Session → ℕ → List Action
  unfolding can_send
  refuse s code = if can_send s (open_error code) then sent (open_error code) ∷ [] else []

  -- Behind a successful dial: from here on `target.Close` is deferred.
  opened : Session → List Action
  unfolding can_send
  opened s =
      (if can_send s open_ok
        then (sent open_ok ∷ (if s.deadline_cleared then relayed ∷ [] else []))
        else [])
      ++ target_closed ∷ []

  unfoldable pub dial_target : Session → Destination → List Addr → List Action
  unfolding opened refuse
  dial_target s d addresses =
      dialed addresses d.port ∷ (if s.dial_succeeds addresses d.port then opened s else refuse s 5)

  unfoldable pub open_destination : Session → Destination → List Action
  unfolding dial_target refuse
  open_destination s d =
      let (addresses, decision) = resolve s.checker d in
      if not decision.allowed
      then refuse s (error_code_for decision.reason)
      else dial_target s d addresses

  on_open : Session → Result CodecError Message → List Action
  unfolding open_destination refuse
  on_open s (ok (open_to d)) = open_destination s d
  on_open s _ = refuse s 7

  -- From the accepted token on.
  unfoldable pub authenticated : Session → Bytes → List Action
  unfolding on_open can_send
  authenticated s rest =
      failures_reset
      ∷ (if can_send s (hello_ok 1)
          then sent (hello_ok 1) ∷ on_open s (decode s.max_control_message_bytes rest).0
          else [])

  on_hello : Session → Result CodecError Message → Bytes → List Action
  unfolding authenticated token_set_contains
  on_hello s (err e) rest = failure_recorded malformed_hello ∷ []
  on_hello s (ok (hello version token)) rest =
      if token_set_contains sha256 s.tokens token
      then authenticated s rest
      else failure_recorded invalid_token ∷ []
  on_hello s (ok _) rest = failure_recorded invalid_token ∷ []

  -- Behind the inner handshake.
  established_session : Session → List Action
  unfolding on_hello
  established_session s =
      if not s.deadline_set
      then []
      else let (first, rest) = decode s.max_control_message_bytes s.input in on_hello s first rest

  -- Of an established session `inner.Close` is deferred.
  on_handshake : Session → Handshake → List Action
  unfolding established_session
  on_handshake s (failed mismatch) =
      if ltb 0 s.client_pins
      then failure_recorded (if mismatch then client_pin else inner_tls) ∷ []
      else []
  on_handshake s established = established_session s ++ inner_closed ∷ []

  unfoldable pub handle_session : Session → List Action
  unfolding on_handshake
  handle_session s = on_handshake s s.handshake
