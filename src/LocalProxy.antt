-- ===== src/LocalProxy.antt =====
-- internal/localproxy/server.go: `ServeHTTP`, as the list of what it does, deferred calls included.
-- What the opener, the takeover of the connection and its writes do are parameters; what is logged
-- and the text of an error are left out.
pub mod Answers
pub mod Sessions
use dproxy.Base.{
  ℕ, Bool, false, not, ◌||◌, Option, none, some, List, [], ◌∷◌, ltb, ◌==◌, if◌then◌else◌, length,
}
use dproxy.Base.Text.{Bytes, codes, equal}
use dproxy.Policy.Decision.{Decision, DenyReason, malformed_authority}
use dproxy.Policy.Destination.{Destination}
use dproxy.Policy.Checker.{Checker, check_authority}
use dproxy.Protocol.Message.{
  error_forbidden_destination, error_address_rejected, error_limit_exceeded,
}

-- A content length that is not known is `none`.
pub record Request : Type 0 where
  pub method : Bytes
  pub proto_major : ℕ
  pub proto_minor : ℕ
  pub content_length : Option ℕ
  pub transfer_encoding : List Bytes
  pub request_uri : Bytes

-- What `errors.Is`, `errors.As` and `Timeout` say of an error of the opener.
pub record OpenError : Type 0 where
  pub deadline_exceeded : Bool
  pub timeout : Bool
  pub canceled : Bool
  pub authentication_failed : Bool
  pub remote_code : Option ℕ

-- `timeoutError`
abbrev timeout_error : OpenError → Bool
timeout_error e = e.timeout

remote_status : Option ℕ → ℕ
remote_status none = 502
remote_status (some code) =
    if code == error_forbidden_destination || code == error_address_rejected
    then 403
    else if code == error_limit_exceeded
    then 503
    else 502

-- The status of `proxyStatus`; its reason is logged only.
unfoldable pub proxy_status : OpenError → ℕ
unfolding remote_status
proxy_status e =
    if e.deadline_exceeded || timeout_error e
    then 504
    else if e.canceled
    then 503
    else if e.authentication_failed
    then 502
    else remote_status e.remote_code

-- How `Hijack` ends.
pub data Takeover : Type 0 where
  unavailable broken taken : Takeover

pub record Server : Type 0 where
  pub draining : Bool
  pub checker : Checker
  pub open_tunnel : Destination → Option OpenError
  pub takeover : Takeover
  pub greeting_written : Bool
  pub greeting_flushed : Bool

pub data ProxyAction : Type 0 where
  allow_header : ProxyAction
  reply : ℕ → ProxyAction
  track untrack : ProxyAction
  open_remote : Destination → ProxyAction
  close_remote close_local : ProxyAction
  greet relay : ProxyAction

-- Behind the takeover of the connection.
greeted : Server → List ProxyAction
greeted s =
    if not s.greeting_written
    then close_local ∷ close_remote ∷ untrack ∷ []
    else if not s.greeting_flushed
    then close_local ∷ close_remote ∷ untrack ∷ []
    else greet ∷ relay ∷ close_local ∷ close_remote ∷ untrack ∷ []

taken_over : Server → Takeover → List ProxyAction
unfolding greeted
taken_over s unavailable = reply 500 ∷ close_remote ∷ untrack ∷ []
taken_over s broken = close_remote ∷ untrack ∷ []
taken_over s taken = greeted s

on_open : Server → Option OpenError → List ProxyAction
unfolding proxy_status taken_over
on_open s (some e) = reply (proxy_status e) ∷ untrack ∷ []
on_open s none = taken_over s s.takeover

-- `request.ContentLength > 0 || len(request.TransferEncoding) != 0`
abbrev pub has_body : Request → Bool
has_body r =
    elim r.content_length [ none ↦ false | some n ↦ ltb 0 n ]
    || not (length r.transfer_encoding == 0)

abbrev refusal_status : DenyReason → ℕ
refusal_status malformed_authority = 400
refusal_status _ = 403

on_decision : Server → Destination × Decision → List ProxyAction
unfolding on_open
on_decision s (d, decision) =
    if not decision.allowed
    then reply (refusal_status decision.reason) ∷ []
    else track ∷ open_remote d ∷ on_open s (s.open_tunnel d)

-- `ServeHTTP`
unfoldable pub serve_http : Server → Request → List ProxyAction
unfolding on_decision check_authority equal
serve_http s r =
    if s.draining
    then reply 503 ∷ []
    else if not (equal r.method (codes "CONNECT"))
    then allow_header ∷ reply 405 ∷ []
    else if not (r.proto_major == 1) || not (r.proto_minor == 1)
    then reply 505 ∷ []
    else if has_body r
    then reply 400 ∷ []
    else on_decision s (check_authority s.checker r.request_uri)
