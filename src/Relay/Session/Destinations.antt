-- ===== src/Relay/Session/Destinations.antt =====
-- Where a session connects, and what it answers.
use dproxy.Base.{
  ℕ, ◌≤◌, ◌≡◌, refl, ap, ◌≢◌, ◌⊎◌, inl, inr, Bool, true, false, not, some, List, [], ◌∷◌, ◌++◌,
  if◌then◌else◌, Result, ok, err, All,
}
use dproxy.Base.Text.{Bytes}
use dproxy.Net.Addr.{Addr}
use dproxy.Policy.Decision.{DenyReason, deny_none}
use dproxy.Policy.Destination.{Destination}
use dproxy.Protocol.Message.{
  CodecError, Message, hello, hello_ok, open_to, open_ok, open_error, code_valid, error_code_for,
}
use dproxy.Protocol.Codec.{decode}
use dproxy.Protocol.Codec.Decoded.{IsMessage}
use dproxy.Policy.Addresses.Internet.{IsInternet, InRange}
use dproxy.Policy.Checker.{Resolver, resolve}
use dproxy.Policy.Checker.Guarantee.{resolve_sound}
use dproxy.Policy.Allowlist.Matching.{AnyMatches}
use dproxy.Relay.Session.{
  Action, failure_recorded, failures_reset, sent, dialed, relayed, target_closed, inner_closed,
  Session, can_send, refuse, opened, dial_target, open_destination, on_open, authenticated,
  handle_session,
}
use dproxy.Relay.Session.Authentication.{
  Rejected, silent, recorded, Course, Outcome, handle_session-Outcome,
}
use dproxy.Protocol.Codec.RoundTrip.{encode_total}

abbrev IsPublicAddress : Addr → Type 0
IsPublicAddress a = InRange a → IsInternet a

module _ (sha256 : Bytes → Bytes) (s : Session sha256) where
  -- A dial that the policy stands behind.
  pub record Permitted (addresses : List Addr) (port : ℕ) : Type 0 where
    pub on_port : port ≡ 443
    pub some_address : addresses ≢ []
    pub publics : All IsPublicAddress addresses
    pub destination : Destination
    pub listed :
        (s.checker.allowlist.all_hosts ≡ true)
        ⊎ AnyMatches s.checker.allowlist.patterns destination.host
    pub lookup : Resolver
    pub configured : s.checker.resolver ≡ some lookup
    pub answered : lookup destination.host ≡ some addresses

  abbrev pub IsSafe : Action → Type 0
  IsSafe (dialed addresses port) = Permitted addresses port
  IsSafe _ = Unit {0}

  choose_All :
      (b : Bool) (xs ys : List Action)
      → All IsSafe xs
      → All IsSafe ys
      → All IsSafe (if b then xs else ys)
  choose_All true xs ys p q = p
  choose_All false xs ys p q = q

  append-IsSafe : (xs ys : List Action) → All IsSafe xs → All IsSafe ys → All IsSafe (xs ++ ys)
  append-IsSafe [] ys p q = q
  append-IsSafe (x ∷ xs) ys p q = (p.0, append-IsSafe xs ys p.1 q)

  refuse-IsSafe : (code : ℕ) → All IsSafe (refuse sha256 s code)
  unfolding refuse
  refuse-IsSafe code =
      choose_All (can_send sha256 s (open_error code)) (sent (open_error code) ∷ []) [] (tt, tt) tt

  opened-IsSafe : All IsSafe (opened sha256 s)
  unfolding opened
  opened-IsSafe =
      append-IsSafe _ (target_closed ∷ [])
        (choose_All (can_send sha256 s open_ok)
          (sent open_ok ∷ (if s.deadline_cleared then relayed ∷ [] else [])) []
          (tt, choose_All s.deadline_cleared (relayed ∷ []) [] (tt, tt) tt) tt)
        (tt, tt)

  open_destination-IsSafe : (d : Destination) → All IsSafe (open_destination sha256 s d)
  unfolding open_destination dial_target
  open_destination-IsSafe d = judge (resolve s.checker d).1.allowed refl
    where
      judge :
          (b : Bool)
          → (resolve s.checker d).1.allowed ≡ b
          → All IsSafe (
              if not b
              then refuse sha256 s (error_code_for (resolve s.checker d).1.reason)
              else dial_target sha256 s d (resolve s.checker d).0)
      judge false e = refuse-IsSafe _
      judge true e =
          let (port_ok, listed, (lookup, configured, answered), some_address, publics) =
            resolve_sound s.checker d e in
          (
            record {
              on_port = port_ok;
              some_address = some_address;
              publics = publics;
              destination = d;
              listed = listed;
              lookup = lookup;
              configured = configured;
              answered = answered;
            },
            choose_All _ _ _ opened-IsSafe (refuse-IsSafe 5),
          )

  on_open-IsSafe : (r : Result CodecError Message) → All IsSafe (on_open sha256 s r)
  unfolding on_open
  on_open-IsSafe (ok (open_to d)) = open_destination-IsSafe d
  on_open-IsSafe (ok (hello v t)) = refuse-IsSafe 7
  on_open-IsSafe (ok (hello_ok v)) = refuse-IsSafe 7
  on_open-IsSafe (ok open_ok) = refuse-IsSafe 7
  on_open-IsSafe (ok (open_error c)) = refuse-IsSafe 7
  on_open-IsSafe (err e) = refuse-IsSafe 7

  authenticated-IsSafe : (rest : Bytes) → All IsSafe (authenticated sha256 s rest)
  unfolding authenticated
  authenticated-IsSafe rest =
      let next = (decode s.max_control_message_bytes rest).0 in
      (
        tt,
        choose_All (can_send sha256 s (hello_ok 1)) (sent (hello_ok 1) ∷ on_open sha256 s next) []
            (tt, on_open-IsSafe next) tt,
      )

  Rejected-IsSafe : {actions : List Action} → Rejected sha256 s actions → All IsSafe actions
  Rejected-IsSafe silent = tt
  Rejected-IsSafe (recorded r) = (tt, tt)

  Course-IsSafe : (actions : List Action) → Course sha256 s actions → All IsSafe actions
  Course-IsSafe actions (inl r) = Rejected-IsSafe r
  Course-IsSafe actions (inr (rest, a, e)) = rw e (authenticated-IsSafe rest)

  Outcome-IsSafe : (actions : List Action) → Outcome sha256 s actions → All IsSafe actions
  Outcome-IsSafe actions (inl (h, r)) = Rejected-IsSafe r
  Outcome-IsSafe actions (inr (course, h, c, e)) =
      rw e (append-IsSafe course (inner_closed ∷ []) (Course-IsSafe course c) (tt, tt))

  -- Whatever a peer sends, a session dials only port 443, only addresses that the configured
  -- resolver gave for a host which the allowlist lets through, at least one of them, and each, if
  -- it fits its address family, outside all special blocks.
  pub handle_session-IsSafe : All IsSafe (handle_session sha256 s)
  handle_session-IsSafe = Outcome-IsSafe (handle_session sha256 s) (handle_session-Outcome sha256 s)

-- The messages that a session sends, in order.
abbrev pub replies : List Action → List Message
replies [] = []
replies (sent m ∷ actions) = m ∷ replies actions
replies (failure_recorded r ∷ actions) = replies actions
replies (failures_reset ∷ actions) = replies actions
replies (dialed a p ∷ actions) = replies actions
replies (relayed ∷ actions) = replies actions
replies (target_closed ∷ actions) = replies actions
replies (inner_closed ∷ actions) = replies actions

-- An answer to OPEN.
abbrev pub IsAnswer : Message → Type 0
IsAnswer open_ok = Unit {0}
IsAnswer (open_error code) = code_valid code ≡ true
IsAnswer _ = ⊥

module _ (sha256 : Bytes → Bytes) (s : Session sha256) (roomy : 4096 ≤ s.max_control_message_bytes)
    (writable : (m : Message) → s.can_write m ≡ true) where
  can_send-IsMessage : (m : Message) → IsMessage m → can_send sha256 s m ≡ true
  unfolding can_send
  can_send-IsMessage m v =
      let (bytes, e) = encode_total s.max_control_message_bytes m v roomy in rw (e, writable m)

  abbrev Answered : List Action → Type 0
  Answered actions = (m : Message) × IsAnswer m × (replies actions ≡ m ∷ [])

  refuse-Answered : (code : ℕ) → code_valid code ≡ true → Answered (refuse sha256 s code)
  unfolding refuse
  refuse-Answered code v = (open_error code, v, rw (can_send-IsMessage (open_error code) v))

  opened-Answered : Answered (opened sha256 s)
  unfolding opened
  opened-Answered = (open_ok, tt, rw (can_send-IsMessage open_ok tt) (ends s.deadline_cleared))
    where
      ends :
          (b : Bool)
          → ◌≡◌ {A = List Message}
              (open_ok ∷ replies ((if b then relayed ∷ [] else []) ++ target_closed ∷ []))
              (open_ok ∷ [])
      ends true = refl
      ends false = refl

  choose_Answered :
      (b : Bool) (xs ys : List Action) → Answered xs → Answered ys → Answered (if b then xs else ys)
  choose_Answered true xs ys p q = p
  choose_Answered false xs ys p q = q

  error_code-valid : (r : DenyReason) → code_valid (error_code_for r) ≡ true
  unfolding code_valid error_code_for
  error_code-valid deny_none = refl
  error_code-valid _ = refl

  open_destination-Answered : (d : Destination) → Answered (open_destination sha256 s d)
  unfolding open_destination dial_target code_valid
  open_destination-Answered d =
      choose_Answered (not (resolve s.checker d).1.allowed) _ _
        (refuse-Answered (error_code_for (resolve s.checker d).1.reason) (error_code-valid _))
        (choose_Answered (s.dial_succeeds (resolve s.checker d).0 d.port) _ _ opened-Answered
          (refuse-Answered 5 refl))

  on_open-Answered : (r : Result CodecError Message) → Answered (on_open sha256 s r)
  unfolding on_open code_valid
  on_open-Answered (ok (open_to d)) = open_destination-Answered d
  on_open-Answered (ok (hello v t)) = refuse-Answered 7 refl
  on_open-Answered (ok (hello_ok v)) = refuse-Answered 7 refl
  on_open-Answered (ok open_ok) = refuse-Answered 7 refl
  on_open-Answered (ok (open_error c)) = refuse-Answered 7 refl
  on_open-Answered (err e) = refuse-Answered 7 refl

  -- With room for 4096 bytes and a peer that takes every message, an authenticated session sends
  -- HELLO_OK and then exactly one answer to the OPEN, or to what stands in its place: OPEN_OK, or
  -- OPEN_ERROR with a code of this version.
  pub authenticated-replies :
      (rest : Bytes)
      → (m : Message) × IsAnswer m × (replies (authenticated sha256 s rest) ≡ hello_ok 1 ∷ m ∷ [])
  unfolding authenticated
  authenticated-replies rest =
      let (m, answer, e) = on_open-Answered (decode s.max_control_message_bytes rest).0 in
      (m, answer, rw (can_send-IsMessage (hello_ok 1) refl) (ap (◌∷◌ (hello_ok 1)) e))
