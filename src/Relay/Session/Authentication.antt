-- ===== src/Relay/Session/Authentication.antt =====
-- A session up to its first message.
use dproxy.Base.{
  ℕ, ◌≡◌, ◌≢◌, refl, ◌⊎◌, inl, inr, Bool, true, false, not, List, [], ◌∷◌, ◌++◌, ltb, if◌then◌else◌,
  Result, ok, err,
}
use dproxy.Base.Text.{Bytes}
use dproxy.Config.Token.{Token}
use dproxy.Protocol.Message.{CodecError, Message, hello, hello_ok, open_to, open_ok, open_error}
use dproxy.Protocol.Codec.{decode}
use dproxy.Config.Token.{token_set_contains}
use dproxy.Relay.Session.{
  Handshake, failed, established, FailureReason, malformed_hello, invalid_token, Action,
  failure_recorded, inner_closed, Session, authenticated, on_hello, established_session,
  on_handshake, handle_session,
}

module _ (sha256 : Bytes → Bytes) (s : Session sha256) where
  -- The peer's first message is a HELLO whose token is in the set; `rest` is what follows it.
  pub record Authenticated (rest : Bytes) : Type 0 where
    pub shook_hands : s.handshake ≡ established
    pub version : ℕ
    pub token : Token
    pub first_message :
        decode s.max_control_message_bytes s.input ≡ (ok (hello version token), rest)
    pub token_accepted : token_set_contains sha256 s.tokens token ≡ true

  -- The other course: at most one failure is recorded.
  pub data Rejected : List Action → Type 0 where
    silent : Rejected []
    recorded : (r : FailureReason) → Rejected (failure_recorded r ∷ [])

  -- The course of a session, its last call of `inner.Close` left out.
  abbrev pub Course : List Action → Type 0
  Course actions =
      Rejected actions
      ⊎ ((rest : Bytes) × Authenticated rest × (actions ≡ authenticated sha256 s rest))

  abbrev pub Outcome : List Action → Type 0
  Outcome actions =
      ((s.handshake ≢ established) × Rejected actions)
      ⊎ ((course : List Action) × (s.handshake ≡ established)
          × Course course
          × (actions ≡ course ++ inner_closed ∷ []))

  on_hello-Course :
      s.handshake ≡ established
      → (r : Result CodecError Message) (rest : Bytes)
      → decode s.max_control_message_bytes s.input ≡ (r, rest)
      → Course (on_hello sha256 s r rest)
  unfolding on_hello
  on_hello-Course h (err e) rest d = inl (recorded malformed_hello)
  on_hello-Course h (ok (hello v t)) rest d =
      decide_token (token_set_contains sha256 s.tokens t) refl
    where
      decide_token :
          (b : Bool)
          → token_set_contains sha256 s.tokens t ≡ b
          → Course (if b then authenticated sha256 s rest else failure_recorded invalid_token ∷ [])
      decide_token false e = inl (recorded invalid_token)
      decide_token true e = inr (
        rest,
        record { shook_hands = h; version = v; token = t; first_message = d; token_accepted = e },
        refl,
      )
  on_hello-Course h (ok (hello_ok v)) rest d = inl (recorded invalid_token)
  on_hello-Course h (ok (open_to x)) rest d = inl (recorded invalid_token)
  on_hello-Course h (ok open_ok) rest d = inl (recorded invalid_token)
  on_hello-Course h (ok (open_error c)) rest d = inl (recorded invalid_token)

  choose_Course :
      (b : Bool) (xs ys : List Action) → Course xs → Course ys → Course (if b then xs else ys)
  choose_Course true xs ys p q = p
  choose_Course false xs ys p q = q

  choose_Rejected :
      (b : Bool) (xs ys : List Action) → Rejected xs → Rejected ys → Rejected (if b then xs else ys)
  choose_Rejected true xs ys p q = p
  choose_Rejected false xs ys p q = q

  established_session-Course : s.handshake ≡ established → Course (established_session sha256 s)
  unfolding established_session
  established_session-Course h =
      let got = decode s.max_control_message_bytes s.input in
      choose_Course (not s.deadline_set) _ _ (inl silent) (on_hello-Course h got.0 got.1 refl)

  on_handshake-Outcome : (k : Handshake) → s.handshake ≡ k → Outcome (on_handshake sha256 s k)
  unfolding on_handshake
  on_handshake-Outcome (failed m) h =
      inl ((λ e. cc), choose_Rejected (ltb 0 s.client_pins) _ _ (recorded _) silent)
  on_handshake-Outcome established h =
      inr (established_session sha256 s, h, established_session-Course h, refl)

  -- Unless the inner handshake succeeded and the first message is a HELLO with an accepted token,
  -- a session sends nothing, dials nothing and relays nothing: it ends after recording at most
  -- one failure. Exactly where the handshake succeeded, it closes the inner connection at its end.
  pub handle_session-Outcome : Outcome (handle_session sha256 s)
  unfolding handle_session
  handle_session-Outcome = on_handshake-Outcome s.handshake refl
