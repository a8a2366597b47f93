-- ===== src/LocalProxy/Sessions/Waiting.antt =====
-- What the channel of the sessions tells, after any calls of the handlers.
use dproxy.Base.{
  ℕ, ◌≡◌, refl, sym, ◌∙◌, inl, inr, ◌⊎◌, Bool, true, false, Option, none, some, List, [], ◌∷◌,
  if◌then◌else◌, map, Bool-cases,
}
use dproxy.LocalProxy.Sessions.{
  ActiveSession, Sessions, new_sessions, none_active, has_session, delete_session, insert_session,
  track_session, connect_to, set_connection, close_zero, untrack_session,
}

-- A call of a handler: the session of `untrack` is one that it has tracked.
pub data Call : Sessions → Sessions → Type 0 where
  tracks : (id : ℕ) (s : Sessions) → Call s (track_session id s)
  connects : (id conn : ℕ) (s : Sessions) → Call s (set_connection id conn s)
  untracks :
      (id : ℕ) (s t : Sessions)
      → has_session id s.active ≡ true
      → untrack_session id s ≡ some t
      → Call s t

-- Any calls, one behind the other, from a new server on.
pub data Reached : Sessions → Type 0 where
  start : Reached new_sessions
  after : {s t : Sessions} → Reached s → Call s t → Reached t

-- The channel is closed exactly while no session is tracked.
abbrev IsWaiting : Sessions → Type 0
IsWaiting s = s.zero_closed ≡ none_active s.active

one_more :
    (id : ℕ) (active : List ActiveSession) (closed : Bool)
    → closed ≡ none_active active
    → (if none_active active then false else closed)
      ≡ none_active (insert_session (record { session_id = id; conn = none }) active)
unfolding insert_session
one_more id [] closed h = refl
one_more id (a ∷ more) closed h = elim (Bool-cases (has_session id (a ∷ more))) [
  | inl e ↦ rw (e, insert_session) h
  | inr e ↦ rw (e, insert_session) h
]

track_session-IsWaiting : (id : ℕ) (s : Sessions) → IsWaiting s → IsWaiting (track_session id s)
unfolding track_session
track_session-IsWaiting id s h = one_more id s.active s.zero_closed h

connected_empty :
    (f : ActiveSession → ActiveSession) (active : List ActiveSession)
    → none_active (map f active) ≡ none_active active
connected_empty f [] = refl
connected_empty f (a ∷ more) = refl

tracked_some :
    (id : ℕ) (active : List ActiveSession)
    → has_session id active ≡ true
    → none_active active ≡ false
tracked_some id [] h = cc
tracked_some id (a ∷ more) h = refl

-- A tracked session can be untracked.
untracked :
    (id : ℕ) (s : Sessions)
    → IsWaiting s
    → has_session id s.active ≡ true
    → (t : Sessions) × (untrack_session id s ≡ some t) × IsWaiting t
unfolding untrack_session close_zero
untracked id s h k =
    let opened : s.zero_closed ≡ false = h ∙ tracked_some id s.active k in
    let rest = delete_session id s.active in
    elim (Bool-cases (none_active rest)) [
      | inl e ↦ (
        record { active = rest; zero_closed = true },
        rw (e, opened, untrack_session) refl,
        sym e,
      )
      | inr e ↦ (record s { active = rest }, rw (e, untrack_session) refl, opened ∙ sym e)
    ]

same_state : (o : Option Sessions) (t u : Sessions) → o ≡ some t → o ≡ some u → t ≡ u
same_state o t u e f = cc

Call-IsWaiting : {s t : Sessions} → Call s t → IsWaiting s → IsWaiting t
unfolding set_connection
Call-IsWaiting (tracks id s) h = track_session-IsWaiting id s h
Call-IsWaiting (connects id conn s) h = h ∙ sym (connected_empty (connect_to id conn) s.active)
Call-IsWaiting (untracks id s t k e) h =
    let (u, f, waiting) = untracked id s h k in
    let same : t ≡ u = same_state (untrack_session id s) t u e f in rw same waiting

Reached-IsWaiting : {s : Sessions} → Reached s → IsWaiting s
Reached-IsWaiting start = refl
Reached-IsWaiting (after r c) = Call-IsWaiting c (Reached-IsWaiting r)

-- After any calls of the handlers, the channel that a shutdown waits for is closed exactly while no
-- session is tracked; and to untrack a session that is tracked never closes a channel twice.
pub untrack_session-Reached :
    (s : Sessions) (id : ℕ)
    → Reached s
    → (s.zero_closed ≡ none_active s.active)
      × ((has_session id s.active ≡ false) ⊎ ((t : Sessions) × (untrack_session id s ≡ some t)))
untrack_session-Reached s id r =
    let waiting = Reached-IsWaiting r in
    elim (Bool-cases (has_session id s.active)) [
      | inl k ↦ let (t, e, next) = untracked id s waiting k in (waiting, inr (t, e))
      | inr k ↦ (waiting, inl k)
    ]
