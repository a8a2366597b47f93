-- ===== src/LocalProxy/Sessions.antt =====
-- internal/localproxy/server.go: the sessions that a shutdown waits for. A session is a number in
-- place of its pointer, and a channel is whether it is closed; every operation runs under the lock.
pub mod Waiting
use dproxy.Base.{
  ℕ, Bool, true, false, ◌||◌, Option, none, some, List, [], ◌∷◌, ◌==◌, if◌then◌else◌, map,
}

pub record ActiveSession : Type 0 where
  pub session_id : ℕ
  pub conn : Option ℕ

-- `active` and whether `activeZero` is closed.
pub record Sessions : Type 0 where
  pub active : List ActiveSession
  pub zero_closed : Bool

-- What `NewServer` makes of them, with `closedChannel`.
abbrev pub new_sessions : Sessions
new_sessions = record { active = []; zero_closed = true }

abbrev pub none_active : List ActiveSession → Bool
none_active [] = true
none_active (a ∷ more) = false

abbrev pub has_session : ℕ → List ActiveSession → Bool
has_session id [] = false
has_session id (a ∷ more) = a.session_id == id || has_session id more

abbrev pub delete_session : ℕ → List ActiveSession → List ActiveSession
delete_session id [] = []
delete_session id (a ∷ more) =
    let rest = delete_session id more in if a.session_id == id then rest else a ∷ rest

insert_session : ActiveSession → List ActiveSession → List ActiveSession
insert_session a active = if has_session a.session_id active then active else a ∷ active

-- `track`: the first session makes a channel that is open.
unfoldable pub track_session : ℕ → Sessions → Sessions
unfolding insert_session
track_session id s = record {
  active = insert_session (record { session_id = id; conn = none }) s.active;
  zero_closed = (if none_active s.active then false else s.zero_closed);
}

connect_to : ℕ → ℕ → ActiveSession → ActiveSession
connect_to id conn a = if a.session_id == id then record a { conn = some conn } else a

-- `setConnection`: nothing happens to a session that is gone.
unfoldable pub set_connection : ℕ → ℕ → Sessions → Sessions
unfolding connect_to
set_connection id conn s = record s { active = map (connect_to id conn) s.active }

-- `close(s.activeZero)`, which panics where the channel is closed.
close_zero : Sessions → Option Sessions
close_zero s = if s.zero_closed then none else some (record s { zero_closed = true })

-- `untrack`
unfoldable pub untrack_session : ℕ → Sessions → Option Sessions
unfolding close_zero
untrack_session id s =
    let rest = record s { active = delete_session id s.active } in
    if none_active rest.active then close_zero rest else some rest

connections : List ActiveSession → List ℕ
connections [] = []
connections (a ∷ more) =
    let rest = connections more in elim a.conn [ none ↦ rest | some conn ↦ conn ∷ rest ]

-- `closeActive`: the sessions that are cancelled and the connections that are closed.
unfoldable pub close_active : Sessions → List ℕ × List ℕ
unfolding connections
close_active s = (map (λ (a : ActiveSession). a.session_id) s.active, connections s.active)
