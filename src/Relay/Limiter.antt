-- ===== src/Relay/Limiter.antt =====
-- internal/relay/limiter.go: failures by source. The doubly linked list, from oldest to newest, is
-- a list; the map finds an entry in it by its source, which stands in it at most once. A time is
-- a number of nanoseconds, and one before an entry's start counts as no time since. The mutex makes
-- every operation one step.
pub mod Counting
pub mod Sources
pub mod Windows
use dproxy.Base.{
  ℕ, ◌+◌, ◌-◌, Bool, false, not, ◌&&◌, ◌||◌, Option, none, some, List, [], ◌∷◌, ◌++◌, leb,
  if◌then◌else◌, length,
}
use dproxy.Base.Text.{Bytes, equal}
use dproxy.Base.Space.{trim_space}
use dproxy.Net.Addr.{Addr, invalid, is_valid, is_loopback, is_private, unmap}
use dproxy.Net.ParseAddr.{parse_addr}
use dproxy.Net.HostPort.{split_host_port}

abbrev pub auth_failure_limit : ℕ
auth_failure_limit = 10

-- A minute.
abbrev pub auth_failure_window : ℕ
auth_failure_window = 60000000000

abbrev pub max_auth_sources : ℕ
max_auth_sources = 4096

pub record FailureEntry : Type 0 where
  pub source : Bytes
  pub count : ℕ
  pub start : ℕ

pub record Limiter : Type 0 where
  pub entries : List FailureEntry

-- `newAuthFailureLimiter`
unfoldable pub new_limiter : Limiter
new_limiter = record { entries = [] }

unfoldable pub find_entry : Bytes → List FailureEntry → Option FailureEntry
unfolding equal
find_entry source [] = none
find_entry source (e ∷ es) = if equal e.source source then some e else find_entry source es

-- `remove`
unfoldable pub remove_entry : Bytes → List FailureEntry → List FailureEntry
unfolding equal
remove_entry source [] = []
remove_entry source (e ∷ es) =
    let rest = remove_entry source es in if equal e.source source then rest else e ∷ rest

-- `l.remove(l.oldest)`
unfoldable pub remove_oldest : List FailureEntry → List FailureEntry
remove_oldest [] = []
remove_oldest (e ∷ es) = es

-- `now.Sub(entry.start) >= authFailureWindow`
unfoldable pub has_expired : ℕ → FailureEntry → Bool
has_expired now e = leb auth_failure_window (now - e.start)

-- `insert`
unfoldable pub insert_entry : Bytes → ℕ → List FailureEntry → List FailureEntry
insert_entry source now es = es ++ record { source = source; count = 0; start = now } ∷ []

-- `entry.count++`, on the entry of the source.
unfoldable pub count_failure : Bytes → List FailureEntry → List FailureEntry
unfolding equal
count_failure source [] = []
count_failure source (e ∷ es) =
    if equal e.source source
    then record { source = e.source; count = e.count + 1; start = e.start } ∷ es
    else e ∷ count_failure source es

-- The case in which no entry is there.
unfoldable pub add_source : Bytes → ℕ → List FailureEntry → List FailureEntry
unfolding remove_oldest insert_entry
add_source source now es =
    insert_entry source now (if leb max_auth_sources (length es) then remove_oldest es else es)

unfoldable pub current_entry : ℕ → Option FailureEntry → Bool
unfolding has_expired
current_entry now none = false
current_entry now (some e) = not (has_expired now e)

-- `record` at a time: without an entry that still counts, a stale one is removed and a new one
-- takes its place.
unfoldable pub record_failure : ℕ → Bytes → Limiter → Limiter
unfolding add_source remove_entry find_entry current_entry count_failure
record_failure now source l = record {
  entries = count_failure source (
      if current_entry now (find_entry source l.entries)
      then l.entries
      else add_source source now (remove_entry source l.entries));
}

judge_entry : ℕ → Bytes → Limiter → Option FailureEntry → Limiter × Bool
unfolding has_expired remove_entry
judge_entry now source l none = (l, false)
judge_entry now source l (some e) =
    if has_expired now e
    then (record { entries = remove_entry source l.entries }, false)
    else (l, leb auth_failure_limit e.count)

-- `blocked` at a time.
unfoldable pub is_blocked : ℕ → Bytes → Limiter → Limiter × Bool
unfolding judge_entry find_entry
is_blocked now source l = judge_entry now source l (find_entry source l.entries)

-- `reset`
unfoldable pub reset_failures : Bytes → Limiter → Limiter
unfolding remove_entry
reset_failures source l = record { entries = remove_entry source l.entries }

address_of : Option (Bytes × Bytes) → Option Addr
address_of none = none
address_of (some (host, port)) = parse_addr host

-- `remoteAddress`
unfoldable pub remote_address : Bytes → Addr
unfolding address_of
remote_address remote = elim (address_of (split_host_port remote)) [ none ↦ invalid | some a ↦ a ]

-- `authenticationSource` over the peer and the header; an address stands for its text, and `none`
-- for "unknown".
unfoldable pub authentication_source : Bytes → Bytes → Option Addr
unfolding remote_address trim_space unmap is_loopback is_private
authentication_source remote header =
    let peer = remote_address remote in
    let direct = if is_valid peer then some (unmap peer) else none in
    if is_valid peer && (is_loopback peer || is_private peer)
    then elim (parse_addr (trim_space header)) [ some a ↦ some (unmap a) | none ↦ direct ]
    else direct
