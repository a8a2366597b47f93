-- ===== src/Net/HostPort.antt =====
-- `net.SplitHostPort`.
pub mod Port
use dproxy.Base.{ℕ, ◌||◌, Option, none, some, [], ◌∷◌, ◌==◌, if◌then◌else◌}
use dproxy.Base.Text.{Bytes, contains, cut}

-- The text before and behind the last `b`.
unfoldable pub cut_last : ℕ → Bytes → Option (Bytes × Bytes)
cut_last b [] = none
cut_last b (c ∷ s) = elim (cut_last b s) [
  | some (before, after) ↦ some (c ∷ before, after)
  | none ↦ if c == b then some ([], s) else none
]

-- A host in brackets: the first ']' is the byte before the last ':'.
split_bracketed : Bytes → Bytes → Option (Bytes × Bytes)
unfolding cut
split_bracketed inner port = elim (cut b']' inner) [
  | some (host, []) ↦
      if contains host b'[' || contains port b'[' || contains port b']'
      then none
      else some (host, port)
  | _ ↦ none
]

split_plain : Bytes → Bytes → Option (Bytes × Bytes)
unfolding contains
split_plain host port =
    if contains host b':'
    then none
    else if contains host b'[' || (contains port b'[' || (contains host b']' || contains port b']'))
    then none
    else some (host, port)

split_front : Bytes → Bytes → Option (Bytes × Bytes)
unfolding split_bracketed split_plain
split_front [] port = split_plain [] port
split_front (c ∷ s) port = if c == b'[' then split_bracketed s port else split_plain (c ∷ s) port

unfoldable pub split_host_port : Bytes → Option (Bytes × Bytes)
unfolding cut_last split_front
split_host_port s = elim (cut_last b':' s) [
  | none ↦ none
  | some (front, port) ↦ split_front front port
]
