-- ===== src/Policy/Allowlist.antt =====
-- internal/policy/allowlist.go: patterns, the list, and its file format.
pub mod Matching
pub mod Parsing
pub mod Listing
use dproxy.Base.{
  ℕ, ◌+◌, ◌-◌, Bool, true, false, not, ◌&&◌, ◌||◌, Option, none, some, List, [], ◌∷◌, ◌++◌, leb,
  ◌==◌, if◌then◌else◌, Result, ok, err, ◌>>=◌, length, get_elem?,
}
use dproxy.Base.Text.{Bytes, equal, has_suffix, contains}
use dproxy.Base.Space.{trim_space}
use dproxy.Policy.Decision.{
  DenyReason, malformed_authority, port_not_allowed, not_allowlisted, Decision, allow, deny,
}
use dproxy.Policy.Hostname.{canonical_hostname}
use dproxy.Policy.Destination.{Destination, allowed_port, is_zero}
use dproxy.Base.Scanner.{scan_lines}

pub data PatternKind : Type 0 where
  exact wildcard : PatternKind

pub record HostPattern : Type 0 where
  pub kind : PatternKind
  pub host : Bytes

-- `String`
unfoldable pub pattern_string : HostPattern → Bytes
pattern_string p = elim p.kind [ wildcard ↦ b'*' ∷ b'.' ∷ p.host | exact ↦ p.host ]

-- `host[len(host)-len(p.host)-1] == '.'`
is_dot : Option ℕ → Bool
is_dot none = false
is_dot (some c) = c == b'.'

matches_wildcard : Bytes → Bytes → Bool
unfolding has_suffix is_dot
matches_wildcard suffix host =
    if leb (length host) (length suffix + 1)
    then false
    else if not (has_suffix host suffix)
    then false
    else is_dot (get_elem? host (length host - length suffix - 1))

-- `matches`
unfoldable pub matches : HostPattern → Bytes → Bool
unfolding matches_wildcard equal
matches p host =
    if equal host []
    then false
    else elim p.kind [ exact ↦ equal host p.host | wildcard ↦ matches_wildcard p.host host ]

-- `ErrEmptyPattern`, and `InvalidPatternError` with its pattern; the prose is left out.
pub data PatternError : Type 0 where
  empty_pattern : PatternError
  invalid_pattern : Bytes → PatternError

cut_star : Bytes → PatternKind × Bytes
cut_star [] = (exact, [])
cut_star (c ∷ []) = (exact, c ∷ [])
cut_star (c ∷ d ∷ s) = if c == b'*' && d == b'.' then (wildcard, s) else (exact, c ∷ d ∷ s)

needs_two_labels : PatternKind → Bytes → Bool
unfolding contains
needs_two_labels exact canonical = false
needs_two_labels wildcard canonical = not (contains canonical b'.')

finish_pattern : Bytes → PatternKind → Result DenyReason Bytes → Result PatternError HostPattern
unfolding needs_two_labels
finish_pattern trimmed kind (err deny) = err (invalid_pattern trimmed)
finish_pattern trimmed kind (ok canonical) =
    if needs_two_labels kind canonical
    then err (invalid_pattern trimmed)
    else ok (record { kind = kind; host = canonical })

-- `ParseHostPattern` on the trimmed entry
unfoldable pub parse_trimmed : Bytes → Result PatternError HostPattern
unfolding cut_star finish_pattern
parse_trimmed [] = err empty_pattern
parse_trimmed (c ∷ s) =
    let (kind, host) = cut_star (c ∷ s) in finish_pattern (c ∷ s) kind (canonical_hostname host)

unfoldable pub parse_host_pattern : Bytes → Result PatternError HostPattern
unfolding parse_trimmed
parse_host_pattern raw = parse_trimmed (trim_space raw)

pub record Allowlist : Type 0 where
  pub patterns : List HostPattern
  pub all_hosts : Bool

unfoldable pub allow_all : Allowlist
allow_all = record { patterns = []; all_hosts = true }

unfoldable pub empty_allowlist : Allowlist
empty_allowlist = record { patterns = []; all_hosts = false }

same_kind : PatternKind → PatternKind → Bool
same_kind exact exact = true
same_kind wildcard wildcard = true
same_kind _ _ = false

-- `existing == pattern`
unfoldable pub same_pattern : HostPattern → HostPattern → Bool
unfolding same_kind equal
same_pattern p q = same_kind p.kind q.kind && equal p.host q.host

-- The loop of `add`: whether the pattern is there already.
unfoldable pub has_pattern : HostPattern → List HostPattern → Bool
unfolding same_pattern
has_pattern p [] = false
has_pattern p (q ∷ qs) = same_pattern q p || has_pattern p qs

unfoldable pub add : Allowlist → HostPattern → Allowlist
unfolding has_pattern
add a p = if has_pattern p a.patterns then a else record a { patterns = a.patterns ++ p ∷ [] }

-- `IsEmpty`
unfoldable pub is_empty : Allowlist → Bool
is_empty a = not a.all_hosts && length a.patterns == 0

-- The pattern loop of `Permits`.
unfoldable pub any_matches : List HostPattern → Bytes → Bool
unfolding matches
any_matches [] host = false
any_matches (p ∷ ps) host = matches p host || any_matches ps host

unfoldable pub permits : Allowlist → Destination → Decision
unfolding any_matches is_zero allow deny
permits a d =
    if is_zero d
    then deny malformed_authority
    else if not (d.port == allowed_port)
    then deny port_not_allowed
    else if a.all_hosts
    then allow
    else if any_matches a.patterns d.host
    then allow
    else deny not_allowlisted

add_parsed : Allowlist → Result PatternError HostPattern → Result PatternError Allowlist
unfolding add
add_parsed list (err e) = err e
add_parsed list (ok p) = ok (add list p)

-- The loop of `ParseAllowlist`.
unfoldable pub add_entries : Allowlist → List Bytes → Result PatternError Allowlist
unfolding add_parsed
add_entries list [] = ok list
add_entries list (entry ∷ entries) =
    add_parsed list (parse_host_pattern entry) >>= λ next. add_entries next entries

unfoldable pub parse_allowlist : List Bytes → Result PatternError Allowlist
unfolding add_entries empty_allowlist
parse_allowlist = add_entries empty_allowlist

-- An error of `ReadAllowlist`: an entry's, with its line, or the scanner's.
pub data ReadError : Type 0 where
  at_line : ℕ → PatternError → ReadError
  read_failed : ReadError

abbrev pub starts_with_hash : Bytes → Bool
starts_with_hash [] = false
starts_with_hash (c ∷ s) = c == b'#'

at : ℕ → Result PatternError Allowlist → Result ReadError Allowlist
at line (ok a) = ok a
at line (err e) = err (at_line line e)

-- One line of the file.
unfoldable pub add_line : Allowlist → ℕ → Bytes → Result ReadError Allowlist
unfolding add_parsed at
add_line list line raw =
    let text = trim_space raw in
    if equal text [] || starts_with_hash text
    then ok list
    else at line (add_parsed list (parse_host_pattern text))

-- The scanning loop of `ReadAllowlist`; `line` counts the lines read before.
unfoldable pub add_lines : Allowlist → ℕ → List Bytes → Bool → Result ReadError Allowlist
unfolding add_line
add_lines list line [] failed = if failed then err read_failed else ok list
add_lines list line (raw ∷ rest) failed =
    add_line list (line + 1) raw >>= λ next. add_lines next (line + 1) rest failed

unfoldable pub read_allowlist : Bytes → Result ReadError Allowlist
unfolding add_lines empty_allowlist scan_lines
read_allowlist file =
    let (lines, failed) = scan_lines file in add_lines empty_allowlist 0 lines failed
