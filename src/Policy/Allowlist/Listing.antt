-- ===== src/Policy/Allowlist/Listing.antt =====
-- The lists that `ParseAllowlist` and `ReadAllowlist` build, and their errors.
use dproxy.Base.{
  ℕ, ◌+◌, ◌≡◌, refl, ap, inl, inr, Bool, true, false, ◌||◌, Option, none, some, List, [], ◌∷◌, ◌++◌,
  arith, if◌then◌else◌, Bool-cases, and_true, Result, ok, err, Result-cases,
}
use dproxy.Base.Text.{Bytes, equal, equal_iff}
use dproxy.Base.Space.{trim_space}
use dproxy.Base.Scanner.{scan_lines}
use dproxy.Policy.Allowlist.{
  HostPattern, matches, same_pattern, same_kind, exact, wildcard, PatternKind, PatternError,
  parse_host_pattern, Allowlist, empty_allowlist, has_pattern, add, any_matches, add_parsed,
  add_entries, parse_allowlist, at, starts_with_hash, add_line, add_lines, read_allowlist,
}

same_kind-eq : (j k : PatternKind) → same_kind j k ≡ true → j ≡ k
unfolding same_kind
same_kind-eq exact exact h = refl
same_kind-eq wildcard wildcard h = refl
same_kind-eq exact wildcard h = cc
same_kind-eq wildcard exact h = cc

same_pattern-eq : (p q : HostPattern) → same_pattern p q ≡ true → p ≡ q
unfolding same_pattern
same_pattern-eq p q h =
    let (k, n) = and_true (same_kind p.kind q.kind) (equal p.host q.host) h in
    let kinds = same_kind-eq p.kind q.kind k in
    let names = (equal_iff p.host q.host).0 n in λ i. record { kind = kinds i; host = names i }

again : (a b c : Bool) → a ≡ c → (a || b) ≡ (a || b || c)
again a b c h = ground arith

any_matches-append :
    (ps : List HostPattern) (p : HostPattern) (host : Bytes)
    → any_matches (ps ++ p ∷ []) host ≡ any_matches ps host || matches p host
unfolding any_matches
any_matches-append [] p host = ground arith
any_matches-append (q ∷ qs) p host = ground (arith, any_matches-append qs p host)

-- A pattern that is there already adds nothing.
any_matches-has_pattern :
    (ps : List HostPattern) (p : HostPattern) (host : Bytes)
    → has_pattern p ps ≡ true
    → any_matches ps host ≡ any_matches ps host || matches p host
unfolding any_matches has_pattern
any_matches-has_pattern [] p host h = cc
any_matches-has_pattern (q ∷ qs) p host h = elim (Bool-cases (same_pattern q p)) [
  | inl e ↦
      again (matches q host) (any_matches qs host) (matches p host)
        (ap (λ r. matches r host) (same_pattern-eq q p e))
  | inr e ↦ ground (arith, any_matches-has_pattern qs p host)
]

any_matches-add :
    (a : Allowlist) (p : HostPattern) (host : Bytes)
    → any_matches (add a p).patterns host ≡ any_matches a.patterns host || matches p host
unfolding add
any_matches-add a p host =
    ground (arith, any_matches-append a.patterns p host, any_matches-has_pattern a.patterns p host)

all_hosts-add : (a : Allowlist) (p : HostPattern) → (add a p).all_hosts ≡ a.all_hosts
unfolding add
all_hosts-add a p = ground arith

-- Whether one of the entries is a pattern that matches.
abbrev pub entries_match : List Bytes → Bytes → Bool
entries_match [] host = false
entries_match (e ∷ es) host =
    elim (parse_host_pattern e) [ ok p ↦ matches p host | err x ↦ false ] || entries_match es host

add_entries-matches :
    (es : List Bytes) (list : Allowlist) (host : Bytes) {a : Allowlist}
    → add_entries list es ≡ ok a
    → (any_matches a.patterns host ≡ any_matches list.patterns host || entries_match es host)
      × (a.all_hosts ≡ list.all_hosts)
unfolding add_entries add_parsed
add_entries-matches [] list host h = ground arith
add_entries-matches (e ∷ es) list host h = elim (Result-cases (parse_host_pattern e)) [
  | inl (p, q) ↦
      let later = add_entries-matches es (add list p) host (rw (q, add_parsed) at h) in
      ground (arith, later, any_matches-add list p host, all_hosts-add list p, q)
  | inr (x, q) ↦ cc (rw (q, add_parsed) at h)
]

-- An accepted list matches a host exactly if one of its entries does, duplicates or not, and it
-- never allows all hosts.
pub parse_allowlist-matches :
    (es : List Bytes) (host : Bytes) {a : Allowlist}
    → parse_allowlist es ≡ ok a
    → (any_matches a.patterns host ≡ entries_match es host) × (a.all_hosts ≡ false)
unfolding parse_allowlist empty_allowlist any_matches
parse_allowlist-matches es host h = add_entries-matches es _ host h

-- Every entry is a pattern.
abbrev pub AllParse : List Bytes → Type 0
AllParse [] = Unit {0}
AllParse (e ∷ es) = ((p : HostPattern) × (parse_host_pattern e ≡ ok p)) × AllParse es

add_entries-first :
    (good : List Bytes) (bad : Bytes) (rest : List Bytes) (list : Allowlist) (x : PatternError)
    → AllParse good
    → parse_host_pattern bad ≡ err x
    → add_entries list (good ++ bad ∷ rest) ≡ err x
unfolding add_entries add_parsed
add_entries-first [] bad rest list x g b = rw (b, add_parsed)
add_entries-first (e ∷ es) bad rest list x ((p, q), g) b =
    rw (q, add_parsed) (add_entries-first es bad rest (add list p) x g b)

-- The error of a list is that of its first invalid entry: nothing behind it is skipped or kept.
pub parse_allowlist-first :
    (good : List Bytes) (bad : Bytes) (rest : List Bytes) (x : PatternError)
    → AllParse good
    → parse_host_pattern bad ≡ err x
    → parse_allowlist (good ++ bad ∷ rest) ≡ err x
unfolding parse_allowlist
parse_allowlist-first good bad rest x g b = add_entries-first good bad rest empty_allowlist x g b

-- The lines of a file that are neither blank nor a comment, trimmed.
abbrev pub entries_of : List Bytes → List Bytes
entries_of [] = []
entries_of (l ∷ ls) =
    if equal (trim_space l) [] || starts_with_hash (trim_space l)
    then entries_of ls
    else trim_space l ∷ entries_of ls

abbrev pub accepted : {E : Type 0} → Result E Allowlist → Option Allowlist
accepted (ok a) = some a
accepted (err e) = none

add_lines-entries :
    (ls : List Bytes) (list : Allowlist) (n : ℕ)
    → accepted (add_lines list n ls false) ≡ accepted (add_entries list (entries_of ls))
unfolding add_lines add_line add_entries add_parsed at
add_lines-entries [] list n = refl
add_lines-entries (l ∷ ls) list n =
    elim (Bool-cases (equal (trim_space l) [] || starts_with_hash (trim_space l))) [
      | inl skip ↦ rw skip (add_lines-entries ls list (n + 1))
      | inr keep ↦ elim (Result-cases (parse_host_pattern (trim_space l))) [
        | inl (p, q) ↦ rw (keep, q, add_parsed) (add_lines-entries ls (add list p) (n + 1))
        | inr (x, q) ↦ rw (keep, q, add_parsed)
      ]
    ]

-- A file that the scanner reads to its end gives the list of its entries: blank lines and
-- comments are left out, and everything else is held to the same rules.
pub read_allowlist-parse_allowlist :
    (file : Bytes)
    → (scan_lines file).1 ≡ false
    → accepted (read_allowlist file) ≡ accepted (parse_allowlist (entries_of (scan_lines file).0))
unfolding read_allowlist parse_allowlist
read_allowlist-parse_allowlist file whole =
    rw whole (add_lines-entries (scan_lines file).0 empty_allowlist 0)
