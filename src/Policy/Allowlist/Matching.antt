-- ===== src/Policy/Allowlist/Matching.antt =====
-- `HostPattern.matches` against a description by concatenation, and the decision of `Permits`.
use dproxy.Base.{
  ℕ, zero, suc, ◌+◌, ◌-◌, ◌<◌, ◌≡◌, refl, sym, ap, ◌∙◌, ◌≢◌, ◌↔◌, ◌⊎◌, inl, inr, Bool, true, false,
  ◌||◌, some, List, [], ◌∷◌, ◌++◌, append_assoc, arith, length, get_elem?, take, drop,
  length-append, take-append-drop, drop-append, get_elem?-append, length-take_le,
}
use dproxy.Base.Text.{Bytes, equal, equal_iff, has_suffix}
use dproxy.Policy.Decision.{allow, deny}
use dproxy.Policy.Destination.{Destination, is_zero}
use dproxy.Policy.Allowlist.{
  PatternKind, exact, wildcard, HostPattern, matches, matches_wildcard, is_dot, Allowlist,
  any_matches, permits,
}

-- What a pattern is meant to match: its name itself, or a name with at least one byte and a dot
-- in front of it.
abbrev pub MatchesName : PatternKind → Bytes → Bytes → Type 0
MatchesName exact name host = host ≡ name
MatchesName wildcard name host = (front : Bytes) × (front ≢ []) × (host ≡ front ++ b'.' ∷ name)

drop_step : (xs : Bytes) (i : ℕ) {x : ℕ} → get_elem? xs i ≡ some x → drop i xs ≡ x ∷ drop (suc i) xs
drop_step [] i h = cc
drop_step (y ∷ xs) zero h = cc
drop_step (y ∷ xs) (suc i) h = drop_step xs i h

wildcard_facts :
    (name host : Bytes)
    → matches_wildcard name host ≡ true
    → (length name + 1 < length host)
      × (equal (drop (length host - length name) host) name ≡ true)
      × (get_elem? host (length host - length name - 1) ≡ some b'.')
unfolding matches_wildcard has_suffix is_dot
wildcard_facts name host h = ground arith

wildcard_sound :
    (name host : Bytes)
    → matches_wildcard name host ≡ true
    → (front : Bytes) × (front ≢ []) × (host ≡ front ++ b'.' ∷ name)
wildcard_sound name host h =
    let (longer, tail_is, dot) = wildcard_facts name host h in
    let k : ℕ = length host - length name - 1 in
    let next : suc k ≡ length host - length name = omega arith in
    let rest : drop k host ≡ b'.' ∷ name =
      drop_step host k dot
      ∙ ap (λ i. b'.' ∷ drop i host) next
      ∙ ap (◌∷◌ b'.') ((equal_iff _ name).0 tail_is) in
    (
      take k host,
      (λ e. absurd (omega (arith, ap length e, length-take_le k host (omega arith)))),
      sym (take-append-drop k host) ∙ ap (◌++◌ (take k host)) rest,
    )

wildcard_complete :
    (name front : Bytes) → front ≢ [] → matches_wildcard name (front ++ b'.' ∷ name) ≡ true
unfolding matches_wildcard has_suffix is_dot
wildcard_complete name front ne =
    let len = length-append front (b'.' ∷ name) in
    let at_name : length (front ++ b'.' ∷ name) - length name ≡ length (front ++ b'.' ∷ []) =
      omega (arith, len, length-append front (b'.' ∷ [])) in
    let at_dot : length (front ++ b'.' ∷ name) - length name - 1 ≡ length front =
      omega (arith, len) in
    let split_there : front ++ b'.' ∷ name ≡ (front ++ b'.' ∷ []) ++ name =
      sym (append_assoc front (b'.' ∷ []) name) in
    let tail_is : drop (length (front ++ b'.' ∷ name) - length name) (front ++ b'.' ∷ name) ≡ name =
      ap (λ i. drop i (front ++ b'.' ∷ name)) at_name
      ∙ ap (drop (length (front ++ b'.' ∷ []))) split_there
      ∙ drop-append (front ++ b'.' ∷ []) name in
    let dot : get_elem? (front ++ b'.' ∷ name) (length (front ++ b'.' ∷ name) - length name - 1)
        ≡ some b'.' =
      ap (get_elem? (front ++ b'.' ∷ name)) at_dot ∙ get_elem?-append front b'.' name in
    let some_front : 0 < length front = positive front ne in
    ground (arith, len, (equal_iff _ name).1 tail_is, dot)
  where
    positive : (s : Bytes) → s ≢ [] → 0 < length s
    positive [] h = absurd (h refl)
    positive (c ∷ s) h = omega arith

equal_nil_ne : (host : Bytes) → host ≢ [] → equal host [] ≡ false
equal_nil_ne host ne = ground (arith, equal_iff host [])

ne_of_equal_nil : (host : Bytes) → equal host [] ≡ false → host ≢ []
ne_of_equal_nil host h = ground (arith, equal_iff host [])

matches_wildcard_guard :
    (name host : Bytes)
    → matches (record { kind = wildcard; host = name }) host ≡ true
    → (equal host [] ≡ false) × (matches_wildcard name host ≡ true)
unfolding matches
matches_wildcard_guard name host h = ground arith

kind_iff :
    (kind : PatternKind) (name host : Bytes)
    → (matches (record { kind = kind; host = name }) host ≡ true)
      ↔ ((host ≢ []) × MatchesName kind name host)
unfolding matches
kind_iff exact name host = ground (arith, equal_iff host [], equal_iff host name)
kind_iff wildcard name host = (
  λ h.
      let (ne, m) = matches_wildcard_guard name host h in
      (ne_of_equal_nil host ne, wildcard_sound name host m),
  λ h.
      let (front, some_front, e) = h.1 in
      rw (equal_nil_ne host h.0) (rw e (wildcard_complete name front some_front)),
)

-- A pattern matches a name exactly as it is meant to: an exact pattern its own name, a wildcard
-- any name that puts at least one byte and a dot in front of the suffix, and none the empty name.
pub matches_iff :
    (p : HostPattern) (host : Bytes)
    → (matches p host ≡ true) ↔ ((host ≢ []) × MatchesName p.kind p.host host)
unfolding matches
matches_iff p host = kind_iff p.kind p.host host

-- The names that an allowlist lets through.
abbrev pub AnyMatches : List HostPattern → Bytes → Type 0
AnyMatches [] host = ⊥
AnyMatches (p ∷ ps) host = MatchesName p.kind p.host host ⊎ AnyMatches ps host

or_cases : (a b : Bool) → (a || b) ≡ true → (a ≡ true) ⊎ (b ≡ true)
or_cases a b h = ground arith

or_right : (a b : Bool) → b ≡ true → (a || b) ≡ true
or_right a b h = ground arith

any_matches_iff :
    (ps : List HostPattern) (host : Bytes)
    → (any_matches ps host ≡ true) ↔ ((host ≢ []) × AnyMatches ps host)
unfolding any_matches
any_matches_iff [] host = (λ h. cc, λ h. absurd h.1)
any_matches_iff (p ∷ ps) host = (
  λ h. elim (or_cases (matches p host) (any_matches ps host) h) [
    | inl m ↦ let (ne, found) = (matches_iff p host).0 m in (ne, inl found)
    | inr m ↦ let (ne, found) = (any_matches_iff ps host).0 m in (ne, inr found)
  ],
  λ h. elim h.1 [
    | inl m ↦ ap (λ b. b || any_matches ps host) ((matches_iff p host).1 (h.0, m))
    | inr m ↦ or_right (matches p host) (any_matches ps host) ((any_matches_iff ps host).1 (h.0, m))
  ],
)

-- `Permits` allows a destination exactly if it names a host, its port is 443, and the list is
-- unrestricted or one of its patterns is meant to match the host.
pub permits_iff :
    (a : Allowlist) (d : Destination)
    → ((permits a d).allowed ≡ true)
      ↔ ((d.host ≢ []) × (d.port ≡ 443) × ((a.all_hosts ≡ true) ⊎ AnyMatches a.patterns d.host))
unfolding permits is_zero allow deny
permits_iff a d = ground (
  arith,
  equal_iff d.host [],
  (any_matches_iff a.patterns d.host).0,
  (any_matches_iff a.patterns d.host).1,
)
