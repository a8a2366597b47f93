-- ===== src/Net/ParseAddr.antt =====
-- `netip.ParseAddr`.
pub mod Port
use dproxy.Base.{
  ℕ, zero, suc, ◌+◌, ◌-◌, ◌*◌, ◌/◌, ◌%◌, Bool, true, false, not, ◌&&◌, ◌||◌, Option, none, some,
  List, [], ◌∷◌, ◌++◌, ltb, ◌==◌, within, if◌then◌else◌, length, take, drop,
}
use dproxy.Base.Text.{Bytes, cut}
use dproxy.Net.Addr.{Addr, v4, v6}

abbrev pub is_digit : ℕ → Bool
is_digit c = within b'0' b'9' c

abbrev is_empty : Bytes → Bool
is_empty [] = true
is_empty (c ∷ s) = false

-- `val` and `digits` describe the octet being read, `pos` and `acc` the octets before it.
unfoldable pub ipv4_fields : Bytes → ℕ → ℕ → ℕ → ℕ → Option ℕ
ipv4_fields [] val digits pos acc = if pos == 3 then some (acc * 256 + val) else none
ipv4_fields (c ∷ s) val digits pos acc =
    let value = val * 10 + (c - b'0') in
    let more = ipv4_fields s value (digits + 1) pos acc in
    let next = ipv4_fields s 0 0 (pos + 1) (acc * 256 + val) in
    if is_digit c
    then if digits == 1 && val == 0 then none else if ltb 255 value then none else more
    else if c == b'.'
    then if digits == 0 || is_empty s then none else if pos == 3 then none else next
    else none

unfoldable pub parse_ipv4 : Bytes → Option ℕ
parse_ipv4 s = ipv4_fields s 0 0 0 0

hex_value : ℕ → Option ℕ
hex_value c =
    if is_digit c
    then some (c - b'0')
    else if within b'a' b'f' c
    then some (c - b'a' + 10)
    else if within b'A' b'F' c
    then some (c - b'A' + 10)
    else none

-- At most four hex digits: how many, their value, and what follows.
hex_group : Bytes → ℕ → ℕ → Option (ℕ × ℕ × Bytes)
hex_group [] off acc = some (off, acc, [])
hex_group (c ∷ s) off acc = elim (hex_value c) [
  | none ↦ some (off, acc, c ∷ s)
  | some d ↦ elim (ltb 3 off) [ true ↦ none | false ↦ hex_group s (off + 1) (acc * 16 + d) ]
]

zeros : ℕ → List ℕ
zeros zero = []
zeros (suc n) = 0 ∷ zeros n

join_groups : ℕ → List ℕ → ℕ
join_groups acc [] = acc
join_groups acc (g ∷ gs) = join_groups (acc * 65536 + g) gs

-- The end of `parseIPv6`: eight groups and no ellipsis, or fewer and an ellipsis.
ipv6_finish : Bytes → List ℕ → Option ℕ → Option ℕ
unfolding zeros join_groups
ipv6_finish (_ ∷ _) groups ellipsis = none
ipv6_finish [] groups none = if length groups == 8 then some (join_groups 0 groups) else none
ipv6_finish [] groups (some e) =
    if length groups == 8
    then none
    else some (join_groups 0 (take e groups ++ (zeros (8 - length groups) ++ drop e groups)))

-- A dotted quad fills the last four bytes; `left` counts the groups that may still come.
ipv6_tail : ℕ → Bytes → List ℕ → Option ℕ → Option ℕ
unfolding ipv6_finish
ipv6_tail left s groups ellipsis = elim (parse_ipv4 s) [
  | none ↦ none
  | some q ↦ if ltb left 2 then none else elim ellipsis [
    | none ↦
        if left == 2 then ipv6_finish [] (groups ++ (q / 65536) ∷ (q % 65536) ∷ []) none else none
    | some e ↦ ipv6_finish [] (groups ++ (q / 65536) ∷ (q % 65536) ∷ []) (some e)
  ]
]

-- What follows a group: the end, or a colon and more, or the ellipsis.
pub data Next : Type 0 where
  stop bad : Next
  ellipsis_end : Next
  go_on ellipsis_then : Bytes → Next

next_of : Bytes → Next
next_of [] = stop
next_of (c ∷ []) = bad
next_of (c ∷ d ∷ s) =
    if not (c == b':')
    then bad
    else if d == b':'
    then elim s [ [] ↦ ellipsis_end | x ∷ r ↦ ellipsis_then (x ∷ r) ]
    else go_on (d ∷ s)

starts_dot : Bytes → Bool
starts_dot [] = false
starts_dot (c ∷ s) = c == b'.'

ipv6_loop : ℕ → Bytes → List ℕ → Option ℕ → Option ℕ
unfolding ipv6_finish ipv6_tail hex_group hex_value next_of starts_dot
ipv6_loop zero s groups ellipsis = ipv6_finish s groups ellipsis
ipv6_loop (suc left) s groups ellipsis = elim (hex_group s 0 0) [
  | none ↦ none
  | some (zero, acc, rest) ↦ none
  | some (suc off, acc, rest) ↦ elim (starts_dot rest) [
    | true ↦ ipv6_tail (suc left) s groups ellipsis
    | false ↦ elim (next_of rest) [
      | stop ↦ ipv6_finish [] (groups ++ acc ∷ []) ellipsis
      | bad ↦ none
      | ellipsis_end ↦ elim ellipsis [
        | none ↦ ipv6_finish [] (groups ++ acc ∷ []) (some (length groups + 1))
        | some e ↦ none
      ]
      | go_on more ↦ ipv6_loop left more (groups ++ acc ∷ []) ellipsis
      | ellipsis_then more ↦ elim ellipsis [
        | none ↦ ipv6_loop left more (groups ++ acc ∷ []) (some (length groups + 1))
        | some e ↦ none
      ]
    ]
  ]
]

-- A leading "::" is an ellipsis in front of the first group.
ipv6_groups : Bytes → Option ℕ
unfolding ipv6_loop
ipv6_groups [] = ipv6_loop 8 [] [] none
ipv6_groups (c ∷ []) = ipv6_loop 8 (c ∷ []) [] none
ipv6_groups (c ∷ d ∷ s) =
    if c == b':' && d == b':'
    then elim s [ [] ↦ some 0 | x ∷ r ↦ ipv6_loop 8 (x ∷ r) [] (some 0) ]
    else ipv6_loop 8 (c ∷ d ∷ s) [] none

parse_ipv6 : Bytes → Option Addr
unfolding ipv6_groups cut
parse_ipv6 s = elim (cut b'%' s) [
  | none ↦ elim (ipv6_groups s) [ none ↦ none | some n ↦ some (v6 n []) ]
  | some (before, []) ↦ none
  | some (before, c ∷ z) ↦ elim (ipv6_groups before) [ none ↦ none | some n ↦ some (v6 n (c ∷ z)) ]
]

-- The first of '.', ':' and '%' decides the family.
unfoldable pub parse_as : Bytes → Bytes → Option Addr
unfolding parse_ipv4 ipv4_fields parse_ipv6
parse_as whole [] = none
parse_as whole (c ∷ s) =
    let rest = parse_as whole s in
    if c == b'.'
    then elim (parse_ipv4 whole) [ none ↦ none | some n ↦ some (v4 n) ]
    else if c == b':'
    then parse_ipv6 whole
    else if c == b'%'
    then none
    else rest

unfoldable pub parse_addr : Bytes → Option Addr
unfolding parse_as
parse_addr s = parse_as s s
