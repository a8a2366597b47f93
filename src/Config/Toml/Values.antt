-- ===== src/Config/Toml/Values.antt =====
-- internal/config/toml.go: what the settings make of the values. `strconv.Unquote` and
-- `time.ParseDuration` are parameters; an integer is in 64 bits.
use dproxy.Base.{
  ℕ, ◌+◌, ◌-◌, ◌*◌, ◌^◌, Bool, true, false, not, ◌&&◌, ◌||◌, Option, none, some, List, [], ◌∷◌,
  ◌==◌, leb, ltb, if◌then◌else◌, Result, ok, err, ◌>>=◌, length, all, map,
}
use dproxy.Base.Text.{Bytes, codes, equal, has_prefix, has_suffix}
use dproxy.Base.Space.{trim_space}
use dproxy.Net.ParseAddr.{is_digit}
use dproxy.Config.Toml.{
  wrong_type, TomlError, at_line, TomlDocument, find_entry, without_ends, ScanState, in_string,
}

-- `len(raw) >= 2 && raw[0] == q && raw[len(raw)-1] == q`
unfoldable pub is_quoted_by : ℕ → Bytes → Bool
unfolding has_prefix has_suffix
is_quoted_by q raw = leb 2 (length raw) && (has_prefix raw (q ∷ []) && has_suffix raw (q ∷ []))

-- What is wrong with an array.
pub data ArrayFault : Type 0 where
  no_brackets nested_array open_string empty_element not_quoted : ArrayFault

-- The splitter's string scan: its state, and the element that it is in.
unfoldable pub split_bytes : ScanState → Bytes → Result ArrayFault (Bytes × List Bytes)
unfolding in_string
split_bytes s [] = if s.quote == 0 then ok ([], []) else err open_string
split_bytes s (c ∷ content) =
    let next =
      if not (s.quote == 0)
      then in_string s c
      else if c == b'"' || c == b'\''
      then record s { quote = c }
      else s in
    if s.quote == 0 && (c == b'[' || c == b']')
    then err nested_array
    else split_bytes next content >>= λ (current, later).
        ok (if s.quote == 0 && c == b',' then ([], current ∷ later) else (c ∷ current, later))

-- The last element is left out where it is empty: a comma may end the array.
unfoldable pub drop_empty_last : List Bytes → List Bytes
unfolding equal
drop_empty_last [] = []
drop_empty_last (e ∷ []) = if equal e [] then [] else e ∷ []
drop_empty_last (e ∷ f ∷ es) = e ∷ drop_empty_last (f ∷ es)

unfoldable pub has_empty : List Bytes → Bool
unfolding equal
has_empty [] = false
has_empty (e ∷ es) = equal e [] || has_empty es

abbrev pub outside_strings : ScanState
outside_strings = record { quote = 0; escaped = false; depth = 0 }

-- `splitArrayElements`
unfoldable pub split_array_elements : Bytes → Result ArrayFault (List Bytes)
unfolding split_bytes drop_empty_last has_empty trim_space
split_array_elements content = split_bytes outside_strings content >>= λ (first, later).
    let elements = drop_empty_last (map trim_space (first ∷ later)) in
    if has_empty elements then err empty_element else ok elements

-- The value, or what it has to be.
unfoldable pub required : {A : Type 0} → Bytes → ℕ → Option A → Result TomlError A
required key line (some a) = ok a
required key line none = err (at_line line (wrong_type key))

pub data ℤ : Type 0 where
  pos negsuc : ℕ → ℤ

decimal_value : ℕ → Bytes → ℕ
decimal_value acc [] = acc
decimal_value acc (c ∷ s) = decimal_value (acc * 10 + (c - b'0')) s

-- The digits behind the sign, within 64 bits.
signed : Bool → Bytes → Option ℤ
unfolding decimal_value
signed negative digits =
    let n = decimal_value 0 digits in
    if length digits == 0 || not (all is_digit digits)
    then none
    else if not negative
    then (if ltb n (2 ^ 63) then some (pos n) else none)
    else if n == 0
    then some (pos 0)
    else if leb n (2 ^ 63)
    then some (negsuc (n - 1))
    else none

-- `strconv.Atoi`
unfoldable pub atoi : Bytes → Option ℤ
unfolding signed
atoi [] = none
atoi (c ∷ s) =
    if c == b'-' then signed true s else if c == b'+' then signed false s else signed false (c ∷ s)

module _ (go_unquote : Bytes → Option Bytes) where
  -- `unquote`
  unfoldable pub unquote : Bytes → Option Bytes
  unfolding is_quoted_by
  unquote raw =
      if is_quoted_by b'\'' raw
      then some (without_ends raw)
      else if is_quoted_by b'"' raw
      then go_unquote raw
      else none

  unfoldable pub unquote_all : List Bytes → Result ArrayFault (List Bytes)
  unfolding unquote
  unquote_all [] = ok []
  unquote_all (e ∷ es) = elim (unquote e) [
    | none ↦ err not_quoted
    | some value ↦ (unquote_all es >>= λ values. ok (value ∷ values))
  ]

  -- `parseStringArray`
  unfoldable pub parse_string_array : Bytes → Result ArrayFault (List Bytes)
  unfolding has_prefix has_suffix equal split_array_elements unquote_all trim_space
  parse_string_array raw =
      let content = trim_space (without_ends raw) in
      if not (has_prefix raw (b'[' ∷ [])) || not (has_suffix raw (b']' ∷ []))
      then err no_brackets
      else if equal content []
      then ok []
      else split_array_elements content >>= unquote_all

  -- `applyString`: the setting's new value.
  unfoldable pub apply_string : TomlDocument → Bytes → Bytes → Result TomlError Bytes
  unfolding find_entry required unquote
  apply_string document key into = elim (find_entry key document) [
    | none ↦ ok into
    | some e ↦ required key e.line (unquote e.raw)
  ]

  -- `applyStrings`
  unfoldable pub apply_strings : TomlDocument → Bytes → List Bytes → Result TomlError (List Bytes)
  unfolding find_entry parse_string_array
  apply_strings document key into = elim (find_entry key document) [
    | none ↦ ok into
    | some e ↦ elim (parse_string_array e.raw) [
      | ok values ↦ ok values
      | err f ↦ err (at_line e.line (wrong_type key))
    ]
  ]

  -- `applyDuration`
  unfoldable pub apply_duration :
      {D : Type 0} → (Bytes → Option D) → TomlDocument → Bytes → D → Result TomlError D
  unfolding find_entry required unquote
  apply_duration parse_duration document key into = elim (find_entry key document) [
    | none ↦ ok into
    | some e ↦
        (required key e.line (unquote e.raw) >>= λ text. required key e.line (parse_duration text))
  ]

bool_value : Bytes → Option Bool
unfolding equal
bool_value raw =
    if equal raw (codes "true")
    then some true
    else if equal raw (codes "false")
    then some false
    else none

-- `applyBool`
unfoldable pub apply_bool : TomlDocument → Bytes → Bool → Result TomlError Bool
unfolding find_entry required bool_value
apply_bool document key into = elim (find_entry key document) [
  | none ↦ ok into
  | some e ↦ required key e.line (bool_value e.raw)
]

-- `applyInt`
unfoldable pub apply_int : TomlDocument → Bytes → ℤ → Result TomlError ℤ
unfolding find_entry required atoi
apply_int document key into = elim (find_entry key document) [
  | none ↦ ok into
  | some e ↦ required key e.line (atoi e.raw)
]
