-- ===== src/Config/Toml.antt =====
-- internal/config/toml.go: the subset of TOML that the configuration is written in. The path of the
-- file, which stands in messages only, is left out, and of an error's prose what it says.
pub mod Values
pub mod Scan
pub mod Settings
pub mod RoundTrip
pub mod File
pub mod Strings
pub mod Arrays
pub mod Invariant
pub mod Entries
pub mod Accepted
use dproxy.Base.{
  ℕ, ◌+◌, ◌-◌, Bool, true, false, not, ◌&&◌, ◌||◌, Option, none, some, List, [], ◌∷◌, ◌++◌, ◌==◌,
  within, if◌then◌else◌, Result, ok, err, ◌>>=◌, length, take, drop, all,
}
use dproxy.Base.Text.{Bytes, equal, contains, cut, has_prefix, has_suffix, trim_suffix}
use dproxy.Base.Space.{trim_space}
use dproxy.Base.Scanner.{scan_lines}

pub data TomlFault : Type 0 where
  no_equals empty_key malformed_header table_array nested_table : TomlFault
  unbalanced unterminated_string unterminated_array no_value : TomlFault
  bad_key unknown_key : Bytes → TomlFault
  duplicate_key : Bytes → ℕ → TomlFault
  wrong_type : Bytes → TomlFault

-- `errorAt`, or an error of the scanner.
pub data TomlError : Type 0 where
  at_line : ℕ → TomlFault → TomlError
  read_failed : TomlError

pub record TomlEntry : Type 0 where
  pub key : Bytes
  pub raw : Bytes
  pub line : ℕ

-- `tomlDocument`: its map and the order of its keys, as the entries in the order of the file.
abbrev pub TomlDocument : Type 0
TomlDocument = List TomlEntry

-- `document.entries[key]`
unfoldable pub find_entry : Bytes → TomlDocument → Option TomlEntry
unfolding equal
find_entry key [] = none
find_entry key (e ∷ es) = let rest = find_entry key es in if equal key e.key then some e else rest

abbrev pub is_key_byte : ℕ → Bool
is_key_byte c =
    within b'a' b'z' c || (within b'A' b'Z' c || (within b'0' b'9' c || (c == b'_' || c == b'-')))

-- `validateBareKey`
unfoldable pub validate_bare_key : Bytes → Option TomlFault
validate_bare_key [] = some empty_key
validate_bare_key (c ∷ s) = if all is_key_byte (c ∷ s) then none else some (bad_key (c ∷ s))

-- `s[1 : len(s)-1]`
abbrev pub without_ends : Bytes → Bytes
without_ends s = take (length s - 2) (drop 1 s)

-- `parseTableHeader`
unfoldable pub parse_table_header : Bytes → Result TomlFault Bytes
unfolding has_suffix has_prefix contains validate_bare_key trim_space
parse_table_header line =
    let name = trim_space (without_ends line) in
    if not (has_suffix line (b']' ∷ []))
    then err malformed_header
    else if has_prefix name (b'[' ∷ [])
    then err table_array
    else if contains name b'.'
    then err nested_table
    else elim (validate_bare_key name) [ some e ↦ err e | none ↦ ok name ]

-- Where the scan of a value stands: the open quote, or 0, whether the byte before is a backslash
-- that escapes, and the brackets that are open.
pub record ScanState : Type 0 where
  pub quote : ℕ
  pub escaped : Bool
  pub depth : ℕ

pub data ScanStep : Type 0 where
  comment stray_bracket : ScanStep
  kept : ScanState → ScanStep

-- A byte inside a string, of `scanValue` and of `splitArrayElements`.
unfoldable pub in_string : ScanState → ℕ → ScanState
in_string s c =
    if s.escaped
    then record s { escaped = false }
    else if s.quote == b'"' && c == b'\\'
    then record s { escaped = true }
    else if c == s.quote
    then record s { quote = 0 }
    else s

outside_string : ScanState → ℕ → ScanStep
outside_string s c =
    if c == b'#'
    then comment
    else if c == b'"' || c == b'\''
    then kept (record s { quote = c })
    else if c == b'['
    then kept (record s { depth = s.depth + 1 })
    else if c == b']'
    then (if s.depth == 0 then stray_bracket else kept (record s { depth = s.depth - 1 }))
    else kept s

-- The body of the loop of `scanValue`.
unfoldable pub scan_byte : ScanState → ℕ → ScanStep
unfolding in_string outside_string
scan_byte s c = if s.quote == 0 then outside_string s c else kept (in_string s c)

-- The loop of `scanValue`: the bytes it writes, and the depth at the end.
unfoldable pub scan_bytes : ScanState → Bytes → Result TomlFault (Bytes × ℕ)
unfolding scan_byte
scan_bytes s [] = if s.quote == 0 then ok ([], s.depth) else err unterminated_string
scan_bytes s (c ∷ line) = elim (scan_byte s c) [
  | comment ↦ ok ([], s.depth)
  | stray_bracket ↦ err unbalanced
  | kept t ↦ (scan_bytes t line >>= λ (value, depth). ok (c ∷ value, depth))
]

-- `scanValue`
unfoldable pub scan_value : Bytes → ℕ → Result TomlFault (Bytes × ℕ)
unfolding scan_bytes trim_space
scan_value line start =
    scan_bytes (record { quote = 0; escaped = false; depth = start }) line >>= λ (value, depth).
    ok (trim_space value, depth)

-- An array that the lines so far leave open.
pub record Pending : Type 0 where
  pub name : Bytes
  pub value : Bytes
  pub start_line : ℕ
  pub depth : ℕ

-- The variables of the loop of `parseTOML`.
pub record Parser : Type 0 where
  pub section : Bytes
  pub document : TomlDocument
  pub pending : Option Pending

abbrev pub qualified : Bytes → Bytes → Bytes
qualified section name = if equal section [] then name else section ++ (b'.' ∷ name)

store : Parser → Bytes → Bytes → ℕ → Option TomlEntry → Result TomlError Parser
store p key raw line (some previous) = err (at_line line (duplicate_key key previous.line))
store p key raw line none = ok (record p {
  document = p.document ++ (record { key = key; raw = raw; line = line } ∷ []);
  pending = none;
})

-- The end of a turn of the loop, behind the value.
unfoldable pub finish_entry : Parser → Bytes → Bytes → ℕ → Result TomlError Parser
unfolding store find_entry equal
finish_entry p name raw line =
    let key = qualified p.section name in
    if equal raw []
    then err (at_line line no_value)
    else store p key raw line (find_entry key p.document)

-- A value that may go on in the next line.
unfoldable pub take_value : Parser → Pending → Result TomlError Parser
unfolding finish_entry
take_value p v =
    if v.depth == 0
    then finish_entry p v.name v.value v.start_line
    else ok (record p { pending = some v })

pub located : {A : Type 0} → ℕ → Result TomlFault A → Result TomlError A
located line (ok a) = ok a
located line (err e) = err (at_line line e)

pub take_key_value : Parser → ℕ → Option (Bytes × Bytes) → Result TomlError Parser
unfolding validate_bare_key scan_value take_value located
take_key_value p line none = err (at_line line no_equals)
take_key_value p line (some (before, after)) =
    let name = trim_space before in
    elim (validate_bare_key name) [
      | some e ↦ err (at_line line e)
      | none ↦
          (located line (scan_value (trim_space after) 0) >>= λ (value, depth).
          take_value p (record { name = name; value = value; start_line = line; depth = depth }))
    ]

-- A line, its spaces trimmed, where no array is open.
unfoldable pub take_line : Parser → ℕ → Bytes → Result TomlError Parser
unfolding parse_table_header take_key_value has_prefix cut located
take_line p line text =
    if equal text [] || has_prefix text (b'#' ∷ [])
    then ok p
    else if has_prefix text (b'[' ∷ [])
    then (located line (parse_table_header text) >>= λ name. ok (record p { section = name }))
    else take_key_value p line (cut b'=' text)

-- A line that goes on with an array.
unfoldable pub continue_value : Parser → Pending → ℕ → Bytes → Result TomlError Parser
unfolding scan_value take_value located
continue_value p v line text = located line (scan_value text v.depth) >>= λ (fragment, depth).
    take_value p (record v { value = v.value ++ fragment; depth = depth })

by_line : Parser → Option Pending → ℕ → Bytes → Result TomlError Parser
unfolding take_line continue_value
by_line p none line text = take_line p line text
by_line p (some v) line text = continue_value p v line text

at_file_end : Parser → Option Pending → Bool → Result TomlError TomlDocument
at_file_end p (some v) failed = err (at_line v.start_line unterminated_array)
at_file_end p none failed = if failed then err read_failed else ok p.document

-- The loop of `parseTOML` with the one inside it, over the lines that the scanner gives; `line`
-- counts the lines read before.
unfoldable pub parse_lines : Parser → ℕ → List Bytes → Bool → Result TomlError TomlDocument
unfolding by_line at_file_end trim_suffix trim_space
parse_lines p line [] failed = at_file_end p p.pending failed
parse_lines p line (text ∷ rest) failed =
    by_line p p.pending (line + 1) (trim_space (trim_suffix 13 text)) >>= λ next.
    parse_lines next (line + 1) rest failed

-- `parseTOML`
unfoldable pub parse_toml : Bytes → Result TomlError TomlDocument
unfolding parse_lines scan_lines
parse_toml file =
    let (lines, failed) = scan_lines file in
    parse_lines (record { section = []; document = []; pending = none }) 0 lines failed

-- `rejectUnknownKeys`, over the document's keys in the order of the file.
unfoldable pub reject_unknown_keys : (Bytes → Bool) → TomlDocument → Option TomlError
reject_unknown_keys permitted [] = none
reject_unknown_keys permitted (e ∷ es) =
    let rest = reject_unknown_keys permitted es in
    if permitted e.key then rest else some (at_line e.line (unknown_key e.key))
