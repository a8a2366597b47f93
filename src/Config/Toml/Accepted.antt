-- ===== src/Config/Toml/Accepted.antt =====
-- What `parseTOML` accepts, line by line.
use dproxy.Base.{
  ℕ, ◌+◌, ◌≡◌, refl, sym, Bool, true, false, not, ◌||◌, Option, none, some, List, [], ◌∷◌, ◌++◌,
  arith, if◌then◌else◌, Result, ok, err, length,
}
use dproxy.Base.Text.{Bytes, equal, has_prefix, has_suffix, contains, cut, trim_suffix}
use dproxy.Base.Space.{trim_space}
use dproxy.Base.Scanner.{scan_lines}
use dproxy.Base.Outcomes.{OkWith, OkWith-ok, choose_OkWith, bind-OkWith}
use dproxy.Config.Toml.{
  TomlFault, TomlDocument, validate_bare_key, parse_table_header, without_ends, Pending, Parser,
  located, take_key_value, take_line, continue_value, by_line, at_file_end, parse_lines, parse_toml,
  scan_value, malformed_header, table_array, nested_table,
}
use dproxy.Config.Toml.Invariant.{IsBare, IsSection, IsDocument, later}
use dproxy.Config.Toml.Entries.{
  PendingOk, validate_bare_key-IsBare, IsParser, IsReady, take_value-IsParser,
  take_key_value-IsParser, located-OkWith, Anything, anything,
}

checked_name :
    (name : Bytes) (r : Option TomlFault)
    → validate_bare_key name ≡ r
    → OkWith IsBare (elim r [ some e ↦ err e | none ↦ ok name ])
checked_name name none e = validate_bare_key-IsBare name e
checked_name name (some f) e = tt

parse_table_header-IsBare : (line : Bytes) → OkWith IsBare (parse_table_header line)
unfolding parse_table_header
parse_table_header-IsBare line =
    let name = trim_space (without_ends line) in
    let named = elim (validate_bare_key name) as (λ x. Result TomlFault Bytes) [
      | some e ↦ err e
      | none ↦ ok name
    ] in
    let flat = if contains name b'.' then err nested_table else named in
    let single = if has_prefix name (b'[' ∷ []) then err table_array else flat in
    choose_OkWith IsBare (not (has_suffix line (b']' ∷ []))) (err malformed_header) single (λ _. tt)
      (λ _.
        choose_OkWith IsBare (has_prefix name (b'[' ∷ [])) (err table_array) flat (λ _. tt)
          (λ _.
            choose_OkWith IsBare (contains name b'.') (err nested_table) named (λ _. tt)
              (λ _. checked_name name (validate_bare_key name) refl)))

bare-IsSection : (name : Bytes) → IsBare name → IsSection name
bare-IsSection [] b = tt
bare-IsSection (c ∷ s) b = b

take_line-IsParser :
    (p : Parser) (line : ℕ) (text : Bytes)
    → IsSection p.section
    → IsDocument p.document line
    → p.pending ≡ none
    → OkWith (IsParser (line + 1)) (take_line p (line + 1) text)
unfolding take_line
take_line-IsParser p line text sec k idle =
    let next = later p.document line (line + 1) k (omega arith) in
    let stays : (s : Bytes) → IsSection s → IsParser (line + 1) (record p { section = s }) =
      λ s h. record { section = h; so_far = rw idle next } in
    let header = parse_table_header text in
    choose_OkWith (IsParser (line + 1)) (equal text [] || has_prefix text (b'#' ∷ [])) (ok p) _
      (λ _. stays p.section sec)
      (λ _.
        choose_OkWith (IsParser (line + 1)) (has_prefix text (b'[' ∷ [])) _
          (take_key_value p (line + 1) (cut b'=' text))
          (λ _.
            bind-OkWith IsBare (IsParser (line + 1)) (located (line + 1) header) _
              (located-OkWith IsBare (line + 1) header (parse_table_header-IsBare text))
              (λ name bare. stays name (bare-IsSection name bare)))
          (λ _. take_key_value-IsParser p line (cut b'=' text) sec k))

continue_value-IsParser :
    (p : Parser) (v : Pending) (line : ℕ) (text : Bytes)
    → IsReady p v line
    → OkWith (IsParser (line + 1)) (continue_value p v (line + 1) text)
unfolding continue_value
continue_value-IsParser p v line text k =
    let r = scan_value text v.depth in
    bind-OkWith Anything (IsParser (line + 1)) (located (line + 1) r) _
      (located-OkWith Anything (line + 1) r (anything r))
      (λ (fragment, depth) _.
        take_value-IsParser p (record v { value = v.value ++ fragment; depth = depth }) (line + 1)
          (record {
            section = k.section;
            hi = k.hi;
            document = k.document;
            starts = k.starts;
            within = omega (arith, k.within);
            bare = k.bare;
          }))

by_line-IsParser :
    (p : Parser) (line : ℕ) (text : Bytes) (pending : Option Pending)
    → p.pending ≡ pending
    → IsSection p.section
    → PendingOk p.document pending line
    → OkWith (IsParser (line + 1)) (by_line p pending (line + 1) text)
unfolding by_line
by_line-IsParser p line text none e sec k = take_line-IsParser p line text sec k e
by_line-IsParser p line text (some v) e sec (hi, k, starts, within, bare) =
    continue_value-IsParser p v line text (record {
      section = sec;
      hi = hi;
      document = k;
      starts = starts;
      within = within;
      bare = bare;
    })

at_file_end-IsDocument :
    (p : Parser) (line : ℕ) (pending : Option Pending) (failed : Bool)
    → PendingOk p.document pending line
    → OkWith (λ d. IsDocument d line) (at_file_end p pending failed)
unfolding at_file_end
at_file_end-IsDocument p line (some v) failed k = tt
at_file_end-IsDocument p line none true k = tt
at_file_end-IsDocument p line none false k = k

parse_lines-IsDocument :
    (lines : List Bytes) (p : Parser) (line : ℕ) (failed : Bool)
    → IsParser line p
    → OkWith (λ d. IsDocument d (line + length lines)) (parse_lines p line lines failed)
unfolding parse_lines
parse_lines-IsDocument [] p line failed k =
    let same : line + 0 ≡ line = omega arith in
    rw same (at_file_end-IsDocument p line p.pending failed k.so_far)
parse_lines-IsDocument (text ∷ rest) p line failed k =
    let same : line + length (text ∷ rest) ≡ line + 1 + length rest = omega arith in
    rw same (
      bind-OkWith (IsParser (line + 1)) (λ d. IsDocument d (line + 1 + length rest))
        (by_line p p.pending (line + 1) (trim_space (trim_suffix 13 text))) _
        (by_line-IsParser p line (trim_space (trim_suffix 13 text)) p.pending refl k.section
          k.so_far)
        (λ next n. parse_lines-IsDocument rest next (line + 1) failed n))

-- A file that `parseTOML` accepts gives a document with no key twice; each key is a bare name, at
-- the top or behind the bare name of a table, each value has text, and the lines of the entries are
-- lines of the file and grow.
pub parse_toml-IsDocument :
    (file : Bytes) (d : TomlDocument)
    → parse_toml file ≡ ok d
    → IsDocument d (length (scan_lines file).0)
unfolding parse_toml
parse_toml-IsDocument file d e =
    let lines = (scan_lines file).0 in
    let failed = (scan_lines file).1 in
    let start : Parser = record { section = []; document = []; pending = none } in
    let same : 0 + length lines ≡ length lines = omega arith in
    rw (sym same) (
      OkWith-ok (λ d. IsDocument d (0 + length lines)) (parse_lines start 0 lines failed)
        (parse_lines-IsDocument lines start 0 failed (record {
          section = tt;
          so_far = record { fresh = tt; ordered = omega arith; entries = tt };
        }))
        e)
