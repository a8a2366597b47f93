-- ===== src/Tests/Toml.antt =====
-- Runs of the reader of the configuration file, and its theorems at concrete inputs.
use dproxy.Base.{
  ℕ, ◌≡◌, refl, true, Option, none, some, List, [], ◌∷◌, ◌++◌, ok, err, length, map, arith,
}
use dproxy.Base.Text.{Bytes, codes, equal}
use dproxy.Base.Scanner.{scan_lines}
use dproxy.Base.Scanner.Lines.{unlines}
use dproxy.Config.Toml.{
  at_line, TomlEntry, TomlDocument, find_entry, parse_toml, scan_value, qualified, duplicate_key,
  unterminated_array, nested_table, no_equals, unknown_key, reject_unknown_keys,
}
use dproxy.Config.Toml.Values.{
  unquote, parse_string_array, apply_string, apply_int, apply_bool, atoi, pos, negsuc,
}
use dproxy.Config.Toml.Invariant.{IsDocument}
use dproxy.Config.Toml.Accepted.{parse_toml-IsDocument}
use dproxy.Config.Toml.Scan.{quoted, scan_value-quoted}
use dproxy.Config.Toml.Settings.{Setting}
use dproxy.Config.Toml.RoundTrip.{Item, table, setting, item_line, entries}
use dproxy.Config.Toml.File.{section_after, parse_toml-unlines}
use dproxy.Config.Toml.Strings.{two_strings, between, unquote-two_strings}
use dproxy.Config.Toml.Arrays.{array_text, parse_string_array-array_text}

abbrev entry : Bytes → Bytes → ℕ → TomlEntry
entry key raw line = record { key = key; raw = raw; line = line }

-- A comment, a number, an array over two lines, and a table.
abbrev file : Bytes
file = unlines (
    codes "# limits"
    ∷ codes " count = 4 # at most"
    ∷ codes "hosts = ['a',"
    ∷ codes "  'b#c'] # two"
    ∷ codes "[log]"
    ∷ codes "level = 'info'"
    ∷ [])

abbrev document : TomlDocument
document =
    entry (codes "count") (codes "4") 2
    ∷ entry (codes "hosts") (codes "['a','b#c']") 3
    ∷ entry (codes "log.level") (codes "'info'") 6
    ∷ []

file-parsed : parse_toml file ≡ ok document
unfolding parse_toml
file-parsed = refl

parse_toml-IsDocument_example : IsDocument document (length (scan_lines file).0)
parse_toml-IsDocument_example = parse_toml-IsDocument file document file-parsed

refused :
    (parse_toml (unlines (codes "a = 1" ∷ codes "a = 2" ∷ []))
      ≡ err (at_line 2 (duplicate_key (codes "a") 1)))
    × (parse_toml (unlines (codes "a = ['x'," ∷ codes "" ∷ []))
        ≡ err (at_line 1 unterminated_array))
    × (parse_toml (unlines (codes "[a.b]" ∷ [])) ≡ err (at_line 1 nested_table))
    × (parse_toml (unlines (codes "" ∷ codes "a" ∷ [])) ≡ err (at_line 2 no_equals))
    × (reject_unknown_keys (equal (codes "count")) document
        ≡ some (at_line 3 (unknown_key (codes "hosts"))))
unfolding parse_toml reject_unknown_keys equal
refused = (refl, refl, refl, refl, refl)

integers :
    (atoi (codes "-12") ≡ some (negsuc 11))
    × (atoi (codes "+7") ≡ some (pos 7))
    × (atoi (codes "9223372036854775807") ≡ some (pos 9223372036854775807))
    × (atoi (codes "9223372036854775808") ≡ none)
    × (atoi (codes "1_0") ≡ none)
    × (apply_int document (codes "count") (pos 0) ≡ ok (pos 4))
    × (apply_bool document (codes "absent") true ≡ ok true)
unfolding atoi apply_int apply_bool find_entry
integers = (refl, refl, refl, refl, refl, refl, refl)

scan_value-quoted_example :
    scan_value (quoted 39 (codes "#]a") ++ (codes "  " ++ codes "# note")) 1
    ≡ ok (quoted 39 (codes "#]a"), 1)
scan_value-quoted_example =
    scan_value-quoted 39 1 (codes "#]a") (codes "  ") (codes "# note") refl refl refl refl

-- A decoder of double quotes that refuses everything.
abbrev refuse_all : Bytes → Option Bytes
refuse_all s = none

unquote-two_strings_example :
    (scan_value (two_strings (codes "a") (codes "b")) 0
      ≡ ok (two_strings (codes "a") (codes "b"), 0))
    × (unquote refuse_all (two_strings (codes "a") (codes "b"))
        ≡ some (between (codes "a") (codes "b")))
unquote-two_strings_example = unquote-two_strings refuse_all (codes "a") (codes "b") refl refl

parse_string_array-array_text_example :
    parse_string_array refuse_all (array_text (codes "a,b") (codes "[c]" ∷ []))
    ≡ ok (codes "a,b" ∷ codes "[c]" ∷ [])
parse_string_array-array_text_example =
    parse_string_array-array_text refuse_all (codes "a,b") (codes "[c]" ∷ []) refl (refl, tt)

abbrev listen : Item
listen = setting (record { name = codes "listen"; value = codes "127.0.0.1:80" })

abbrev level : Setting
level = record { name = codes "level"; value = codes "info" }

abbrev items : List Item
items = listen ∷ table (codes "log") ∷ setting level ∷ []

parse_toml-unlines_example :
    (parse_toml (unlines (map item_line items)) ≡ ok (entries [] 0 items))
    × (apply_string refuse_all
          (entries [] 0 items)
          (qualified (section_after [] (listen ∷ table (codes "log") ∷ [])) (codes "level"))
          []
        ≡ ok (codes "info"))
unfolding find_entry
parse_toml-unlines_example =
    parse_toml-unlines refuse_all (listen ∷ table (codes "log") ∷ []) [] level []
      (((omega arith, refl), refl), ((omega arith, refl), (((omega arith, refl), refl), tt)))
      ((refl, omega arith), ((refl, omega arith), ((refl, omega arith), tt))) (refl, (refl, tt))
