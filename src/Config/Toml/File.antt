-- ===== src/Config/Toml/File.antt =====
-- A file of settings, and what the settings are afterwards.
use dproxy.Base.{
  ℕ, ◌+◌, ◌<◌, ◌≡◌, refl, sym, ap, ◌∙◌, inl, inr, Bool, true, not, Option, none, some, List, [],
  ◌∷◌, ◌++◌, ◌==◌, arith, ok, length, all, append_assoc, All, length-append, map, Bool-cases, leb,
}
use dproxy.Base.Text.{Bytes, equal, equal_iff, trim_suffix, has_prefix}
use dproxy.Base.Scanner.Lines.{IsLine, unlines, scan_lines-unlines}
use dproxy.Config.Toml.{TomlEntry, TomlDocument, find_entry, qualified, parse_lines, parse_toml}
use dproxy.Config.Toml.Values.{required, is_quoted_by, unquote, apply_string}
use dproxy.Config.Toml.Invariant.{Fresh}
use dproxy.Config.Toml.Scan.{quoted}
use dproxy.Config.Toml.Settings.{Setting, setting_line, has_suffix-last, without_ends-brackets}
use dproxy.Config.Toml.RoundTrip.{
  Item, table, setting, item_line, IsItem, entries, trim_suffix-last, parse_lines-items,
}

-- The table that the items leave open.
abbrev pub section_after : Bytes → List Item → Bytes
section_after section [] = section
section_after section (table name ∷ is) = section_after name is
section_after section (setting s ∷ is) = section_after section is

-- A line that the scanner can give: it has no newline inside, and fits the buffer.
abbrev pub OnOneLine : Item → Type 0
OnOneLine i = (all (λ c. not (c == 10)) (item_line i) ≡ true) × (length (item_line i) < 65536)

line_of_setting :
    (s : Setting) → (s.name ++ 32 ∷ b'=' ∷ 32 ∷ b'\'' ∷ s.value) ++ b'\'' ∷ [] ≡ setting_line s
line_of_setting s = append_assoc s.name (32 ∷ b'=' ∷ 32 ∷ b'\'' ∷ s.value) (b'\'' ∷ [])

item_line-IsLine : (i : Item) → OnOneLine i → IsLine (item_line i)
item_line-IsLine (table name) (one, few) = record {
  some_byte = omega arith;
  one_line = one;
  fits = few;
  bare_end = trim_suffix-last 13 b']' (b'[' ∷ name) refl;
}
item_line-IsLine (setting s) (one, few) = record {
  some_byte = omega (arith, length-append s.name (32 ∷ b'=' ∷ 32 ∷ quoted b'\'' s.value));
  one_line = one;
  fits = few;
  bare_end =
      ap (trim_suffix 13) (sym (line_of_setting s))
      ∙ trim_suffix-last 13 b'\'' (s.name ++ 32 ∷ b'=' ∷ 32 ∷ b'\'' ∷ s.value) refl
      ∙ line_of_setting s;
}

item_lines-IsLine : (is : List Item) → All OnOneLine is → All IsLine (map item_line is)
item_lines-IsLine [] h = tt
item_lines-IsLine (i ∷ is) (h, hs) = (item_line-IsLine i h, item_lines-IsLine is hs)

entries-append :
    (section : Bytes) (line : ℕ) (before after : List Item)
    → (n : ℕ) × (entries section line (before ++ after)
        ≡ entries section line before ++ entries (section_after section before) n after)
entries-append section line [] after = (line, refl)
entries-append section line (table name ∷ is) after = entries-append name (line + 1) is after
entries-append section line (setting s ∷ is) after =
    let (n, e) = entries-append section (line + 1) is after in
    (
      n,
      ap
          (◌∷◌ (record {
            key = qualified section s.name;
            raw = quoted b'\'' s.value;
            line = line + 1;
          }))
          e,
    )

find-new :
    (d es : TomlDocument) (e : TomlEntry)
    → find_entry e.key d ≡ none
    → find_entry e.key (d ++ e ∷ es) ≡ some e
unfolding find_entry
find-new [] es e h = rw ((equal_iff e.key e.key).1 refl, find_entry) refl
find-new (g ∷ d) es e h = elim (Bool-cases (equal e.key g.key)) [
  | inl t ↦ let clash : ◌≡◌ {A = Option TomlEntry} (some g) none = rw (t, find_entry) at h in cc
  | inr f ↦ rw (f, find_entry) (find-new d es e (rw (f, find_entry) at h))
]

-- Each entry is found by its key.
find_entry-Fresh :
    (before d after : TomlDocument) (e : TomlEntry)
    → Fresh d (before ++ e ∷ after)
    → find_entry e.key (d ++ (before ++ e ∷ after)) ≡ some e
find_entry-Fresh [] d after e (n, f) = find-new d after e n
find_entry-Fresh (g ∷ before) d after e (n, f) =
    ap (find_entry e.key) (sym (append_assoc d (g ∷ []) (before ++ e ∷ after)))
    ∙ find_entry-Fresh before (d ++ (g ∷ [])) after e f

pub unquote-quoted :
    (go_unquote : Bytes → Option Bytes) (v : Bytes) → unquote go_unquote (quoted b'\'' v) ≡ some v
unfolding unquote is_quoted_by has_prefix
unquote-quoted go_unquote v =
    let long : leb 2 (length (quoted b'\'' v)) ≡ true =
      ground (arith, length-append v (b'\'' ∷ [])) in
    rw (long, is_quoted_by, has_suffix-last b'\'' b'\'' v, unquote)
      (ap some (without_ends-brackets b'\'' b'\'' v))

apply_string-found :
    (go_unquote : Bytes → Option Bytes) (d : TomlDocument) (e : TomlEntry) (v into : Bytes)
    → find_entry e.key d ≡ some e
    → e.raw ≡ quoted b'\'' v
    → apply_string go_unquote d e.key into ≡ ok v
unfolding apply_string required
apply_string-found go_unquote d e v into found raw =
    rw (found, apply_string)
      (ap (required e.key e.line) (ap (unquote go_unquote) raw ∙ unquote-quoted go_unquote v))

-- A file of table headers and of settings `name = 'value'`, one on a line, with bare names, values
-- that have no single quote, lines that the scanner can give, and no key twice, is parsed into
-- the entries with their tables and lines; and each setting of it is then applied with its value,
-- whatever stands before and behind it, and whatever it was before.
pub parse_toml-unlines :
    (go_unquote : Bytes → Option Bytes) (before after : List Item) (s : Setting) (into : Bytes)
    → All IsItem (before ++ setting s ∷ after)
    → All OnOneLine (before ++ setting s ∷ after)
    → Fresh [] (entries [] 0 (before ++ setting s ∷ after))
    → (parse_toml (unlines (map item_line (before ++ setting s ∷ after)))
        ≡ ok (entries [] 0 (before ++ setting s ∷ after)))
      × (apply_string go_unquote
            (entries [] 0 (before ++ setting s ∷ after))
            (qualified (section_after [] before) s.name)
            into
          ≡ ok s.value)
unfolding parse_toml
parse_toml-unlines go_unquote before after s into items lines fresh =
    let all_items = before ++ setting s ∷ after in
    let scanned =
      scan_lines-unlines (map item_line all_items) (item_lines-IsLine all_items lines) in
    let (n, split) = entries-append [] 0 before (setting s ∷ after) in
    let section = section_after [] before in
    let e : TomlEntry = record {
      key = qualified section s.name;
      raw = quoted b'\'' s.value;
      line = n + 1;
    } in
    let found =
      ap (find_entry e.key) split
      ∙ find_entry-Fresh (entries [] 0 before) [] (entries section (n + 1) after) e
          (rw split at fresh) in
    (
      ap
            (λ (r : List Bytes × Bool).
              parse_lines (record { section = []; document = []; pending = none }) 0 r.0 r.1)
            scanned
          ∙ parse_lines-items all_items [] [] 0 items fresh,
      apply_string-found go_unquote (entries [] 0 all_items) e s.value into found refl,
    )
