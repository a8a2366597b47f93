-- ===== src/Config/Toml/RoundTrip.antt =====
-- `parseTOML` on a whole file of tables and settings.
use dproxy.Base.{
  ℕ, ◌+◌, ◌≡◌, refl, sym, ap, ◌∙◌, true, false, none, List, [], ◌∷◌, ◌++◌, ◌==◌, arith, ok, ◌>>=◌,
  and_true, append_assoc, append-nil, All, map,
}
use dproxy.Base.Text.{Bytes, equal, trim_suffix}
use dproxy.Base.Space.{trim_space}
use dproxy.Base.Graphic.{is_graphic}
use dproxy.Base.Trim.{trim_space-ends}
use dproxy.Config.Toml.{
  TomlEntry, TomlDocument, find_entry, Parser, qualified, store, finish_entry, take_line, by_line,
  at_file_end, parse_lines,
}
use dproxy.Config.Toml.Invariant.{IsBare, Fresh}
use dproxy.Config.Toml.Scan.{quoted}
use dproxy.Config.Toml.Settings.{
  Setting, IsSetting, setting_line, header_line, take_line-setting, take_line-header, key_byte,
}

pub data Item : Type 0 where
  table : Bytes → Item
  setting : Setting → Item

abbrev pub item_line : Item → Bytes
item_line (table name) = header_line name
item_line (setting s) = setting_line s

abbrev pub IsItem : Item → Type 0
IsItem (table name) = IsBare name
IsItem (setting s) = IsSetting s

-- The document of the items behind `line` lines of a file, inside a table.
abbrev pub entries : Bytes → ℕ → List Item → TomlDocument
entries section line [] = []
entries section line (table name ∷ is) = entries name (line + 1) is
entries section line (setting s ∷ is) =
    record { key = qualified section s.name; raw = quoted b'\'' s.value; line = line + 1 }
    ∷ entries section (line + 1) is

pub trim_suffix-last :
    (b z : ℕ) (s : Bytes) → (z == b) ≡ false → trim_suffix b (s ++ z ∷ []) ≡ s ++ z ∷ []
unfolding trim_suffix
trim_suffix-last b z [] h = rw (h, trim_suffix) refl
trim_suffix-last b z (c ∷ []) h = ap (◌∷◌ c) (trim_suffix-last b z [] h)
trim_suffix-last b z (c ∷ d ∷ s) h = ap (◌∷◌ c) (trim_suffix-last b z (d ∷ s) h)

kept_line :
    (a z : ℕ) (m : Bytes)
    → is_graphic a ≡ true
    → is_graphic z ≡ true
    → trim_space (trim_suffix 13 (a ∷ (m ++ z ∷ []))) ≡ a ∷ (m ++ z ∷ [])
kept_line a z m ha hz =
    ap trim_space (trim_suffix-last 13 z (a ∷ m) (ground (arith, hz))) ∙ trim_space-ends a z m ha hz

kept_item : (i : Item) → IsItem i → trim_space (trim_suffix 13 (item_line i)) ≡ item_line i
kept_item (table name) bare = kept_line b'[' b']' name refl refl
kept_item (setting s) (bare, plain) = kept_setting s.name bare
  where
    kept_setting :
        (name : Bytes)
        → IsBare name
        → trim_space (trim_suffix 13 (name ++ 32 ∷ b'=' ∷ 32 ∷ quoted b'\'' s.value))
          ≡ name ++ 32 ∷ b'=' ∷ 32 ∷ quoted b'\'' s.value
    kept_setting [] (l, h) = absurd (omega (arith, l))
    kept_setting (c ∷ n) (l, h) =
        let joined = append_assoc n (32 ∷ b'=' ∷ 32 ∷ b'\'' ∷ s.value) (b'\'' ∷ []) in
        ap (λ t. trim_space (trim_suffix 13 (c ∷ t))) (sym joined)
        ∙ kept_line c b'\'' (n ++ 32 ∷ b'=' ∷ 32 ∷ b'\'' ∷ s.value)
            (key_byte c (and_true _ _ h).0).0 refl
        ∙ ap (◌∷◌ c) joined

abbrev parser_at : Bytes → TomlDocument → Parser
parser_at section d = record { section = section; document = d; pending = none }

new_entry :
    (section name raw : Bytes) (q : ℕ) (d : TomlDocument) (line : ℕ)
    → find_entry (qualified section name) d ≡ none
    → finish_entry (parser_at section d) name (q ∷ raw) line
      ≡ ok (
          parser_at section
            (d ++ (record { key = qualified section name; raw = q ∷ raw; line = line } ∷ [])))
unfolding finish_entry store equal
new_entry section name raw q d line h = rw (h, finish_entry) refl

-- A line that the parser takes.
next_line :
    (p q : Parser) (line : ℕ) (text : Bytes) (rest : List Bytes)
    → p.pending ≡ none
    → take_line p (line + 1) (trim_space (trim_suffix 13 text)) ≡ ok q
    → parse_lines p line (text ∷ rest) false ≡ parse_lines q (line + 1) rest false
unfolding parse_lines by_line
next_line p q line text rest h e =
    ap
      (λ o. by_line p o (line + 1) (trim_space (trim_suffix 13 text)) >>= λ next.
        parse_lines next (line + 1) rest false)
      h
    ∙ ap (λ r. r >>= λ next. parse_lines next (line + 1) rest false) e

pub parse_lines-items :
    (is : List Item) (section : Bytes) (d : TomlDocument) (line : ℕ)
    → All IsItem is
    → Fresh d (entries section line is)
    → parse_lines (parser_at section d) line (map item_line is) false
      ≡ ok (d ++ entries section line is)
unfolding parse_lines at_file_end
parse_lines-items [] section d line h f = ap ok (sym (append-nil d))
parse_lines-items (table name ∷ is) section d line (bare, h) f =
    let p = parser_at section d in
    next_line p (parser_at name d) line (header_line name) (map item_line is) refl (
      ap (take_line p (line + 1)) (kept_item (table name) bare)
      ∙ take_line-header p (line + 1) name bare)
    ∙ parse_lines-items is name d (line + 1) h f
parse_lines-items (setting s ∷ is) section d line (k, h) (n, f) =
    let p = parser_at section d in
    let e : TomlEntry = record {
      key = qualified section s.name;
      raw = quoted b'\'' s.value;
      line = line + 1;
    } in
    next_line p (parser_at section (d ++ (e ∷ []))) line (setting_line s) (map item_line is) refl (
      ap (take_line p (line + 1)) (kept_item (setting s) k)
      ∙ take_line-setting p (line + 1) s k
      ∙ new_entry section s.name (s.value ++ b'\'' ∷ []) b'\'' d (line + 1) n)
    ∙ parse_lines-items is section (d ++ (e ∷ [])) (line + 1) h f
    ∙ ap ok (append_assoc d (e ∷ []) (entries section (line + 1) is))
