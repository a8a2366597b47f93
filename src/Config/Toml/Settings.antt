-- ===== src/Config/Toml/Settings.antt =====
-- A file of tables and of settings in single quotes, as `parseTOML` reads it.
use dproxy.Base.{
  ℕ, ◌-◌, ◌≡◌, refl, sym, ap, ◌∙◌, true, false, ◌&&◌, none, some, [], ◌∷◌, ◌++◌, ◌==◌, arith, ok,
  length, all, and_true, append-nil, length-append, drop, take-append, drop-append, leb,
}
use dproxy.Base.Text.{Bytes, equal, has_prefix, has_suffix, contains, cut}
use dproxy.Base.Space.{trim_space}
use dproxy.Base.Graphic.{is_graphic, trim_space-graphic}
use dproxy.Base.Predicates.{all_weaken, contains-all}
use dproxy.Base.Trim.{trim_space-visible}
use dproxy.Config.Toml.{
  is_key_byte, validate_bare_key, parse_table_header, without_ends, Parser, finish_entry,
  take_value, located, take_key_value, take_line, scan_value,
}
use dproxy.Config.Toml.Invariant.{IsBare}
use dproxy.Config.Toml.Scan.{is_plain, quoted, trim_space-quoted, scan_value-quoted}

-- The bytes of a name are visible, and none has a meaning of its own.
pub key_byte :
    (c : ℕ)
    → is_key_byte c ≡ true
    → (is_graphic c ≡ true)
      × ((c == b'=') ≡ false)
      × ((c == b'#') ≡ false)
      × ((c == b'[') ≡ false)
      × ((c == b'.') ≡ false)
key_byte c h = ground arith

pub visible_name : (s : Bytes) → all is_key_byte s ≡ true → all is_graphic s ≡ true
visible_name s h = all_weaken is_key_byte is_graphic (λ c k. (key_byte c k).0) s h

pub validate_bare_key_bare : (name : Bytes) → IsBare name → validate_bare_key name ≡ none
unfolding validate_bare_key
validate_bare_key_bare [] (l, h) = absurd (omega (arith, l))
validate_bare_key_bare (c ∷ s) (l, h) = rw (h, validate_bare_key) refl

cut_name :
    (s rest : Bytes)
    → all is_key_byte s ≡ true
    → cut b'=' (s ++ 32 ∷ b'=' ∷ rest) ≡ some (s ++ 32 ∷ [], rest)
unfolding cut
cut_name [] rest h = refl
cut_name (c ∷ s) rest h =
    let (k, more) = and_true _ _ h in
    let (g, e, hash, bracket, dot) = key_byte c k in rw (e, cut_name s rest more, cut) refl

-- A setting, with a value that has no single quote.
pub record Setting : Type 0 where
  pub name : Bytes
  pub value : Bytes

abbrev pub IsSetting : Setting → Type 0
IsSetting s = IsBare s.name × (all (is_plain b'\'') s.value ≡ true)

abbrev pub setting_line : Setting → Bytes
setting_line s = s.name ++ 32 ∷ b'=' ∷ 32 ∷ quoted b'\'' s.value

trimmed_name : (name : Bytes) → IsBare name → trim_space (name ++ 32 ∷ []) ≡ name
trimmed_name [] (l, h) = absurd (omega (arith, l))
trimmed_name (c ∷ s) (l, h) = trim_space-visible [] (32 ∷ []) c s refl refl (visible_name (c ∷ s) h)

scanned_value :
    (v : Bytes)
    → all (is_plain b'\'') v ≡ true
    → scan_value (trim_space (32 ∷ quoted b'\'' v)) 0 ≡ ok (quoted b'\'' v, 0)
scanned_value v h =
    let q = quoted b'\'' v in
    ap (λ s. scan_value s 0)
      (ap (λ s. trim_space (32 ∷ s)) (sym (append-nil q))
        ∙ trim_space-quoted (32 ∷ []) [] b'\'' v refl refl refl
        ∙ sym (append-nil q))
    ∙ scan_value-quoted b'\'' 0 v [] [] refl h refl tt

-- A line that starts with a byte of a name.
named_line :
    (p : Parser) (line c : ℕ) (s : Bytes)
    → is_key_byte c ≡ true
    → take_line p line (c ∷ s) ≡ take_key_value p line (cut b'=' (c ∷ s))
unfolding take_line equal has_prefix
named_line p line c s k =
    let (g, e, hash, bracket, dot) = key_byte c k in rw (hash, bracket, take_line) refl

named_value :
    (p : Parser) (line : ℕ) (before after name raw : Bytes)
    → trim_space before ≡ name
    → validate_bare_key name ≡ none
    → scan_value (trim_space after) 0 ≡ ok (raw, 0)
    → take_key_value p line (some (before, after)) ≡ finish_entry p name raw line
unfolding take_key_value take_value located
named_value p line before after name raw e f g =
    rw (e, f, g, take_key_value) (ap (λ n. finish_entry p n raw line) e)

pub take_line-setting :
    (p : Parser) (line : ℕ) (s : Setting)
    → IsSetting s
    → take_line p line (setting_line s) ≡ finish_entry p s.name (quoted b'\'' s.value) line
take_line-setting p line s (bare, plain) =
    starts s.name bare
    ∙ ap (take_key_value p line) (cut_name s.name (32 ∷ quoted b'\'' s.value) bare.1)
    ∙ named_value p line (s.name ++ 32 ∷ []) (32 ∷ quoted b'\'' s.value) s.name
        (quoted b'\'' s.value) (trimmed_name s.name bare) (validate_bare_key_bare s.name bare)
        (scanned_value s.value plain)
  where
    starts :
        (name : Bytes)
        → IsBare name
        → take_line p line (name ++ 32 ∷ b'=' ∷ 32 ∷ quoted b'\'' s.value)
          ≡ take_key_value p line (cut b'=' (name ++ 32 ∷ b'=' ∷ 32 ∷ quoted b'\'' s.value))
    starts [] (l, h) = absurd (omega (arith, l))
    starts (c ∷ n) (l, h) = named_line p line c _ (and_true _ _ h).0

-- The header of a table.
abbrev pub header_line : Bytes → Bytes
header_line name = b'[' ∷ (name ++ b']' ∷ [])

pub without_ends-brackets : (a z : ℕ) (m : Bytes) → without_ends (a ∷ (m ++ z ∷ [])) ≡ m
without_ends-brackets a z m =
    let size : length (a ∷ (m ++ z ∷ [])) - 2 ≡ length m =
      omega (arith, length-append m (z ∷ [])) in
    rw size (take-append m (z ∷ []))

pub has_suffix-last : (a z : ℕ) (m : Bytes) → has_suffix (a ∷ (m ++ z ∷ [])) (z ∷ []) ≡ true
unfolding has_suffix equal
has_suffix-last a z m =
    let long : leb 1 (length (a ∷ (m ++ z ∷ []))) ≡ true = ground arith in
    let size : length (a ∷ (m ++ z ∷ [])) - 1 ≡ length (a ∷ m) =
      omega (arith, length-append m (z ∷ [])) in
    let last : drop (length (a ∷ (m ++ z ∷ [])) - 1) (a ∷ (m ++ z ∷ [])) ≡ z ∷ [] =
      ap (λ n. drop n (a ∷ (m ++ z ∷ []))) size ∙ drop-append (a ∷ m) (z ∷ []) in
    ap (λ s. leb 1 (length (a ∷ (m ++ z ∷ []))) && equal s (z ∷ [])) last ∙ ground (arith, long)

bare_prefix : (name : Bytes) → IsBare name → has_prefix name (b'[' ∷ []) ≡ false
unfolding has_prefix
bare_prefix [] (l, h) = absurd (omega (arith, l))
bare_prefix (c ∷ s) (l, h) =
    let (g, e, hash, bracket, dot) = key_byte c (and_true _ _ h).0 in rw (bracket, has_prefix) refl

parse_table_header-header_line :
    (name : Bytes) → IsBare name → parse_table_header (header_line name) ≡ ok name
unfolding parse_table_header
parse_table_header-header_line name bare =
    let trimmed : trim_space (without_ends (header_line name)) ≡ name =
      ap trim_space (without_ends-brackets b'[' b']' name)
      ∙ trim_space-graphic name (visible_name name bare.1) in
    let no_dot : contains name b'.' ≡ false = contains-all is_key_byte b'.' refl name bare.1 in
    rw
      (
        trimmed,
        has_suffix-last b'[' b']' name,
        bare_prefix name bare,
        no_dot,
        validate_bare_key_bare name bare,
        parse_table_header,
      )
      (ap ok trimmed)

pub take_line-header :
    (p : Parser) (line : ℕ) (name : Bytes)
    → IsBare name
    → take_line p line (header_line name) ≡ ok (record p { section = name })
unfolding take_line equal has_prefix located
take_line-header p line name bare = rw (parse_table_header-header_line name bare, take_line) refl
