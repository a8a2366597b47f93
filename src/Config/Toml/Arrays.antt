-- ===== src/Config/Toml/Arrays.antt =====
-- Arrays of strings in single quotes.
use dproxy.Base.{
  ℕ, ◌≡◌, refl, sym, ap, ◌∙◌, true, false, Option, List, [], ◌∷◌, ◌++◌, arith, ◌==◌, ok, all, All,
  map, append_assoc, append-nil, and_true,
}
use dproxy.Base.Text.{Bytes, has_prefix, equal}
use dproxy.Base.Space.{trim_space}
use dproxy.Base.Trim.{trim_space-ends}
use dproxy.Config.Toml.{in_string, without_ends}
use dproxy.Config.Toml.Values.{
  split_bytes, split_array_elements, drop_empty_last, has_empty, unquote_all, parse_string_array,
  outside_strings,
}
use dproxy.Config.Toml.Scan.{is_plain, quoted, open_at, trim_space-quoted}
use dproxy.Config.Toml.Settings.{has_suffix-last, without_ends-brackets}
use dproxy.Config.Toml.File.{unquote-quoted}

-- The elements, each with a blank before it, behind a comma.
abbrev pub more_elements : List Bytes → Bytes
more_elements [] = []
more_elements (v ∷ vs) = b',' ∷ 32 ∷ (quoted b'\'' v ++ more_elements vs)

-- An array of one string or more, as it is written.
abbrev pub array_text : Bytes → List Bytes → Bytes
array_text v vs = b'[' ∷ ((quoted b'\'' v ++ more_elements vs) ++ b']' ∷ [])

-- A byte inside a string.
inside_step :
    (c : ℕ) (rest cur : Bytes) (later : List Bytes)
    → is_plain b'\'' c ≡ true
    → split_bytes (open_at b'\'' 0) rest ≡ ok (cur, later)
    → split_bytes (open_at b'\'' 0) (c ∷ rest) ≡ ok (c ∷ cur, later)
unfolding split_bytes in_string
inside_step c rest cur later h e =
    let other : (c == b'\'') ≡ false = ground (arith, h) in
    rw (other, e, in_string, split_bytes) refl

string_split :
    (t rest cur : Bytes) (later : List Bytes)
    → all (is_plain b'\'') t ≡ true
    → split_bytes outside_strings rest ≡ ok (cur, later)
    → split_bytes (open_at b'\'' 0) (t ++ b'\'' ∷ rest) ≡ ok (t ++ b'\'' ∷ cur, later)
unfolding split_bytes in_string
string_split [] rest cur later h e = rw (e, split_bytes) refl
string_split (c ∷ t) rest cur later h e =
    let (plain, more) = and_true (is_plain b'\'' c) (all (is_plain b'\'') t) h in
    inside_step c (t ++ b'\'' ∷ rest) (t ++ b'\'' ∷ cur) later plain
      (string_split t rest cur later more e)

quoted_split :
    (t rest cur : Bytes) (later : List Bytes)
    → all (is_plain b'\'') t ≡ true
    → split_bytes outside_strings rest ≡ ok (cur, later)
    → split_bytes outside_strings (quoted b'\'' t ++ rest) ≡ ok (quoted b'\'' t ++ cur, later)
unfolding split_bytes in_string
quoted_split t rest cur later h e =
    let body = string_split t rest cur later h e in
    ap (λ s. split_bytes outside_strings (b'\'' ∷ s)) (append_assoc t (b'\'' ∷ []) rest)
    ∙ rw (body, split_bytes) refl
    ∙ ap (λ s. ok (b'\'' ∷ s, later)) (sym (append_assoc t (b'\'' ∷ []) cur))

-- A text without a single quote.
abbrev pub IsPlain : Bytes → Type 0
IsPlain v = all (is_plain b'\'') v ≡ true

abbrev spaced : Bytes → Bytes
spaced v = 32 ∷ quoted b'\'' v

more_split :
    (vs : List Bytes)
    → All IsPlain vs
    → split_bytes outside_strings (more_elements vs) ≡ ok ([], map spaced vs)
unfolding split_bytes in_string
more_split [] h = refl
more_split (v ∷ vs) (h, hs) =
    let rest = quoted_split v (more_elements vs) [] (map spaced vs) h (more_split vs hs) in
    rw (rest, split_bytes)
      (ap (λ s. ok ([], (32 ∷ s) ∷ map spaced vs)) (append-nil (quoted b'\'' v)))

trim_spaced : (vs : List Bytes) → map trim_space (map spaced vs) ≡ map (quoted b'\'') vs
trim_spaced [] = refl
trim_spaced (v ∷ vs) =
    let first =
      ap (λ s. trim_space (32 ∷ s)) (sym (append-nil (quoted b'\'' v)))
      ∙ trim_space-quoted (32 ∷ []) [] b'\'' v refl refl refl in
    ap (λ s. s ∷ map trim_space (map spaced vs)) first ∙ ap (◌∷◌ (quoted b'\'' v)) (trim_spaced vs)

trim_quoted : (v : Bytes) → trim_space (quoted b'\'' v) ≡ quoted b'\'' v
trim_quoted v =
    ap trim_space (sym (append-nil (quoted b'\'' v)))
    ∙ trim_space-quoted [] [] b'\'' v refl refl refl

all_kept : (vs : List Bytes) → drop_empty_last (map (quoted b'\'') vs) ≡ map (quoted b'\'') vs
unfolding drop_empty_last equal
all_kept [] = refl
all_kept (v ∷ []) = refl
all_kept (v ∷ w ∷ vs) = ap (◌∷◌ (quoted b'\'' v)) (all_kept (w ∷ vs))

none_empty : (vs : List Bytes) → has_empty (map (quoted b'\'') vs) ≡ false
unfolding has_empty equal
none_empty [] = refl
none_empty (v ∷ vs) = none_empty vs

unquote_all-quoted :
    (go_unquote : Bytes → Option Bytes) (vs : List Bytes)
    → unquote_all go_unquote (map (quoted b'\'') vs) ≡ ok vs
unfolding unquote_all
unquote_all-quoted go_unquote [] = refl
unquote_all-quoted go_unquote (v ∷ vs) =
    rw (unquote-quoted go_unquote v, unquote_all-quoted go_unquote vs, unquote_all) refl

split_array_elements-quoted :
    (v : Bytes) (vs : List Bytes)
    → IsPlain v
    → All IsPlain vs
    → split_array_elements (quoted b'\'' v ++ more_elements vs) ≡ ok (map (quoted b'\'') (v ∷ vs))
unfolding split_array_elements
split_array_elements-quoted v vs h hs =
    let pieces = quoted_split v (more_elements vs) [] (map spaced vs) h (more_split vs hs) in
    let first = ap trim_space (append-nil (quoted b'\'' v)) ∙ trim_quoted v in
    let trimmed : map trim_space ((quoted b'\'' v ++ []) ∷ map spaced vs)
        ≡ map (quoted b'\'') (v ∷ vs) =
      ap (λ s. s ∷ map trim_space (map spaced vs)) first
      ∙ ap (◌∷◌ (quoted b'\'' v)) (trim_spaced vs) in
    rw (pieces, trimmed, all_kept (v ∷ vs), none_empty (v ∷ vs), split_array_elements) refl

-- The elements end in a quote, as they start with one.
content_ends :
    (v : Bytes) (vs : List Bytes)
    → (m : Bytes) × (quoted b'\'' v ++ more_elements vs ≡ b'\'' ∷ (m ++ b'\'' ∷ []))
content_ends v [] = (v, append-nil (quoted b'\'' v))
content_ends v (w ∷ vs) =
    let (m, e) = content_ends w vs in
    (
      v ++ b'\'' ∷ b',' ∷ 32 ∷ b'\'' ∷ m,
      ap (λ s. quoted b'\'' v ++ b',' ∷ 32 ∷ s) e
          ∙ ap (◌∷◌ b'\'') (
              append_assoc v (b'\'' ∷ []) (b',' ∷ 32 ∷ b'\'' ∷ (m ++ b'\'' ∷ []))
              ∙ sym (append_assoc v (b'\'' ∷ b',' ∷ 32 ∷ b'\'' ∷ m) (b'\'' ∷ []))),
    )

trim_content :
    (v : Bytes) (vs : List Bytes)
    → trim_space (quoted b'\'' v ++ more_elements vs) ≡ quoted b'\'' v ++ more_elements vs
trim_content v vs =
    let (m, e) = content_ends v vs in
    ap trim_space e ∙ trim_space-ends b'\'' b'\'' m refl refl ∙ sym e

-- An array of one or more strings in single quotes, none of which holds a single quote, is parsed
-- into those strings, whatever commas, brackets and other bytes they hold.
pub parse_string_array-array_text :
    (go_unquote : Bytes → Option Bytes) (v : Bytes) (vs : List Bytes)
    → IsPlain v
    → All IsPlain vs
    → parse_string_array go_unquote (array_text v vs) ≡ ok (v ∷ vs)
unfolding parse_string_array has_prefix equal
parse_string_array-array_text go_unquote v vs h hs =
    let content = quoted b'\'' v ++ more_elements vs in
    let middle : trim_space (without_ends (array_text v vs)) ≡ content =
      ap trim_space (without_ends-brackets b'[' b']' content) ∙ trim_content v vs in
    rw
      (
        middle,
        has_suffix-last b'[' b']' content,
        split_array_elements-quoted v vs h hs,
        unquote_all-quoted go_unquote (v ∷ vs),
        parse_string_array,
      )
      refl
