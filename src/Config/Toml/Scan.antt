-- ===== src/Config/Toml/Scan.antt =====
-- `scanValue` on a string with blanks and a comment behind it.
use dproxy.Base.{
  ℕ, ◌≡◌, refl, sym, ap, ◌∙◌, Bool, true, false, not, ◌&&◌, ◌||◌, [], ◌∷◌, ◌++◌, ◌==◌, arith, ok,
  ◌>>=◌, all, and_true, reverse, append_assoc,
}
use dproxy.Base.Text.{Bytes}
use dproxy.Base.Space.{is_ascii_space, trim_space}
use dproxy.Base.Graphic.{is_graphic}
use dproxy.Base.Trim.{trim_space-blanks}
use mathlib.Core.List.{reverse-append, reverse-cons}
use dproxy.Config.Toml.{
  ScanState, kept, scan_byte, scan_bytes, scan_value, in_string, outside_string,
}

-- A byte of a string that neither ends it nor escapes.
abbrev pub is_plain : ℕ → ℕ → Bool
is_plain q c = not (c == q) && not (q == b'"' && c == b'\\')

abbrev pub is_quote : ℕ → Bool
is_quote q = q == b'"' || q == b'\''

abbrev pub open_at : ℕ → ℕ → ScanState
open_at q depth = record { quote = q; escaped = false; depth = depth }

-- A comment, or nothing.
abbrev pub IsComment : Bytes → Type 0
IsComment [] = Unit
IsComment (c ∷ s) = c ≡ b'#'

plain_step :
    (q c depth : ℕ)
    → is_quote q ≡ true
    → is_plain q c ≡ true
    → scan_byte (open_at q depth) c ≡ kept (open_at q depth)
unfolding scan_byte in_string
plain_step q c depth hq h = ground arith

closing_step :
    (q depth : ℕ) → is_quote q ≡ true → scan_byte (open_at q depth) q ≡ kept (open_at 0 depth)
unfolding scan_byte in_string
closing_step q depth hq = ground arith

opening_step :
    (q depth : ℕ) → is_quote q ≡ true → scan_byte (open_at 0 depth) q ≡ kept (open_at q depth)
unfolding scan_byte outside_string
opening_step q depth hq = ground arith

pub blank_step :
    (c depth : ℕ) → is_ascii_space c ≡ true → scan_byte (open_at 0 depth) c ≡ kept (open_at 0 depth)
unfolding scan_byte outside_string
blank_step c depth h = ground arith

-- A byte that is kept.
pub kept_step :
    (s t : ScanState) (c : ℕ) (line v : Bytes) (d : ℕ)
    → scan_byte s c ≡ kept t
    → scan_bytes t line ≡ ok (v, d)
    → scan_bytes s (c ∷ line) ≡ ok (c ∷ v, d)
unfolding scan_bytes
kept_step s t c line v d e f = rw (e, f, scan_bytes) refl

comment_end :
    (depth : ℕ) (s : Bytes) → IsComment s → scan_bytes (open_at 0 depth) s ≡ ok ([], depth)
unfolding scan_bytes scan_byte outside_string
comment_end depth [] h = refl
comment_end depth (c ∷ s) h = rw h refl

blanks_end :
    (depth : ℕ) (b s : Bytes)
    → all is_ascii_space b ≡ true
    → IsComment s
    → scan_bytes (open_at 0 depth) (b ++ s) ≡ ok (b, depth)
blanks_end depth [] s hb hs = comment_end depth s hs
blanks_end depth (c ∷ b) s hb hs =
    let (space, more) = and_true _ _ hb in
    kept_step (open_at 0 depth) (open_at 0 depth) c (b ++ s) b depth (blank_step c depth space)
      (blanks_end depth b s more hs)

string_end :
    (q depth : ℕ) (t rest v : Bytes) (d : ℕ)
    → is_quote q ≡ true
    → all (is_plain q) t ≡ true
    → scan_bytes (open_at 0 depth) rest ≡ ok (v, d)
    → scan_bytes (open_at q depth) (t ++ q ∷ rest) ≡ ok (t ++ q ∷ v, d)
string_end q depth [] rest v d hq h e =
    kept_step (open_at q depth) (open_at 0 depth) q rest v d (closing_step q depth hq) e
string_end q depth (c ∷ t) rest v d hq h e =
    let (plain, more) = and_true _ _ h in
    kept_step (open_at q depth) (open_at q depth) c (t ++ q ∷ rest) (t ++ q ∷ v) d
      (plain_step q c depth hq plain) (string_end q depth t rest v d hq more e)

-- A string in quotes.
abbrev pub quoted : ℕ → Bytes → Bytes
quoted q t = q ∷ (t ++ q ∷ [])

pub scan_bytes-quoted :
    (q depth : ℕ) (t rest v : Bytes) (d : ℕ)
    → is_quote q ≡ true
    → all (is_plain q) t ≡ true
    → scan_bytes (open_at 0 depth) rest ≡ ok (v, d)
    → scan_bytes (open_at 0 depth) (quoted q t ++ rest) ≡ ok (quoted q t ++ v, d)
scan_bytes-quoted q depth t rest v d hq h e =
    ap (λ s. scan_bytes (open_at 0 depth) (q ∷ s)) (append_assoc t (q ∷ []) rest)
    ∙ kept_step (open_at 0 depth) (open_at q depth) q (t ++ q ∷ rest) (t ++ q ∷ v) d
        (opening_step q depth hq) (string_end q depth t rest v d hq h e)
    ∙ ap (λ s. ok (q ∷ s, d)) (sym (append_assoc t (q ∷ []) v))

reverse-quoted : (q : ℕ) (t : Bytes) → reverse (quoted q t) ≡ q ∷ (reverse t ++ (q ∷ []))
reverse-quoted q t =
    reverse-cons q (t ++ q ∷ []) ∙ ap (λ s. s ++ (q ∷ [])) (reverse-append t (q ∷ []))

pub trim_space-quoted :
    (l r : Bytes) (q : ℕ) (t : Bytes)
    → all is_ascii_space l ≡ true
    → all is_ascii_space r ≡ true
    → is_quote q ≡ true
    → trim_space (l ++ (quoted q t ++ r)) ≡ quoted q t
trim_space-quoted l r q t hl hr hq =
    let visible : is_graphic q ≡ true = ground (arith, hq) in
    trim_space-blanks l r (t ++ q ∷ []) (reverse t ++ (q ∷ [])) q q (quoted q t) hl hr refl visible
      (reverse-quoted q t) visible

-- A string in quotes is scanned as a whole, whatever bytes it holds, a `#` or a bracket too, if only
-- none ends it or, in double quotes, escapes; blanks and a comment behind it are dropped, and the
-- depth stays.
pub scan_value-quoted :
    (q depth : ℕ) (t blanks rest : Bytes)
    → is_quote q ≡ true
    → all (is_plain q) t ≡ true
    → all is_ascii_space blanks ≡ true
    → IsComment rest
    → scan_value (quoted q t ++ (blanks ++ rest)) depth ≡ ok (quoted q t, depth)
unfolding scan_value
scan_value-quoted q depth t blanks rest hq h hb hc =
    let scanned =
      scan_bytes-quoted q depth t (blanks ++ rest) blanks depth hq h
        (blanks_end depth blanks rest hb hc) in
    ap (λ r. r >>= λ (value, d). ok (trim_space value, d)) scanned
    ∙ ap (λ v. ok (v, depth)) (trim_space-quoted [] blanks q t refl hb hq)
