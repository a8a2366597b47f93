-- ===== src/Config/Toml/Strings.antt =====
-- Two strings in single quotes, one behind the other, where one string belongs.
use dproxy.Base.{
  ◌≡◌, refl, sym, ap, ◌∙◌, true, Option, some, [], ◌∷◌, ◌++◌, ok, ◌>>=◌, all, append_assoc,
  append-nil,
}
use dproxy.Base.Text.{Bytes}
use dproxy.Base.Space.{trim_space}
use dproxy.Base.Trim.{trim_space-ends}
use dproxy.Config.Toml.{scan_bytes, scan_value}
use dproxy.Config.Toml.Values.{unquote}
use dproxy.Config.Toml.Scan.{is_plain, quoted, open_at, kept_step, blank_step, scan_bytes-quoted}
use dproxy.Config.Toml.File.{unquote-quoted}

abbrev pub two_strings : Bytes → Bytes → Bytes
two_strings t u = quoted b'\'' t ++ 32 ∷ quoted b'\'' u

-- What stands between the first quote and the last.
abbrev pub between : Bytes → Bytes → Bytes
between t u = t ++ b'\'' ∷ 32 ∷ b'\'' ∷ u

one_text : (t u : Bytes) → two_strings t u ≡ b'\'' ∷ (between t u ++ b'\'' ∷ [])
one_text t u = ap (◌∷◌ b'\'') (
    append_assoc t (b'\'' ∷ []) (32 ∷ quoted b'\'' u)
    ∙ sym (append_assoc t (b'\'' ∷ 32 ∷ b'\'' ∷ u) (b'\'' ∷ [])))

two_scanned :
    (t u : Bytes)
    → all (is_plain b'\'') t ≡ true
    → all (is_plain b'\'') u ≡ true
    → scan_bytes (open_at 0 0) (two_strings t u) ≡ ok (two_strings t u, 0)
unfolding scan_bytes
two_scanned t u ht hu =
    let second : scan_bytes (open_at 0 0) (quoted b'\'' u) ≡ ok (quoted b'\'' u, 0) =
      ap (scan_bytes (open_at 0 0)) (sym (append-nil (quoted b'\'' u)))
      ∙ scan_bytes-quoted b'\'' 0 u [] [] 0 refl hu refl
      ∙ ap (λ s. ok (s, 0)) (append-nil (quoted b'\'' u)) in
    scan_bytes-quoted b'\'' 0 t (32 ∷ quoted b'\'' u) (32 ∷ quoted b'\'' u) 0 refl ht (
      kept_step (open_at 0 0) (open_at 0 0) 32 (quoted b'\'' u) (quoted b'\'' u) 0
        (blank_step 32 0 refl) second)

whole_trimmed : (t u : Bytes) → trim_space (two_strings t u) ≡ two_strings t u
whole_trimmed t u =
    ap trim_space (one_text t u)
    ∙ trim_space-ends b'\'' b'\'' (between t u) refl refl
    ∙ sym (one_text t u)

-- Two strings in single quotes with a blank between them, which are no value, are scanned and
-- unquoted as one string, which holds the quotes and the blank in the middle.
pub unquote-two_strings :
    (go_unquote : Bytes → Option Bytes) (t u : Bytes)
    → all (is_plain b'\'') t ≡ true
    → all (is_plain b'\'') u ≡ true
    → (scan_value (two_strings t u) 0 ≡ ok (two_strings t u, 0))
      × (unquote go_unquote (two_strings t u) ≡ some (between t u))
unfolding scan_value
unquote-two_strings go_unquote t u ht hu = (
  ap (λ r. r >>= λ (value, d). ok (trim_space value, d)) (two_scanned t u ht hu)
      ∙ ap (λ v. ok (v, 0)) (whole_trimmed t u),
  ap (unquote go_unquote) (one_text t u) ∙ unquote-quoted go_unquote (between t u),
)
