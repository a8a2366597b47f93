-- ===== src/Base/Scanner/Lines.antt =====
-- `ScanLines` on lines that a newline ends.
use dproxy.Base.{
  ◌<◌, ◌≡◌, refl, ap, ◌∙◌, true, false, not, List, [], ◌∷◌, ◌++◌, leb, ◌==◌, length, all, All,
  and_true, arith,
}
use dproxy.Base.Text.{Bytes, split, trim_suffix}
use dproxy.Base.Scanner.{raw_lines, scan_limited, scan_lines, max_scan_token_size}

-- A line that the scanner gives as it is.
pub record IsLine (l : Bytes) : Type 0 where
  pub some_byte : 0 < length l
  pub one_line : all (λ c. not (c == 10)) l ≡ true
  pub fits : length l < 65536
  pub bare_end : trim_suffix 13 l ≡ l

-- A file of lines.
abbrev pub unlines : List Bytes → Bytes
unlines [] = []
unlines (l ∷ ls) = l ++ 10 ∷ unlines ls

split-newline :
    (l s : Bytes) → all (λ c. not (c == 10)) l ≡ true → split 10 (l ++ 10 ∷ s) ≡ l ∷ split 10 s
unfolding split
split-newline [] s h = refl
split-newline (c ∷ l) s h =
    let parts = and_true (not (c == 10)) (all (λ c. not (c == 10)) l) h in
    let other : (c == 10) ≡ false = ground (arith, parts.0) in
    rw (other, split-newline l s parts.1, split) refl

raw_line : (l : Bytes) (ls : List Bytes) → 0 < length l → raw_lines (l ∷ ls) ≡ l ∷ raw_lines ls
unfolding raw_lines
raw_line [] ls h = absurd (omega (arith, h))
raw_line (c ∷ l) ls h = refl

raw_lines-unlines : (ls : List Bytes) → All IsLine ls → raw_lines (split 10 (unlines ls)) ≡ ls
unfolding raw_lines split
raw_lines-unlines [] h = refl
raw_lines-unlines (l ∷ ls) (h, hs) =
    ap raw_lines (split-newline l (unlines ls) h.one_line)
    ∙ raw_line l (split 10 (unlines ls)) h.some_byte
    ∙ ap (◌∷◌ l) (raw_lines-unlines ls hs)

scan_limited-lines : (ls : List Bytes) → All IsLine ls → scan_limited ls ≡ (ls, false)
unfolding scan_limited
scan_limited-lines [] h = refl
scan_limited-lines (l ∷ ls) (h, hs) =
    let short : leb max_scan_token_size (length l) ≡ false = ground (arith, h.fits) in
    rw (short, scan_limited-lines ls hs, h.bare_end, scan_limited) refl

pub scan_lines-unlines : (ls : List Bytes) → All IsLine ls → scan_lines (unlines ls) ≡ (ls, false)
unfolding scan_lines
scan_lines-unlines ls h = ap scan_limited (raw_lines-unlines ls h) ∙ scan_limited-lines ls h
