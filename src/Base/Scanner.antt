-- ===== src/Base/Scanner.antt =====
-- `bufio.Scanner` with `ScanLines`, over a reader that gives its bytes and then the end.
pub mod Lines
use dproxy.Base.{ℕ, Bool, true, false, List, [], ◌∷◌, leb, if◌then◌else◌, length}
use dproxy.Base.Text.{Bytes, split, trim_suffix}

-- The pieces between newlines; nothing stands behind the last newline of a text.
raw_lines : List Bytes → List Bytes
raw_lines [] = []
raw_lines ([] ∷ []) = []
raw_lines (l ∷ ls) = l ∷ raw_lines ls

-- `MaxScanTokenSize`: the scanner stops at a line that does not fit its buffer.
abbrev pub max_scan_token_size : ℕ
max_scan_token_size = 65536

scan_limited : List Bytes → List Bytes × Bool
unfolding trim_suffix
scan_limited [] = ([], false)
scan_limited (l ∷ ls) =
    let rest = scan_limited ls in
    if leb max_scan_token_size (length l) then ([], true) else (trim_suffix 13 l ∷ rest.0, rest.1)

-- The lines that `Scan` gives, and whether `Err` is `ErrTooLong` then.
unfoldable pub scan_lines : Bytes → List Bytes × Bool
unfolding scan_limited raw_lines split
scan_lines s = scan_limited (raw_lines (split 10 s))
