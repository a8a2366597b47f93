-- ===== src/Config/Toml/Invariant.antt =====
-- What a document of `parseTOML` keeps to.
use dproxy.Base.{
  ℕ, ◌≤◌, ◌<◌, ◌≡◌, sym, ap, ◌∙◌, true, none, List, [], ◌∷◌, ◌++◌, arith, length, all, append_assoc,
  append-nil, All,
}
use dproxy.Base.Text.{Bytes}
use dproxy.Config.Toml.{TomlEntry, TomlDocument, find_entry, is_key_byte, qualified}

-- A name of letters, digits, underscores and hyphens.
abbrev pub IsBare : Bytes → Type 0
IsBare name = (0 < length name) × (all is_key_byte name ≡ true)

-- The name of a table, or none before the first.
abbrev pub IsSection : Bytes → Type 0
IsSection [] = Unit
IsSection (c ∷ s) = IsBare (c ∷ s)

-- A key at the top, or in a table.
abbrev pub IsKey : Bytes → Type 0
IsKey key =
    (section : Bytes) × (name : Bytes) × IsSection section
    × IsBare name
    × (key ≡ qualified section name)

-- No entry has the key of one before it, in d or in the list.
abbrev pub Fresh : TomlDocument → List TomlEntry → Type 0
Fresh d [] = Unit
Fresh d (e ∷ es) = (find_entry e.key d ≡ none) × Fresh (d ++ (e ∷ [])) es

-- The lines grow from a line behind `lo` to `hi` at most.
abbrev pub Ordered : ℕ → List TomlEntry → ℕ → Type 0
Ordered lo [] hi = lo ≤ hi
Ordered lo (e ∷ es) hi = (lo < e.line) × Ordered e.line es hi

abbrev pub IsEntry : TomlEntry → Type 0
IsEntry e = IsKey e.key × (0 < length e.raw)

pub record IsDocument (d : TomlDocument) (hi : ℕ) : Type 0 where
  pub fresh : Fresh [] d
  pub ordered : Ordered 0 d hi
  pub entries : All IsEntry d

Fresh-append :
    (d es : List TomlEntry) (e : TomlEntry)
    → Fresh d es
    → find_entry e.key (d ++ es) ≡ none
    → Fresh d (es ++ (e ∷ []))
Fresh-append d [] e f n = (ap (find_entry e.key) (sym (append-nil d)) ∙ n, tt)
Fresh-append d (g ∷ es) e (h, f) n = (
  h,
  Fresh-append (d ++ (g ∷ [])) es e f (ap (find_entry e.key) (append_assoc d (g ∷ []) es) ∙ n),
)

Ordered-append :
    (lo hi : ℕ) (es : List TomlEntry) (e : TomlEntry)
    → Ordered lo es hi
    → hi < e.line
    → Ordered lo (es ++ (e ∷ [])) e.line
Ordered-append lo hi [] e o h = (omega (arith, o, h), omega arith)
Ordered-append lo hi (g ∷ es) e (l, o) h = (l, Ordered-append g.line hi es e o h)

weaken-Ordered :
    (lo hi to : ℕ) (es : List TomlEntry) → Ordered lo es hi → hi ≤ to → Ordered lo es to
weaken-Ordered lo hi to [] o h = omega (arith, o, h)
weaken-Ordered lo hi to (g ∷ es) (l, o) h = (l, weaken-Ordered g.line hi to es o h)

entries-append :
    (es : List TomlEntry) (e : TomlEntry)
    → All IsEntry es
    → IsEntry e
    → All IsEntry (es ++ (e ∷ []))
entries-append [] e a p = (p, tt)
entries-append (g ∷ es) e (q, a) p = (q, entries-append es e a p)

-- A document grows by an entry of a later line with a key of its own.
pub grow :
    (d : TomlDocument) (hi : ℕ) (e : TomlEntry)
    → IsDocument d hi
    → find_entry e.key d ≡ none
    → IsEntry e
    → hi < e.line
    → IsDocument (d ++ (e ∷ [])) e.line
grow d hi e k n i h = record {
  fresh = Fresh-append [] d e k.fresh n;
  ordered = Ordered-append 0 hi d e k.ordered h;
  entries = entries-append d e k.entries i;
}

pub later : (d : TomlDocument) (hi to : ℕ) → IsDocument d hi → hi ≤ to → IsDocument d to
later d hi to k h = record {
  fresh = k.fresh;
  ordered = weaken-Ordered 0 hi to d k.ordered h;
  entries = k.entries;
}
