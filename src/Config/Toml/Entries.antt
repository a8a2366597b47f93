-- ===== src/Config/Toml/Entries.antt =====
-- Entries of a document, each as `parseTOML` adds it.
use dproxy.Base.{
  ℕ, ◌+◌, ◌≤◌, ◌<◌, ◌≡◌, refl, inl, inr, false, Option, none, some, [], ◌∷◌, ◌++◌, ◌==◌, arith,
  Result, ok, err, ◌>>=◌, length, Option-cases,
}
use dproxy.Base.Text.{Bytes, equal}
use dproxy.Base.Space.{trim_space}
use dproxy.Base.Outcomes.{OkWith, choose_OkWith, bind-OkWith}
use dproxy.Config.Toml.{
  TomlFault, at_line, TomlEntry, TomlDocument, find_entry, validate_bare_key, Pending, Parser,
  qualified, store, finish_entry, take_value, located, take_key_value, scan_value, no_value,
}
use dproxy.Config.Toml.Invariant.{IsBare, IsSection, IsDocument, grow, later}

-- The parser behind `line` lines, with a document that ends before the open array.
abbrev pub PendingOk : TomlDocument → Option Pending → ℕ → Type 0
PendingOk d none line = IsDocument d line
PendingOk d (some v) line =
    (hi : ℕ) × IsDocument d hi × (hi < v.start_line) × (v.start_line ≤ line) × IsBare v.name

pub record IsParser (line : ℕ) (p : Parser) : Type 0 where
  pub section : IsSection p.section
  pub so_far : PendingOk p.document p.pending line

pub validate_bare_key-IsBare : (name : Bytes) → validate_bare_key name ≡ none → IsBare name
unfolding validate_bare_key
validate_bare_key-IsBare [] h = cc
validate_bare_key-IsBare (c ∷ s) h = (omega arith, ground (arith, h))

nothing_left : (raw : Bytes) → equal raw [] ≡ false → 0 < length raw
unfolding equal
nothing_left [] h = cc
nothing_left (c ∷ s) h = omega arith

-- Stands behind `hi` and before the end of `line`.
pub record IsReady (p : Parser) (v : Pending) (line : ℕ) : Type 0 where
  pub section : IsSection p.section
  pub hi : ℕ
  pub document : IsDocument p.document hi
  pub starts : hi < v.start_line
  pub within : v.start_line ≤ line
  pub bare : IsBare v.name

store-IsParser :
    (p : Parser) (v : Pending) (line : ℕ)
    → IsReady p v line
    → 0 < length v.value
    → (found : Option TomlEntry) → find_entry (qualified p.section v.name) p.document ≡ found
    → OkWith (IsParser line) (store p (qualified p.section v.name) v.value v.start_line found)
unfolding store
store-IsParser p v line k h (some e) x = tt
store-IsParser p v line k h none x =
    let e : TomlEntry = record {
      key = qualified p.section v.name;
      raw = v.value;
      line = v.start_line;
    } in
    let grown =
      grow p.document k.hi e k.document x ((p.section, v.name, k.section, k.bare, refl), h)
        k.starts in
    record {
      section = k.section;
      so_far = later (p.document ++ (e ∷ [])) v.start_line line grown k.within;
    }

finish_entry-IsParser :
    (p : Parser) (v : Pending) (line : ℕ)
    → IsReady p v line
    → OkWith (IsParser line) (finish_entry p v.name v.value v.start_line)
unfolding finish_entry
finish_entry-IsParser p v line k =
    let key = qualified p.section v.name in
    choose_OkWith (IsParser line) (equal v.value []) (err (at_line v.start_line no_value)) _
      (λ _. tt)
      (λ e. store-IsParser p v line k (nothing_left v.value e) (find_entry key p.document) refl)

pub take_value-IsParser :
    (p : Parser) (v : Pending) (line : ℕ)
    → IsReady p v line
    → OkWith (IsParser line) (take_value p v)
unfolding take_value
take_value-IsParser p v line k =
    choose_OkWith (IsParser line) (v.depth == 0) (finish_entry p v.name v.value v.start_line) _
      (λ _. finish_entry-IsParser p v line k)
      (λ _. record { section = k.section; so_far = (k.hi, k.document, k.starts, k.within, k.bare) })

-- An error with its line has no result.
pub located-OkWith :
    {A : Type 0} (P : A → Type 0) (line : ℕ) (r : Result TomlFault A)
    → OkWith P r
    → OkWith P (located line r)
unfolding located
located-OkWith P line (ok a) h = h
located-OkWith P line (err e) h = tt

-- Nothing is asked of a value.
abbrev pub Anything : {A : Type 0} → A → Type 0
Anything a = Unit

pub anything : {A : Type 0} (r : Result TomlFault A) → OkWith Anything r
anything (ok a) = tt
anything (err e) = tt

key_value-IsParser :
    (p : Parser) (line : ℕ) (name after : Bytes)
    → IsSection p.section
    → IsDocument p.document line
    → IsBare name
    → OkWith (IsParser (line + 1)) (
        located (line + 1) (scan_value (trim_space after) 0) >>= λ (value, depth).
        take_value p (record { name = name; value = value; start_line = line + 1; depth = depth }))
key_value-IsParser p line name after sec k bare =
    let r = scan_value (trim_space after) 0 in
    bind-OkWith Anything (IsParser (line + 1)) (located (line + 1) r) _
      (located-OkWith Anything (line + 1) r (anything r))
      (λ (value, depth) _.
        take_value-IsParser p
          (record { name = name; value = value; start_line = line + 1; depth = depth }) (line + 1)
          (record {
            section = sec;
            hi = line;
            document = k;
            starts = omega arith;
            within = omega arith;
            bare = bare;
          }))

pub take_key_value-IsParser :
    (p : Parser) (line : ℕ) (cut_text : Option (Bytes × Bytes))
    → IsSection p.section
    → IsDocument p.document line
    → OkWith (IsParser (line + 1)) (take_key_value p (line + 1) cut_text)
unfolding take_key_value
take_key_value-IsParser p line none sec k = tt
take_key_value-IsParser p line (some (before, after)) sec k =
    let name = trim_space before in
    elim (Option-cases (validate_bare_key name)) [
      | inl e ↦
          rw (e, take_key_value)
            (key_value-IsParser p line name after sec k (validate_bare_key-IsBare name e))
      | inr (f, e) ↦ rw (e, take_key_value) tt
    ]
