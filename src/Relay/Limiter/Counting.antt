-- ===== src/Relay/Limiter/Counting.antt =====
-- The failures that count for a source, and how the operations change them.
use dproxy.Base.{
  ℕ, ◌+◌, ◌≡◌, refl, inl, inr, true, false, Option, none, some, List, [], ◌∷◌, ◌++◌, leb,
  if◌then◌else◌, length, arith, Bool-cases,
}
use dproxy.Base.Text.{Bytes, equal, equal_iff}
use dproxy.Relay.Limiter.{
  FailureEntry, Limiter, find_entry, remove_entry, remove_oldest, has_expired, insert_entry,
  count_failure, add_source, current_entry, record_failure,
}

-- The failures of a source that still count at a time.
abbrev pub counted : ℕ → Option FailureEntry → ℕ
counted now none = 0
counted now (some e) = if has_expired now e then 0 else e.count

abbrev pub failures : ℕ → Bytes → Limiter → ℕ
failures now source l = counted now (find_entry source l.entries)

abbrev pub counted_once : Option FailureEntry → Option FailureEntry
counted_once none = none
counted_once (some e) = some (record { source = e.source; count = e.count + 1; start = e.start })

pub find_entry-remove_entry :
    (s : Bytes) (es : List FailureEntry) → find_entry s (remove_entry s es) ≡ none
unfolding find_entry remove_entry
find_entry-remove_entry s [] = refl
find_entry-remove_entry s (e ∷ es) = elim (Bool-cases (equal e.source s)) [
  | inl f ↦ rw f (find_entry-remove_entry s es)
  | inr f ↦ rw (f, f) (find_entry-remove_entry s es)
]

find_entry-remove_oldest :
    (s : Bytes) (es : List FailureEntry)
    → find_entry s es ≡ none
    → find_entry s (remove_oldest es) ≡ none
unfolding find_entry remove_oldest
find_entry-remove_oldest s [] h = refl
find_entry-remove_oldest s (e ∷ es) h = ground arith

find_entry-append :
    (s : Bytes) (es : List FailureEntry) (x : FailureEntry)
    → find_entry s es ≡ none
    → x.source ≡ s
    → find_entry s (es ++ x ∷ []) ≡ some x
unfolding find_entry
find_entry-append s [] x h k = rw ((equal_iff x.source s).1 k) refl
find_entry-append s (e ∷ es) x h k = elim (Bool-cases (equal e.source s)) [
  | inl f ↦ absurd (ground (arith, f, h))
  | inr f ↦ rw f (find_entry-append s es x (ground arith) k)
]

pub find_entry-count_failure :
    (s : Bytes) (es : List FailureEntry)
    → find_entry s (count_failure s es) ≡ counted_once (find_entry s es)
unfolding find_entry count_failure
find_entry-count_failure s [] = refl
find_entry-count_failure s (e ∷ es) = elim (Bool-cases (equal e.source s)) [
  | inl f ↦ rw (f, f) refl
  | inr f ↦ rw (f, f) (find_entry-count_failure s es)
]

pub find_entry-add_source :
    (now : ℕ) (s : Bytes) (es : List FailureEntry)
    → find_entry s es ≡ none
    → find_entry s (add_source s now es) ≡ some (record { source = s; count = 0; start = now })
unfolding add_source insert_entry
find_entry-add_source now s es h = elim (Bool-cases (leb 4096 (length es))) [
  | inl f ↦ rw f (find_entry-append s (remove_oldest es) _ (find_entry-remove_oldest s es h) refl)
  | inr f ↦ rw f (find_entry-append s es _ h refl)
]

counted-once :
    (now : ℕ) (x : Option FailureEntry)
    → current_entry now x ≡ true
    → counted now (counted_once x) ≡ counted now x + 1
unfolding current_entry has_expired
counted-once now none h = ground arith
counted-once now (some e) h = ground arith

counted-stale :
    (now : ℕ) (x : Option FailureEntry) → current_entry now x ≡ false → counted now x ≡ 0
unfolding current_entry has_expired
counted-stale now none h = refl
counted-stale now (some e) h = ground arith

fresh-counted :
    (now : ℕ) (source : Bytes)
    → counted now (some (record { source = source; count = 1; start = now })) ≡ 1
unfolding has_expired
fresh-counted now source = ground arith

-- A recorded failure adds exactly one to the failures of its source that count at that time.
pub failures-record_failure :
    (now : ℕ) (source : Bytes) (l : Limiter)
    → failures now source (record_failure now source l) ≡ failures now source l + 1
unfolding record_failure
failures-record_failure now source l =
    elim (Bool-cases (current_entry now (find_entry source l.entries))) [
      | inl f ↦
          rw (f, find_entry-count_failure source l.entries)
            (counted-once now (find_entry source l.entries) f)
      | inr f ↦
          rw
            (
              f,
              find_entry-count_failure source
                  (add_source source now (remove_entry source l.entries)),
              find_entry-add_source now source (remove_entry source l.entries)
                  (find_entry-remove_entry source l.entries),
              counted-stale now (find_entry source l.entries) f,
            )
            (fresh-counted now source)
    ]
