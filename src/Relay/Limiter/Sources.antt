-- ===== src/Relay/Limiter/Sources.antt =====
-- The sources in the limiter beside the one that is recorded.
use dproxy.Base.{
  ℕ, ◌+◌, ◌≤◌, ◌<◌, ◌≡◌, ◌≢◌, refl, sym, ap, ◌∙◌, inl, inr, true, false, some, List, [], ◌∷◌, ◌++◌,
  leb, if◌then◌else◌, length, arith, Bool-cases, length-append,
}
use dproxy.Base.Text.{Bytes, equal, equal_iff}
use dproxy.Relay.Limiter.{
  FailureEntry, Limiter, find_entry, remove_entry, remove_oldest, insert_entry, count_failure,
  add_source, current_entry, record_failure,
}
use dproxy.Relay.Limiter.Counting.{counted, failures}

not_equal : (s other : Bytes) → other ≢ s → equal s other ≡ false
not_equal s other n = elim (Bool-cases (equal s other)) [
  | inl f ↦ absurd (n (sym ((equal_iff s other).0 f)))
  | inr f ↦ f
]

not_other : (x s other : Bytes) → equal x s ≡ true → other ≢ s → equal x other ≡ false
not_other x s other f n = not_equal x other (λ e. n (e ∙ (equal_iff x s).0 f))

pub length-remove_entry :
    (s : Bytes) (es : List FailureEntry) → length (remove_entry s es) ≤ length es
unfolding remove_entry
length-remove_entry s [] = omega arith
length-remove_entry s (e ∷ es) = elim (Bool-cases (equal e.source s)) [
  | inl f ↦ rw f (omega (arith, length-remove_entry s es))
  | inr f ↦ rw f (omega (arith, length-remove_entry s es))
]

length-count_failure :
    (s : Bytes) (es : List FailureEntry) → length (count_failure s es) ≡ length es
unfolding count_failure
length-count_failure s [] = refl
length-count_failure s (e ∷ es) = elim (Bool-cases (equal e.source s)) [
  | inl f ↦ rw f refl
  | inr f ↦ rw f (omega (arith, length-count_failure s es))
]

length-insert_entry :
    (s : Bytes) (now : ℕ) (es : List FailureEntry) → length (insert_entry s now es) ≡ length es + 1
unfolding insert_entry
length-insert_entry s now es = length-append es (record { source = s; count = 0; start = now } ∷ [])

length-add_source :
    (now : ℕ) (s : Bytes) (es : List FailureEntry)
    → length es ≤ 4096
    → length (add_source s now es) ≤ 4096
unfolding add_source remove_oldest
length-add_source now s [] h = ground (arith, length-insert_entry s now [])
length-add_source now s (e ∷ es) h = elim (Bool-cases (leb 4096 (length (e ∷ es)))) [
  | inl f ↦ rw f (omega (arith, length-insert_entry s now es, h))
  | inr f ↦ rw f (ground (arith, length-insert_entry s now (e ∷ es), f))
]

length-add_source-suc :
    (now : ℕ) (s : Bytes) (es : List FailureEntry) → length (add_source s now es) ≤ length es + 1
unfolding add_source remove_oldest
length-add_source-suc now s [] = ground (arith, length-insert_entry s now [])
length-add_source-suc now s (e ∷ es) = elim (Bool-cases (leb 4096 (length (e ∷ es)))) [
  | inl f ↦ rw f (omega (arith, length-insert_entry s now es))
  | inr f ↦ rw f (omega (arith, length-insert_entry s now (e ∷ es)))
]

-- Recording a failure keeps the limiter within 4096 sources.
pub record_failure-bounded :
    (now : ℕ) (source : Bytes) (l : Limiter)
    → length l.entries ≤ 4096
    → length (record_failure now source l).entries ≤ 4096
unfolding record_failure
record_failure-bounded now source l h =
    elim (Bool-cases (current_entry now (find_entry source l.entries))) [
      | inl f ↦ rw f (omega (arith, length-count_failure source l.entries, h))
      | inr f ↦ rw f (
          omega (
            arith,
            length-count_failure source (add_source source now (remove_entry source l.entries)),
            length-add_source now source (remove_entry source l.entries)
                (omega (arith, length-remove_entry source l.entries, h)),
          ))
    ]

pub find_other-remove_entry :
    (s other : Bytes) (es : List FailureEntry)
    → other ≢ s
    → find_entry other (remove_entry s es) ≡ find_entry other es
unfolding find_entry remove_entry
find_other-remove_entry s other [] n = refl
find_other-remove_entry s other (e ∷ es) n = elim (Bool-cases (equal e.source s)) [
  | inl f ↦ rw (f, not_other e.source s other f n) (find_other-remove_entry s other es n)
  | inr f ↦
      rw f (
        ap (λ x. if equal e.source other then some e else x) (find_other-remove_entry s other es n))
]

find_other-count_failure :
    (s other : Bytes) (es : List FailureEntry)
    → other ≢ s
    → find_entry other (count_failure s es) ≡ find_entry other es
unfolding find_entry count_failure
find_other-count_failure s other [] n = refl
find_other-count_failure s other (e ∷ es) n = elim (Bool-cases (equal e.source s)) [
  | inl f ↦ rw (f, not_other e.source s other f n) refl
  | inr f ↦
      rw f (
        ap (λ x. if equal e.source other then some e else x)
          (find_other-count_failure s other es n))
]

find_other-append :
    (other : Bytes) (es : List FailureEntry) (x : FailureEntry)
    → equal x.source other ≡ false
    → find_entry other (es ++ x ∷ []) ≡ find_entry other es
unfolding find_entry
find_other-append other [] x n = rw n refl
find_other-append other (e ∷ es) x n =
    ap (λ x. if equal e.source other then some e else x) (find_other-append other es x n)

pub length-record_failure :
    (now : ℕ) (source : Bytes) (l : Limiter)
    → length (record_failure now source l).entries ≤ length l.entries + 1
unfolding record_failure add_source remove_oldest
length-record_failure now source l =
    elim (Bool-cases (current_entry now (find_entry source l.entries))) [
      | inl f ↦ rw f (omega (arith, length-count_failure source l.entries))
      | inr f ↦ rw f (
          omega (
            arith,
            length-count_failure source (add_source source now (remove_entry source l.entries)),
            length-add_source-suc now source (remove_entry source l.entries),
            length-remove_entry source l.entries,
          ))
    ]

-- The entry of another source stays as it is, while there is room for a source.
pub find_other-record_failure :
    (now : ℕ) (source other : Bytes) (l : Limiter)
    → other ≢ source
    → length l.entries < 4096
    → find_entry other (record_failure now source l).entries ≡ find_entry other l.entries
unfolding record_failure add_source insert_entry
find_other-record_failure now source other l n room =
    elim (Bool-cases (current_entry now (find_entry source l.entries))) [
      | inl f ↦ rw f (find_other-count_failure source other l.entries n)
      | inr f ↦
          rw (f, roomy)
            (find_other-count_failure source other
                (remove_entry source l.entries
                  ++ record { source = source; count = 0; start = now } ∷ [])
                n
              ∙ find_other-append other (remove_entry source l.entries)
                  (record { source = source; count = 0; start = now }) (not_equal source other n)
              ∙ find_other-remove_entry source other l.entries n)
    ]
  where
    roomy : leb 4096 (length (remove_entry source l.entries)) ≡ false
    roomy = ground (arith, length-remove_entry source l.entries, room)

-- A failure of one source leaves those of another as they are, while there is room for a source.
pub record_failure-others :
    (now : ℕ) (source other : Bytes) (l : Limiter)
    → other ≢ source
    → length l.entries < 4096
    → failures now other (record_failure now source l) ≡ failures now other l
record_failure-others now source other l n room =
    ap (counted now) (find_other-record_failure now source other l n room)
