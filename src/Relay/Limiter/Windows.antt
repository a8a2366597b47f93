-- ===== src/Relay/Limiter/Windows.antt =====
-- The calls that the server makes of the limiter, and what they leave of one source's window.
use dproxy.Base.{
  ℕ, ◌+◌, ◌≤◌, ◌<◌, ◌≡◌, ◌≢◌, ◌↔◌, refl, sym, ◌∙◌, inl, inr, true, false, Option, none, some, List,
  [], ◌∷◌, if◌then◌else◌, length, arith, Bool-cases, All,
}
use dproxy.Base.Text.{Bytes, equal, equal_iff}
use dproxy.Relay.Limiter.{
  FailureEntry, Limiter, find_entry, remove_entry, has_expired, add_source, current_entry,
  record_failure, is_blocked, judge_entry, reset_failures,
}
use dproxy.Relay.Limiter.Counting.{
  find_entry-remove_entry, find_entry-count_failure, find_entry-add_source,
}
use dproxy.Relay.Limiter.Sources.{
  length-record_failure, length-remove_entry, find_other-record_failure, find_other-remove_entry,
}

-- `record` and `blocked` at a time, and `reset`, each for a source.
pub data Call : Type 0 where
  failed asked : ℕ → Bytes → Call
  passed : Bytes → Call

abbrev pub after_call : Call → Limiter → Limiter
after_call (failed now source) l = record_failure now source l
after_call (asked now source) l = (is_blocked now source l).0
after_call (passed source) l = reset_failures source l

abbrev pub after_calls : List Call → Limiter → Limiter
after_calls [] l = l
after_calls (c ∷ cs) l = after_calls cs (after_call c l)

-- How often a source failed.
abbrev pub failed_calls : Bytes → List Call → ℕ
failed_calls source [] = 0
failed_calls source (failed now s ∷ cs) =
    if equal s source then failed_calls source cs + 1 else failed_calls source cs
failed_calls source (asked now s ∷ cs) = failed_calls source cs
failed_calls source (passed s ∷ cs) = failed_calls source cs

-- A call before an end, which does not reset the source.
abbrev pub Within : ℕ → Bytes → Call → Type 0
Within end source (failed now s) = now < end
Within end source (asked now s) = now < end
Within end source (passed s) = s ≢ source

-- No entry, or one whose minute is over.
abbrev pub IsOver : ℕ → Option FailureEntry → Type 0
IsOver now none = Unit
IsOver now (some e) = e.start + 60000000000 ≤ now

IsOver-current : (now : ℕ) (x : Option FailureEntry) → IsOver now x → current_entry now x ≡ false
unfolding current_entry has_expired
IsOver-current now none h = refl
IsOver-current now (some e) h = ground arith

find_entry-opened :
    (now : ℕ) (source : Bytes) (l : Limiter)
    → IsOver now (find_entry source l.entries)
    → find_entry source (record_failure now source l).entries
      ≡ some (record { source = source; count = 1; start = now })
unfolding record_failure
find_entry-opened now source l h =
    rw
      (
        IsOver-current now (find_entry source l.entries) h,
        find_entry-count_failure source (add_source source now (remove_entry source l.entries)),
        find_entry-add_source now source (remove_entry source l.entries)
            (find_entry-remove_entry source l.entries),
      )
      refl

module _ (source : Bytes) (start : ℕ) where
  abbrev IsOpen : ℕ → Limiter → Type 0
  IsOpen n l =
      find_entry source l.entries ≡ some (record { source = source; count = n; start = start })

  IsOpen-cast : {m n : ℕ} (l : Limiter) → m ≡ n → IsOpen m l → IsOpen n l
  IsOpen-cast l e h = rw (sym e) h

  IsOpen-failed :
      (now n : ℕ) (l : Limiter)
      → now < start + 60000000000
      → IsOpen n l
      → IsOpen (n + 1) (record_failure now source l)
  unfolding record_failure current_entry has_expired
  IsOpen-failed now n l early h =
      let current : current_entry now (find_entry source l.entries) ≡ true = rw h (ground arith) in
      rw (current, find_entry-count_failure source l.entries, h) refl

  find_other-asked :
      (now : ℕ) (s : Bytes) (l : Limiter) (x : Option FailureEntry)
      → source ≢ s
      → find_entry source (judge_entry now s l x).0.entries ≡ find_entry source l.entries
  unfolding judge_entry
  find_other-asked now s l none n = refl
  find_other-asked now s l (some e) n = elim (Bool-cases (has_expired now e)) [
    | inl f ↦ rw f (find_other-remove_entry s source l.entries n)
    | inr f ↦ rw f refl
  ]

  length-asked :
      (now : ℕ) (s : Bytes) (l : Limiter) (x : Option FailureEntry)
      → length (judge_entry now s l x).0.entries ≤ length l.entries
  unfolding judge_entry
  length-asked now s l none = omega arith
  length-asked now s l (some e) = elim (Bool-cases (has_expired now e)) [
    | inl f ↦ rw f (length-remove_entry s l.entries)
    | inr f ↦ rw f (omega arith)
  ]

  IsOpen-asked :
      (now n : ℕ) (l : Limiter)
      → now < start + 60000000000
      → IsOpen n l
      → (is_blocked now source l).0 ≡ l
  unfolding is_blocked judge_entry has_expired
  IsOpen-asked now n l early h = rw h (ground arith)

  apart : (s : Bytes) → equal s source ≡ false → source ≢ s
  apart s f e = cc ((equal_iff s source).1 (sym e))

  length-after_call :
      (c : Call) (l : Limiter) → length (after_call c l).entries ≤ length l.entries + 1
  unfolding is_blocked reset_failures
  length-after_call (failed now s) l = length-record_failure now s l
  length-after_call (asked now s) l = omega (arith, length-asked now s l (find_entry s l.entries))
  length-after_call (passed s) l = omega (arith, length-remove_entry s l.entries)

  IsOpen-after_call :
      (c : Call) (n : ℕ) (l : Limiter)
      → Within (start + 60000000000) source c
      → length l.entries < 4096
      → IsOpen n l
      → IsOpen (failed_calls source (c ∷ []) + n) (after_call c l)
  unfolding is_blocked reset_failures
  IsOpen-after_call (failed now s) n l w room h = elim (Bool-cases (equal s source)) [
    | inl f ↦
        let same : s ≡ source = (equal_iff s source).0 f in
        rw (f, same)
          (IsOpen-cast (record_failure now source l) (omega arith) (IsOpen-failed now n l w h))
    | inr f ↦
        rw f (
          find_other-record_failure now s source l (apart s f) room ∙ IsOpen-cast l (omega arith) h)
  ]
  IsOpen-after_call (asked now s) n l w room h = elim (Bool-cases (equal s source)) [
    | inl f ↦
        let same : s ≡ source = (equal_iff s source).0 f in
        rw same (rw (IsOpen-asked now n l w h) (IsOpen-cast l (omega arith) h))
    | inr f ↦
        find_other-asked now s l (find_entry s l.entries) (apart s f)
        ∙ IsOpen-cast l (omega arith) h
  ]
  IsOpen-after_call (passed s) n l w room h =
      find_other-remove_entry s source l.entries (λ e. w (sym e)) ∙ IsOpen-cast l (omega arith) h

  failed_calls-cons :
      (c : Call) (cs : List Call)
      → failed_calls source (c ∷ cs) ≡ failed_calls source (c ∷ []) + failed_calls source cs
  failed_calls-cons (failed now s) cs = ground arith
  failed_calls-cons (asked now s) cs = omega arith
  failed_calls-cons (passed s) cs = omega arith

  IsOpen-after_calls :
      (cs : List Call) (n : ℕ) (l : Limiter)
      → All (Within (start + 60000000000) source) cs
      → length l.entries + length cs ≤ 4096
      → IsOpen n l
      → IsOpen (failed_calls source cs + n) (after_calls cs l)
  IsOpen-after_calls [] n l w room h = IsOpen-cast l (omega arith) h
  IsOpen-after_calls (c ∷ cs) n l w room h =
      IsOpen-cast (after_calls cs (after_call c l)) (omega (arith, failed_calls-cons c cs)) (
        IsOpen-after_calls cs (failed_calls source (c ∷ []) + n) (after_call c l) w.1
          (omega (arith, length-after_call c l)) (IsOpen-after_call c n l w.0 (omega arith) h))

  -- An open window blocks its source from ten failures on, until its minute is over.
  IsOpen-is_blocked :
      (now n : ℕ) (l : Limiter)
      → IsOpen n l
      → ((is_blocked now source l).1 ≡ true) ↔ ((10 ≤ n) × (now < start + 60000000000))
  unfolding is_blocked judge_entry has_expired
  IsOpen-is_blocked now n l h = rw h (ground arith)

-- Let a failure of a source open its window, with no entry of it in the limiter or one whose minute
-- is over. Let calls of the limiter follow, for this and for other sources, in any order and all
-- before the window's minute is over, that do not reset the source and are too few to fill the
-- limiter's 4096 places. Then the source is blocked at a time exactly if it failed ten times or
-- more, the first failure included, and the minute since that first failure is not over.
pub is_blocked-after_calls :
    (source : Bytes) (start now : ℕ) (calls : List Call) (l : Limiter)
    → IsOver start (find_entry source l.entries)
    → All (Within (start + 60000000000) source) calls
    → length l.entries + length calls < 4096
    → ((is_blocked now source (after_calls calls (record_failure start source l))).1 ≡ true)
      ↔ ((10 ≤ failed_calls source calls + 1) × (now < start + 60000000000))
is_blocked-after_calls source start now calls l over within room =
    IsOpen-is_blocked source start now (failed_calls source calls + 1)
      (after_calls calls (record_failure start source l))
      (IsOpen-after_calls source start calls 1 (record_failure start source l) within
        (omega (arith, length-record_failure start source l))
        (find_entry-opened start source l over))
