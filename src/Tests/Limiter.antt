-- ===== src/Tests/Limiter.antt =====
-- The theorems of the limiter at a source with some failures, and at a second source.
use dproxy.Base.{true, false, ◌≢◌, ◌+◌, ◌≤◌, ◌<◌, ◌≡◌, ◌↔◌, sym, List, [], ◌∷◌, length, arith, All}
use dproxy.Base.Text.{Bytes, codes, equal, equal_iff}
use dproxy.Relay.Limiter.{Limiter, new_limiter, find_entry, record_failure, is_blocked}
use dproxy.Relay.Limiter.Counting.{failures, failures-record_failure}
use dproxy.Relay.Limiter.Windows.{
  Call, failed, asked, passed, after_calls, failed_calls, IsOver, Within, is_blocked-after_calls,
}
use dproxy.Relay.Limiter.Sources.{record_failure-others}

abbrev nine : Limiter
nine = record { entries = record { source = codes "192.0.2.1"; count = 9; start = 100 } ∷ [] }

failures-record_failure_example :
    failures 200 (codes "192.0.2.1") (record_failure 200 (codes "192.0.2.1") nine)
    ≡ failures 200 (codes "192.0.2.1") nine + 1
failures-record_failure_example = failures-record_failure 200 (codes "192.0.2.1") nine

apart : codes "192.0.2.1" ≢ codes "192.0.2.2"
unfolding equal
apart e = false_true ((equal_iff (codes "192.0.2.1") (codes "192.0.2.2")).1 e)
  where
    false_true : false ≡ true → ⊥
    false_true f = cc

abbrev source : Bytes
source = codes "192.0.2.1"

-- Two more failures of the source, and what another source does in between.
abbrev calls : List Call
calls =
    failed 120 source
    ∷ failed 130 (codes "192.0.2.2")
    ∷ asked 140 source
    ∷ passed (codes "192.0.2.2")
    ∷ failed 150 source
    ∷ []

source-IsOver : IsOver 100 (find_entry source new_limiter.entries)
unfolding find_entry new_limiter
source-IsOver = tt

calls-Within : All (Within (100 + 60000000000) source) calls
calls-Within =
    let other = λ (e : codes "192.0.2.2" ≡ codes "192.0.2.1"). apart (sym e) in
    ground (arith, other)

calls_fit : length new_limiter.entries + length calls < 4096
unfolding new_limiter
calls_fit = omega arith

is_blocked-after_calls_example :
    ((is_blocked 200 source (after_calls calls (record_failure 100 source new_limiter))).1 ≡ true)
    ↔ ((10 ≤ failed_calls source calls + 1) × (200 < 100 + 60000000000))
is_blocked-after_calls_example =
    is_blocked-after_calls source 100 200 calls new_limiter source-IsOver calls-Within calls_fit

record_failure-others_example :
    failures 200 (codes "192.0.2.1") (record_failure 200 (codes "192.0.2.2") nine)
    ≡ failures 200 (codes "192.0.2.1") nine
record_failure-others_example =
    record_failure-others 200 (codes "192.0.2.2") (codes "192.0.2.1") nine apart (omega arith)
