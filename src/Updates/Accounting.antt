-- ===== src/Updates/Accounting.antt =====
-- What the log says of the failures that it does not list.
use tellm.Base.{
  ℕ, ◌+◌, ◌-◌, ◌≤◌, ◌<◌, ◌≡◌, Option, none, some, List, [], ◌∷◌, arith, Text, length, ◌^◌,
}
use tellm.Updates.{
  GetUpdatesLogState, GetUpdatesFailureReport, GetUpdatesRecovery, default_log_state,
  record_failure, record_success, downtime_since,
}

-- Failures one behind the other, the number that the reports speak for, and the state behind them.
abbrev pub spoken_for : Option GetUpdatesFailureReport → ℕ
spoken_for none = 0
spoken_for (some report) = report.suppressed + 1

abbrev pub record_failures : List (Text × ℕ) → GetUpdatesLogState → ℕ × GetUpdatesLogState
record_failures [] s = (0, s)
record_failures ((error, now) ∷ failures) s =
    let (report, s') = record_failure error now s in
    let (n, end) = record_failures failures s' in (spoken_for report + n, end)

one_failure :
    (error : Text) (now : ℕ) (s : GetUpdatesLogState)
    → s.consecutive_failures + 1 < 2 ^ 64
    → s.last_reported_failure ≤ s.consecutive_failures
    → ((record_failure error now s).1.consecutive_failures ≡ s.consecutive_failures + 1)
      × (spoken_for (record_failure error now s).0 + s.last_reported_failure
          ≡ (record_failure error now s).1.last_reported_failure)
      × ((record_failure error now s).1.last_reported_failure ≤ s.consecutive_failures + 1)
unfolding record_failure
one_failure error now s bound below = ground arith

all_failures :
    (failures : List (Text × ℕ)) (s : GetUpdatesLogState)
    → s.consecutive_failures + length failures < 2 ^ 64
    → s.last_reported_failure ≤ s.consecutive_failures
    → ((record_failures failures s).1.consecutive_failures
        ≡ s.consecutive_failures + length failures)
      × ((record_failures failures s).0 + s.last_reported_failure
          ≡ (record_failures failures s).1.last_reported_failure)
      × ((record_failures failures s).1.last_reported_failure
          ≤ s.consecutive_failures + length failures)
all_failures [] s bound below = omega (arith, bound, below)
all_failures ((error, now) ∷ failures) s bound below =
    let s' = (record_failure error now s).1 in
    let one = one_failure error now s (omega (arith, bound)) below in
    let rest = all_failures failures s' (omega (arith, bound, one)) (omega (arith, one)) in
    omega (arith, one, rest)

-- Behind fewer than 2 ^ 64 failures in a row, the number of those that were logged or counted as
-- suppressed by a later report, and of those behind the last report, is the number of failures, and
-- so is the number that the recovery behind them reports, when there was one.
pub record_failures-recovery :
    (failures : List (Text × ℕ)) (first : Text × ℕ) (now : ℕ)
    → length (first ∷ failures) < 2 ^ 64
    → let (n, s) = record_failures (first ∷ failures) default_log_state in
      (recovery : GetUpdatesRecovery) × (n + (s.consecutive_failures - s.last_reported_failure)
        ≡ length (first ∷ failures))
      × (record_success now s ≡ (some recovery, default_log_state))
      × (recovery.failures ≡ length (first ∷ failures))
unfolding record_success
record_failures-recovery failures first now bound =
    let all =
      all_failures (first ∷ failures) default_log_state (omega (arith, bound)) (omega arith) in
    let s = (record_failures (first ∷ failures) default_log_state).1 in
    (
      record { failures = s.consecutive_failures; downtime = downtime_since s.started_at now },
      omega (arith, all),
      ground (arith, all),
      omega (arith, all),
    )
