-- ===== src/Updates/Examples.antt =====
-- Three failures in a row, the second of which is not logged.
use tellm.Base.{ℕ, ◌+◌, ◌-◌, ◌≡◌, List, [], ◌∷◌, Text, codes, length, arith, some}
use tellm.Updates.{GetUpdatesRecovery, default_log_state, record_success}
use tellm.Updates.Accounting.{record_failures, record_failures-recovery}

abbrev failures : List (Text × ℕ)
failures = (codes "timeout", 11) ∷ (codes "timeout", 45) ∷ []

record_failures_example :
    let (n, s) = record_failures ((codes "timeout", 10) ∷ failures) default_log_state in
    (recovery : GetUpdatesRecovery) × (n + (s.consecutive_failures - s.last_reported_failure)
      ≡ length ((codes "timeout", 10) ∷ failures))
    × (record_success 50 s ≡ (some recovery, default_log_state))
    × (recovery.failures ≡ length ((codes "timeout", 10) ∷ failures))
record_failures_example = record_failures-recovery failures (codes "timeout", 10) 50 (omega arith)
