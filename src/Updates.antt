-- ===== src/Updates.antt =====
-- src/runtime.rs, `GetUpdatesLogState`: which failures of `getUpdates` are logged.
pub mod Accounting
mod Examples
use tellm.Base.{
  ℕ, zero, suc, ◌+◌, ◌-◌, ◌%◌, ◌^◌, ◌≤◌, Bool, true, false, not, ◌||◌, ◌&&◌, Option, none, some,
  Text, text_eq, ltb, leb, ◌==◌, if◌then◌else◌, unwrap_or,
}

-- Times are seconds of the monotonic clock; `duration_since` is 0 for a later time.
abbrev pub get_updates_failure_log_interval : ℕ
get_updates_failure_log_interval = 30

pub record GetUpdatesLogState : Type 0 where
  pub consecutive_failures : ℕ
  pub started_at : Option ℕ
  pub last_reported_at : Option ℕ
  pub last_reported_failure : ℕ
  pub last_error : Option Text

abbrev pub default_log_state : GetUpdatesLogState
default_log_state = record {
  consecutive_failures = 0;
  started_at = none;
  last_reported_at = none;
  last_reported_failure = 0;
  last_error = none;
}

pub record GetUpdatesFailureReport : Type 0 where
  pub consecutive_failures : ℕ
  pub elapsed : ℕ
  pub suppressed : ℕ
  pub first : Bool
  pub error_changed : Bool

pub record GetUpdatesRecovery : Type 0 where
  pub failures : ℕ
  pub downtime : ℕ

-- `last_error.as_deref() != Some(error)`
pub is_other_error : Option Text → Text → Bool
is_other_error none error = true
is_other_error (some last) error = not (text_eq last error)

pub interval_elapsed : Option ℕ → ℕ → Bool
interval_elapsed none now = false
interval_elapsed (some last_reported) now =
    leb get_updates_failure_log_interval (now - last_reported)

-- The counter is a `u64`.
pub record_failure :
    Text → ℕ → GetUpdatesLogState → Option GetUpdatesFailureReport × GetUpdatesLogState
unfolding is_other_error interval_elapsed
record_failure error now s =
    let n = (s.consecutive_failures + 1) % 2 ^ 64 in
    let started_at = unwrap_or s.started_at now in
    let first = n == 1 in
    let error_changed = not first && is_other_error s.last_error error in
    let report_interval_elapsed = interval_elapsed s.last_reported_at now in
    let counted : GetUpdatesLogState = record s {
      consecutive_failures = n;
      started_at = some started_at;
      last_error = some error;
    } in
    if not first && not error_changed && not report_interval_elapsed then (none, counted) else (
      some (record {
        consecutive_failures = n;
        elapsed = now - started_at;
        suppressed = n - s.last_reported_failure - 1;
        first = first;
        error_changed = error_changed;
      }),
      record counted { last_reported_at = some now; last_reported_failure = n },
    )

pub downtime_since : Option ℕ → ℕ → ℕ
downtime_since none now = 0
downtime_since (some started_at) now = now - started_at

pub record_success : ℕ → GetUpdatesLogState → Option GetUpdatesRecovery × GetUpdatesLogState
unfolding downtime_since
record_success now s = if s.consecutive_failures == 0 then (none, s) else (
  some (record { failures = s.consecutive_failures; downtime = downtime_since s.started_at now }),
  default_log_state,
)
