-- ===== src/Store/History/Tests.antt =====
-- Histories of a small table, and theorems of Store/History's modules at work.
use uptime.Prelude.{
  ℕ, ◌+◌, ◌*◌, ◌≤◌, ◌≡◌, refl, false, some, List, [], ◌∷◌, All, length, select, arith, codes,
  bytes_eq,
}
use uptime.Store.Exec.{ok, start, lost}
use uptime.Store.Rows.{MonitorMinute, minute, hour, second, empty}
use uptime.Store.Checks.{prune_check_history}
use uptime.Store.History.{
  history_window, history_at, history_rows, fill, tally, add_tally, binned, date_bin, take_row,
}
use uptime.Store.History.Buckets.{OnMinute}
use uptime.Store.History.Windows.{IsCounted, history_at-IsCounted}
use uptime.Store.History.Retention.{prune_check_history-history}

-- Monitor 10 in minutes 0, 7 and 100, and another monitor.
abbrev minutes : List MonitorMinute
minutes =
    record { monitor_id = 10; minute_start = 100 * minute; successes = 5; failures = 2 }
    ∷ record { monitor_id = 10; minute_start = 7 * minute; successes = 1; failures = 0 }
    ∷ record { monitor_id = 11; minute_start = 90 * minute; successes = 9; failures = 9 }
    ∷ record { monitor_id = 10; minute_start = 97 * minute; successes = 0; failures = 4 }
    ∷ []

abbrev now : ℕ
now = 100 * minute + 30 * second

hour_window : history_window (codes "1h") ≡ ok (hour, minute)
unfolding history_window bytes_eq
hour_window = refl

-- The window starts inward of 40 minutes and 30 seconds.
test_history :
    ((history_at (hour, minute) now 1 10 minutes).from ≡ 41 * minute)
    × ((history_at (hour, minute) now 1 10 minutes).availability ≡ some (500, 11))
    × (length (history_at (hour, minute) now 1 10 minutes).buckets ≡ 60)
unfolding history_at history_rows fill tally add_tally binned date_bin take_row select
test_history = (refl, refl, refl)

minutes-All : All OnMinute minutes
minutes-All = (refl, (refl, (refl, (refl, tt))))

late : hour ≤ now
late = omega arith

history_at-IsCounted_example :
    All (IsCounted 10 minutes) (history_at (hour, minute) now 1 10 minutes).buckets
history_at-IsCounted_example =
    history_at-IsCounted (codes "1h") hour minute now 1 10 minutes hour_window late minutes-All

-- All of the minutes have expired.
abbrev next_month : ℕ
next_month = now + 31 * (24 * hour)

prune_check_history-history_example :
    history_at
      (hour, minute)
      next_month
      1
      10
      (prune_check_history next_month
        (λ m. false)
        (λ n. lost)
        (start (record empty { minutes = minutes }))).1.db.minutes
    ≡ history_at (hour, minute) next_month 1 10 minutes
prune_check_history-history_example =
    prune_check_history-history (λ n. lost) (start (record empty { minutes = minutes })) next_month
      next_month (λ m. false) (codes "1h") hour minute 1 10 hour_window (omega arith)
