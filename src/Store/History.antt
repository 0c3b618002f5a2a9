-- ===== src/Store/History.antt =====
-- backend/internal/store/checks.go, what is read of the checks: MonitorStatuses and CheckHistory
-- (a snapshot at one moment, `now`, of the database). A counter stays below 2^63, a time is not
-- before 1970, and an availability is the fraction that the source rounds to a float64.
pub mod Buckets
pub mod Counts
pub mod Windows
pub mod Retention
pub mod Reads
mod Tests
use uptime.Prelude.{
  ℕ, zero, suc, ◌+◌, ◌-◌, ◌*◌, ◌/◌, Bool, true, false, ◌&&◌, Option, none, some, List, [], ◌∷◌, map,
  length, Bytes, codes, bytes_eq, find, select, sum_of, ltb, leb, ◌==◌, if◌then◌else◌,
}
use uptime.Store.Rows.{Monitor, MonitorState, MonitorMinute, Db, second, minute, hour}
use uptime.Store.Exec.{
  Result, ok, err, Exec, Error, record_not_found, bad_period, pure, query, lift, or_not_found,
  transaction, ◌>>=◌, ◌>>◌,
}

-- HistoryWindow: the duration and the step of a graph.
unfoldable pub history_window : Bytes → Result (ℕ × ℕ)
history_window period =
    if bytes_eq period (codes "1h")
    then ok (hour, minute)
    else if bytes_eq period (codes "24h")
    then ok (24 * hour, 5 * minute)
    else if bytes_eq period (codes "7d")
    then ok (7 * 24 * hour, 30 * minute)
    else if bytes_eq period (codes "30d")
    then ok (30 * 24 * hour, 2 * hour)
    else err bad_period

-- A percentage, as numerator and denominator.
abbrev pub availability : ℕ → ℕ → Option (ℕ × ℕ)
availability successes failures =
    if successes + failures == 0 then none else some (successes * 100, successes + failures)

-- The first whole minute that is not before the cutoff.
abbrev pub inward : ℕ → ℕ
inward cutoff =
    let truncated = cutoff / minute * minute in
    if ltb truncated cutoff then truncated + minute else truncated

-- What a row of the grouping query holds.
pub record Tally : Type 0 where
  pub start : ℕ
  pub successes : ℕ
  pub failures : ℕ

abbrev pub merge : Tally → Tally → Tally
merge t u = record {
  start = u.start;
  successes = t.successes + u.successes;
  failures = t.failures + u.failures;
}

-- date_bin, for a minute that is not before the origin.
unfoldable pub date_bin : ℕ → ℕ → ℕ → ℕ
date_bin step origin at = origin + (at - origin) / step * step

-- GROUP BY 1 ORDER BY 1
unfoldable pub add_tally : Tally → List Tally → List Tally
add_tally t [] = t ∷ []
add_tally t (u ∷ us) =
    let rest = add_tally t us in
    if t.start == u.start
    then merge t u ∷ us
    else if ltb t.start u.start
    then t ∷ u ∷ us
    else u ∷ rest

unfoldable pub tally : List Tally → List Tally
unfolding add_tally
tally [] = []
tally (t ∷ ts) = add_tally t (tally ts)

abbrev pub in_window : ℕ → ℕ → ℕ → MonitorMinute → Bool
in_window id from upto m =
    (m.monitor_id == id) && leb from m.minute_start && leb m.minute_start upto

unfoldable pub binned : ℕ → ℕ → MonitorMinute → Tally
unfolding date_bin
binned step from m = record {
  start = date_bin step from m.minute_start;
  successes = m.successes;
  failures = m.failures;
}

unfoldable pub history_rows : ℕ → ℕ → ℕ → ℕ → List MonitorMinute → List Tally
unfolding tally binned
history_rows step id from upto minutes =
    tally (map (binned step from) (select (in_window id from upto) minutes))

pub record HistoryBucket : Type 0 where
  pub start : ℕ
  pub finish : ℕ
  pub successes : ℕ
  pub failures : ℕ
  pub availability : Option (ℕ × ℕ)

pub record MonitorHistory : Type 0 where
  pub from : ℕ
  pub upto : ℕ
  pub step_seconds : ℕ
  pub version : ℕ
  pub successes : ℕ
  pub failures : ℕ
  pub availability : Option (ℕ × ℕ)
  pub buckets : List HistoryBucket

abbrev bucket : ℕ → ℕ → ℕ → ℕ × ℕ → HistoryBucket
bucket start step upto (s, f) = record {
  start = start;
  finish = if ltb upto (start + step) then upto else start + step;
  successes = s;
  failures = f;
  availability = availability s f;
}

-- The next row is taken when it is that of the bucket.
unfoldable pub take_row : ℕ → List Tally → (ℕ × ℕ) × List Tally
take_row start [] = ((0, 0), [])
take_row start (t ∷ ts) =
    if t.start == start then ((t.successes, t.failures), ts) else ((0, 0), t ∷ ts)

-- The loop over the buckets, with `fuel` rounds at most.
unfoldable pub fill : ℕ → ℕ → ℕ → ℕ → List Tally → List HistoryBucket
unfolding take_row
fill zero step upto start rows = []
fill (suc fuel) step upto start rows =
    let (counted, later) = take_row start rows in
    let rest = fill fuel step upto (start + step) later in
    if ltb start upto then bucket start step upto counted ∷ rest else []

-- A window has no more buckets than steps.
unfoldable pub history_at : ℕ × ℕ → ℕ → ℕ → ℕ → List MonitorMinute → MonitorHistory
unfolding history_rows fill
history_at (duration, step) now version id minutes =
    let from = inward (now - duration) in
    let buckets = fill (duration / step) step now from (history_rows step id from now minutes) in
    let successes = sum_of HistoryBucket.successes buckets in
    let failures = sum_of HistoryBucket.failures buckets in
    record {
      from = from;
      upto = now;
      step_seconds = step / second;
      version = version;
      successes = successes;
      failures = failures;
      availability = availability successes failures;
      buckets = buckets;
    }

abbrev owned_state : ℕ → ℕ → Db → Option MonitorState
owned_state user id db = elim (find Monitor.id id db.monitors) [
  | some m ↦ if m.user_id == user then find MonitorState.monitor_id id db.states else none
  | none ↦ none
]

unfoldable pub check_history : ℕ → ℕ → ℕ → Bytes → Exec MonitorHistory
unfolding history_window history_at
check_history now user id period = do
  window ← lift (history_window period)
  transaction (do
    state ← query (λ db. or_not_found (owned_state user id db))
    minutes ← query (λ db. ok db.minutes)
    pure (history_at window now state.version id minutes))
