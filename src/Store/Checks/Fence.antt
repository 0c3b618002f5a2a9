-- ===== src/Store/Checks/Fence.antt =====
-- What `FinishCheck` of backend/internal/store/checks.go does to the database, as one step behind
-- the fence of job, version and lease.
use uptime.Prelude.{
  ℕ, suc, ◌≡◌, refl, ◌&&◌, Bool, true, false, Option, none, some, arith, ◌==◌, if◌then◌else◌,
}
use uptime.Store.Rows.{Db, Monitor, MonitorState, CheckJob, CheckResult}
use uptime.Store.Exec.{ok, or_not_found, ok-injective, or_not_found-eq_ok, World, Fates}
use uptime.Store.Exec.Rules.{Ends, Commits, query-Ends, transaction-Commits}
use uptime.Store.Checks.{
  find_monitor, find_state, update_state, unlease, minute_of, count_minute, observe, success_count,
  failure_count, owns, lease_valid, finish_check, with_monitor, fenced, save,
}

-- The job still holds the lease of a monitor whose configuration has not changed.
abbrev pub passes : ℕ → CheckJob → MonitorState → Bool
passes clock job s = owns job s && (s.version == job.version) && lease_valid clock s

-- The database with the observation counted and the schedule moved on.
abbrev pub counted : CheckJob → CheckResult → Db → Db
counted job result db = update_state job.monitor_id (observe job result) (record db {
  minutes =
      count_minute job.monitor_id (minute_of result.started_at) (success_count result)
        (failure_count result) db.minutes;
})

unfoldable pub settle_state : ℕ → CheckJob → CheckResult → MonitorState → Db → Bool × Db
settle_state clock job result s db =
    if passes clock job s
    then (true, counted job result db)
    else if owns job s && (if s.version == job.version then false else true)
    then (false, update_state job.monitor_id unlease db)
    else (false, db)

unfoldable pub settle_rows :
    ℕ → CheckJob → CheckResult → Option Monitor → Option MonitorState → Db → Bool × Db
unfolding settle_state
settle_rows clock job result none s db = (false, db)
settle_rows clock job result (some m) none db = (false, db)
settle_rows clock job result (some m) (some s) db = settle_state clock job result s db

-- The specification of `finish_check` where no statement fails.
unfoldable pub settle : ℕ → CheckJob → CheckResult → Db → Bool × Db
unfolding settle_rows
settle clock job result db =
    settle_rows clock job result (find_monitor job.monitor_id db) (find_state job.monitor_id db) db

-- The outcome `target` with its database, and the database that a rollback restores.
abbrev pub Outcome : Bool × Db → Bool → Db → Type 0
Outcome target saved after = (saved ≡ target.0) × (after ≡ target.1)

module _ (clock : ℕ) (job : CheckJob) (result : CheckResult) (fs : Fates) (before : Db) where
  save-Ends :
      (v : World)
      → v.db ≡ before
      → v.base ≡ before
      → Ends
          (Outcome (true, counted job result before))
          (λ d. d ≡ before)
          (save job result fs v).0
          (save job result fs v).1
  unfolding save
  save-Ends v e b = ground arith

  fenced-Ends :
      (s : MonitorState) (v : World)
      → v.db ≡ before
      → v.base ≡ before
      → Ends
          (Outcome (settle_state clock job result s before))
          (λ d. d ≡ before)
          (fenced clock job result s fs v).0
          (fenced clock job result s fs v).1
  unfolding fenced settle_state
  fenced-Ends s v e b = ground (arith, save-Ends (record v { tick = suc v.tick }) e b)

  with_monitor-Ends :
      (o : Option Monitor) (t : ℕ)
      → Ends
          (Outcome (settle_rows clock job result o (find_state job.monitor_id before) before))
          (λ d. d ≡ before)
          (with_monitor clock job result o fs (record { db = before; base = before; tick = t })).0
          (with_monitor clock job result o fs (record { db = before; base = before; tick = t })).1
  unfolding with_monitor settle_rows
  with_monitor-Ends none t = ((refl, refl), refl)
  with_monitor-Ends (some x) t =
      query-Ends
        (Outcome (settle_rows clock job result (some x) (find_state job.monitor_id before) before))
        (λ d. d ≡ before) (fenced clock job result) fs
        (record { db = before; base = before; tick = t }) refl
        (λ db. or_not_found (find_state job.monitor_id db))
        (λ s found.
          rw (or_not_found-eq_ok _ s found)
            (fenced-Ends s (record { db = before; base = before; tick = suc t }) refl refl))

-- whatever statements fail, FinishCheck either returns the outcome of the specification and
-- leaves its database, or returns an error and leaves the database as it was, or as the
-- specification leaves it where only the acknowledgement of the commit was lost: never a part of
-- the changes.
pub finish_check-settle :
    (clock : ℕ) (job : CheckJob) (result : CheckResult) (fs : Fates) (w : World)
    → Commits
        (Outcome (settle clock job result w.db))
        (λ d. d ≡ w.db)
        (finish_check clock job result fs w).0
        (finish_check clock job result fs w).1.db
unfolding finish_check settle
finish_check-settle clock job result fs w =
    transaction-Commits (Outcome (settle clock job result w.db)) (λ d. d ≡ w.db) _ fs w
      (query-Ends (Outcome (settle clock job result w.db)) (λ d. d ≡ w.db)
        (with_monitor clock job result) fs (record w { base = w.db }) refl
        (λ db. ok (find_monitor job.monitor_id db))
        (λ o found.
          rw (ok-injective _ o found) (with_monitor-Ends clock job result fs w.db o (suc w.tick))))
