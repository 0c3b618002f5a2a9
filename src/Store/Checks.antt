-- ===== src/Store/Checks.antt =====
-- The checks of backend/internal/store/checks.go: claiming due monitors under a lease, accounting
-- for a finished check behind its fence, releasing a lease, and pruning old minutes. The time of
-- the database is an argument.
pub mod Claims
pub mod Leased
pub mod Fence
pub mod Counting
use uptime.Prelude.{
  ℕ, ◌+◌, ◌-◌, ◌*◌, ◌/◌, Bool, true, false, not, ◌&&◌, ◌||◌, Option, none, some, List, [], ◌∷◌,
  ◌++◌, length, take, map, find, update, select, delete, order_by, place, ltb, leb, ◌==◌,
  if◌then◌else◌,
}
use uptime.Store.Rows.{
  Db, Monitor, MonitorState, MonitorMinute, CheckJob, CheckResult, second, minute, hour,
}
use uptime.Store.Exec.{
  Result, ok, err, Exec, pure, query, write, alone, transaction, or_not_found, ◌>>=◌, ◌>>◌,
}
use uptime.Store.Schedule.{next_check}

-- lease_until IS NULL OR lease_until <= now()
abbrev pub lease_over : ℕ → Option ℕ → Bool
lease_over now none = true
lease_over now (some t) = leb t now

abbrev pub is_due : ℕ → MonitorState → Bool
is_due now s = leb s.next_check_at now && lease_over now s.lease_until

-- ORDER BY next_check_at, monitor_id
abbrev pub sooner : MonitorState → MonitorState → Bool
sooner s t =
    ltb s.next_check_at t.next_check_at
    || ((s.next_check_at == t.next_check_at) && leb s.monitor_id t.monitor_id)

-- The rows that the query picks; `locked` are those that SKIP LOCKED passes over.
unfoldable pub due : ℕ → (ℕ → Bool) → ℕ → List MonitorState → List MonitorState
due now locked limit states =
    take limit (order_by sooner (select (λ s. is_due now s && not (locked s.monitor_id)) states))

unfoldable pub among : ℕ → List MonitorState → Bool
among id [] = false
among id (s ∷ ss) = (s.monitor_id == id) || among id ss

abbrev pub lease_length : ℕ
lease_length = 30 * second

-- `fresh` is gen_random_uuid() for each row.
unfoldable pub lease : ℕ → (ℕ → ℕ) → List MonitorState → List MonitorState → List MonitorState
lease now fresh picked =
    update (λ s. among s.monitor_id picked)
      (λ s. record s {
        job_id = some (fresh s.monitor_id);
        lease_until = some (now + lease_length);
      })

abbrev pub job_of : (ℕ → ℕ) → MonitorState → Monitor → CheckJob
job_of fresh s m = record {
  monitor_id = s.monitor_id;
  url = m.url;
  interval_seconds = m.interval_seconds;
  version = s.version;
  job_id = fresh s.monitor_id;
  scheduled_at = s.next_check_at;
}

join_row : (ℕ → ℕ) → MonitorState → Option Monitor → List CheckJob → List CheckJob
join_row fresh s none rest = rest
join_row fresh s (some m) rest = job_of fresh s m ∷ rest

-- claimed JOIN monitors
unfoldable pub join_monitors : (ℕ → ℕ) → List Monitor → List MonitorState → List CheckJob
unfolding join_row
join_monitors fresh monitors [] = []
join_monitors fresh monitors (s ∷ ss) =
    join_row fresh s (find (λ (m : Monitor). m.id) s.monitor_id monitors)
      (join_monitors fresh monitors ss)

-- The statement of ClaimChecks.
unfoldable pub lease_due : ℕ → (ℕ → Bool) → (ℕ → ℕ) → ℕ → Db → Result (List CheckJob) × Db
lease_due now locked fresh limit db =
    let picked = due now locked limit db.states in
    (
      ok (join_monitors fresh db.monitors picked),
      record db { states = lease now fresh picked db.states },
    )

unfoldable pub claim_checks : ℕ → (ℕ → Bool) → (ℕ → ℕ) → ℕ → Exec (List CheckJob)
unfolding lease_due
claim_checks now locked fresh limit =
    if leb limit 0 then pure [] else transaction (write (lease_due now locked fresh limit))

abbrev pub find_monitor : ℕ → Db → Option Monitor
find_monitor id db = find (λ (m : Monitor). m.id) id db.monitors

abbrev pub find_state : ℕ → Db → Option MonitorState
find_state id db = find (λ (s : MonitorState). s.monitor_id) id db.states

abbrev pub update_state : ℕ → (MonitorState → MonitorState) → Db → Db
update_state id f db = record db { states = update (λ s. s.monitor_id == id) f db.states }

-- job_id = NULL, lease_until = NULL
abbrev pub unlease : MonitorState → MonitorState
unlease s = record s { job_id = none; lease_until = none }

-- time.Truncate(time.Minute)
abbrev pub minute_of : ℕ → ℕ
minute_of t = t / minute * minute

-- INSERT ... ON CONFLICT (monitor_id, minute_start) DO UPDATE
unfoldable pub count_minute : ℕ → ℕ → ℕ → ℕ → List MonitorMinute → List MonitorMinute
count_minute id start success failure [] =
    record { monitor_id = id; minute_start = start; successes = success; failures = failure } ∷ []
count_minute id start success failure (m ∷ ms) =
    let rest = m ∷ count_minute id start success failure ms in
    if (m.monitor_id == id) && (m.minute_start == start)
    then record m { successes = m.successes + success; failures = m.failures + failure } ∷ ms
    else rest

-- The columns that a saved observation sets.
abbrev pub observe : CheckJob → CheckResult → MonitorState → MonitorState
observe job result s = record s {
  job_id = none;
  lease_until = none;
  next_check_at = next_check job.scheduled_at result.finished_at job.interval_seconds;
  last_started_at = some result.started_at;
  last_finished_at = some result.finished_at;
  last_success = some result.success;
  http_status = result.http_status;
  error_kind = result.error_kind;
}

abbrev pub success_count : CheckResult → ℕ
success_count r = if r.success then 1 else 0

abbrev pub failure_count : CheckResult → ℕ
failure_count r = if r.success then 0 else 1

-- state.JobID != nil && *state.JobID == job.JobID
abbrev pub owns : CheckJob → MonitorState → Bool
owns job s = elim s.job_id [ none ↦ false | some j ↦ j == job.job_id ]

-- lease_until > clock_timestamp(); a NULL lease is not after anything
abbrev pub lease_valid : ℕ → MonitorState → Bool
lease_valid clock s = elim s.lease_until [ none ↦ false | some t ↦ ltb clock t ]

save : CheckJob → CheckResult → Exec Bool
save job result = do
  write (λ db. (
    ok tt,
    record db {
      minutes =
          count_minute job.monitor_id (minute_of result.started_at) (success_count result)
            (failure_count result) db.minutes;
    },
  ))
  write (λ db. (ok tt, update_state job.monitor_id (observe job result) db))
  pure true

fenced : ℕ → CheckJob → CheckResult → MonitorState → Exec Bool
unfolding save
fenced clock job result s =
    if owns job s
    then (if s.version == job.version
        then (do
          valid ← query (λ _. ok (lease_valid clock s))
          if valid then save job result else pure false)
        else (do write (λ db. (ok tt, update_state job.monitor_id unlease db)); pure false))
    else pure false

with_monitor : ℕ → CheckJob → CheckResult → Option Monitor → Exec Bool
unfolding fenced
with_monitor clock job result none = pure false
with_monitor clock job result (some m) = do
  s ← query (λ db. or_not_found (find_state job.monitor_id db))
  fenced clock job result s

unfoldable pub finish_check : ℕ → CheckJob → CheckResult → Exec Bool
unfolding with_monitor
finish_check clock job result =
    transaction
      (do m ← query (λ db. ok (find_monitor job.monitor_id db)); with_monitor clock job result m)

unfoldable pub release_check : CheckJob → Exec (Unit {0})
release_check job = alone λ db. (
  ok tt,
  record db {
    states = update (λ s. (s.monitor_id == job.monitor_id) && owns job s) unlease db.states;
  },
)

abbrev pub retention : ℕ
retention = 30 * (24 * hour)

abbrev pub prune_limit : ℕ
prune_limit = 5000

abbrev pub older : MonitorMinute → MonitorMinute → Bool
older a b = leb a.minute_start b.minute_start

abbrev pub is_expired : ℕ → MonitorMinute → Bool
is_expired now m = ltb (m.minute_start + retention) now

unfoldable pub same_minute : MonitorMinute → List MonitorMinute → Bool
same_minute m [] = false
same_minute m (x ∷ xs) =
    ((x.monitor_id == m.monitor_id) && (x.minute_start == m.minute_start)) || same_minute m xs

-- The batch that the inner SELECT picks.
unfoldable pub expired_batch : ℕ → (MonitorMinute → Bool) → List MonitorMinute → List MonitorMinute
expired_batch now locked minutes =
    take prune_limit (order_by older (select (λ m. is_expired now m && not (locked m)) minutes))

unfoldable pub prune_check_history : ℕ → (MonitorMinute → Bool) → Exec ℕ
prune_check_history now locked = alone λ db.
    let batch = expired_batch now locked db.minutes in
    let kept = delete (λ m. same_minute m batch) db.minutes in
    (ok (length db.minutes - length kept), record db { minutes = kept })
