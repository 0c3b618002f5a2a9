-- ===== src/Store/Checks/Counting.antt =====
-- The observations that finished checks leave in the minutes, counted.
use uptime.Prelude.{
  ℕ, ◌+◌, ◌≡◌, refl, ◌&&◌, true, false, Option, none, some, List, [], ◌∷◌, arith, find-update,
  find-key, sum_of, ◌==◌, if◌then◌else◌,
}
use uptime.Store.Rows.{Db, Monitor, MonitorState, MonitorMinute, CheckJob, CheckResult}
use uptime.Store.Checks.{
  find_monitor, find_state, update_state, minute_of, count_minute, observe, success_count,
  failure_count,
}
use uptime.Store.Checks.Fence.{settle, settle_rows, settle_state, counted}

abbrev pub weight : ℕ → MonitorMinute → ℕ
weight id m = if m.monitor_id == id then m.successes + m.failures else 0

-- The observations of a monitor that the database holds.
abbrev pub observations : ℕ → Db → ℕ
observations id db = sum_of (weight id) db.minutes

count_minute_total :
    (j id start s f : ℕ) (ms : List MonitorMinute)
    → sum_of (weight j) (count_minute id start s f ms)
      ≡ sum_of (weight j) ms + (if id == j then s + f else 0)
unfolding count_minute
count_minute_total j id start s f [] = ground arith
count_minute_total j id start s f (m ∷ ms) = ground (arith, count_minute_total j id start s f ms)

module _ (clock : ℕ) (job : CheckJob) (result : CheckResult) (db : Db) where
  settle_state_counts :
      (j : ℕ) (s : MonitorState)
      → observations j (settle_state clock job result s db).1
        ≡ observations j db
          + (if (settle_state clock job result s db).0 && (job.monitor_id == j) then 1 else 0)
  unfolding settle_state
  settle_state_counts j s = ground (
    arith,
    count_minute_total j job.monitor_id (minute_of result.started_at) (success_count result)
        (failure_count result) db.minutes,
  )

  settle_rows_counts :
      (j : ℕ) (o : Option Monitor) (p : Option MonitorState)
      → observations j (settle_rows clock job result o p db).1
        ≡ observations j db
          + (if (settle_rows clock job result o p db).0 && (job.monitor_id == j) then 1 else 0)
  unfolding settle_rows
  settle_rows_counts j none p = omega arith
  settle_rows_counts j (some m) none = omega arith
  settle_rows_counts j (some m) (some s) = settle_state_counts j s

-- a job that is settled behind the fence adds exactly one observation to its own monitor when it
-- is saved and otherwise none; the observations of every other monitor stay as they are.
pub settle_counts :
    (clock : ℕ) (job : CheckJob) (result : CheckResult) (db : Db) (j : ℕ)
    → observations j (settle clock job result db).1
      ≡ observations j db
        + (if (settle clock job result db).0 && (job.monitor_id == j) then 1 else 0)
unfolding settle
settle_counts clock job result db j = settle_rows_counts clock job result db j _ _

find_state-update_state :
    (f : MonitorState → MonitorState) (id : ℕ) (db : Db) (s : MonitorState)
    → ((t : MonitorState) → (f t).monitor_id ≡ t.monitor_id)
    → find_state id db ≡ some s
    → find_state id (update_state id f db) ≡ some (f s)
find_state-update_state f id db s keep h =
    let e =
      find-update (λ (t : MonitorState). t.monitor_id) id (λ t. t.monitor_id == id) f keep
        db.states in
    let k = find-key (λ (t : MonitorState). t.monitor_id) id db.states s h in ground (arith, e, k)

-- A job that holds no lease any more settles to nothing.
pub unowned_settles :
    (clock : ℕ) (job : CheckJob) (result : CheckResult) (db : Db) (s : MonitorState)
    → find_state job.monitor_id db ≡ some s
    → s.job_id ≡ none
    → settle clock job result db ≡ (false, db)
unfolding settle
unowned_settles clock job result db s h n = at (find_monitor job.monitor_id db)
  where
    at :
        (o : Option Monitor)
        → settle_rows clock job result o (find_state job.monitor_id db) db ≡ (false, db)
    at none = unfold settle_rows in refl
    at (some m) = rw h (unfold settle_rows settle_state in rw n)

find_state-observe :
    (job : CheckJob) (result : CheckResult) (db : Db) (s : MonitorState)
    → find_state job.monitor_id db ≡ some s
    → find_state job.monitor_id (counted job result db) ≡ some (observe job result s)
find_state-observe job result db s e =
    find_state-update_state (observe job result) job.monitor_id db s (λ t. refl) e

saved_unowned :
    (clock : ℕ) (job : CheckJob) (result : CheckResult) (db : Db) (o : Option Monitor)
    (p : Option MonitorState)
    → find_state job.monitor_id db ≡ p
    → (settle_rows clock job result o p db).0 ≡ true
    → (s : MonitorState) × (find_state job.monitor_id (settle_rows clock job result o p db).1
        ≡ some s)
      × (s.job_id ≡ none)
unfolding settle_rows settle_state
saved_unowned clock job result db none p e h = cc
saved_unowned clock job result db (some m) none e h = cc
saved_unowned clock job result db (some m) (some s) e h =
    (observe job result s, ground (arith, find_state-observe job result db s e), refl)

pub settled_unowned :
    (clock : ℕ) (job : CheckJob) (result : CheckResult) (db : Db)
    → (settle clock job result db).0 ≡ true
    → (s : MonitorState) × (find_state job.monitor_id (settle clock job result db).1 ≡ some s)
      × (s.job_id ≡ none)
unfolding settle
settled_unowned clock job result db h = saved_unowned clock job result db _ _ refl h

-- once a job is saved, settling it again, at any time and with any result, changes nothing and
-- reports that nothing was saved.
pub settle_again :
    (clock later : ℕ) (job : CheckJob) (result again : CheckResult) (db : Db)
    → (settle clock job result db).0 ≡ true
    → settle later job again (settle clock job result db).1
      ≡ (false, (settle clock job result db).1)
settle_again clock later job result again db h =
    let (s, e, n) = settled_unowned clock job result db h in
    unowned_settles later job again (settle clock job result db).1 s e n
