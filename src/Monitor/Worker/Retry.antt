-- ===== src/Monitor/Worker/Retry.antt =====
-- The retries of `execute` account for a check at most once.
use uptime.Prelude.{
  ℕ, zero, suc, ◌+◌, ◌≡◌, ◌≤◌, refl, ap, sum_of, ◌⊎◌, inl, inr, Bool, true, false, none, some,
  arith, ◌==◌, if◌then◌else◌, Bool-cases,
}
use uptime.Store.Rows.{Db, MonitorState, CheckJob, CheckResult}
use uptime.Store.Exec.{Result, ok, err, Fates, World}
use uptime.Store.Exec.Rules.{Commits}
use uptime.Store.Checks.{find_state, finish_check, release_check}
use uptime.Store.Checks.Fence.{settle, Outcome, finish_check-settle}
use uptime.Store.Checks.Counting.{
  observations, weight, settle_counts, unowned_settles, settled_unowned,
}
use uptime.Monitor.Worker.{
  Worker, Surroundings, save_attempts, after_attempt, record_lag, conclude, execute,
}

-- The database counts as many observations of each monitor as `before`.
abbrev Same : Db → Db → Type 0
Same before db = (j : ℕ) → observations j db ≡ observations j before

-- One more for the job's monitor, whose lease is gone.
abbrev Once : CheckJob → Db → Db → Type 0
Once job before db =
    ((j : ℕ) → observations j db ≡ observations j before + (if job.monitor_id == j then 1 else 0))
    × ((s : MonitorState) × (find_state job.monitor_id db ≡ some s) × (s.job_id ≡ none))

abbrev AtMostOnce : CheckJob → Db → Db → Type 0
AtMostOnce job before db = Same before db ⊎ Once job before db

settle-AtMostOnce :
    (clock : ℕ) (job : CheckJob) (result : CheckResult) (before db : Db)
    → AtMostOnce job before db
    → AtMostOnce job before (settle clock job result db).1
settle-AtMostOnce clock job result before db (inl same) =
    elim (Bool-cases (settle clock job result db).0) [
      | inl saved ↦ inr (
        (λ j. ground (arith, settle_counts clock job result db j, same j)),
        settled_unowned clock job result db saved,
      )
      | inr idle ↦ inl (λ j. ground (arith, settle_counts clock job result db j, same j))
    ]
settle-AtMostOnce clock job result before db (inr (once, (s, e, n))) =
    rw (unowned_settles clock job result db s e n) (inr (once, (s, e, n)))

-- One attempt, whatever the database answers.
finish_check-AtMostOnce :
    (clock : ℕ) (job : CheckJob) (result : CheckResult) (fs : Fates) (w : World) (before : Db)
    → AtMostOnce job before w.db
    → AtMostOnce job before (finish_check clock job result fs w).1.db
finish_check-AtMostOnce clock job result fs w before h =
    ended (finish_check clock job result fs w).0 (finish_check clock job result fs w).1.db
      (finish_check-settle clock job result fs w)
  where
    settled : (d : Db) → d ≡ (settle clock job result w.db).1 → AtMostOnce job before d
    settled d e = rw e (settle-AtMostOnce clock job result before w.db h)

    ended :
        (r : Result Bool) (d : Db)
        → Commits (Outcome (settle clock job result w.db)) (λ d. d ≡ w.db) r d
        → AtMostOnce job before d
    ended (ok a) d o = settled d o.1
    ended (err e) d (inl o) = rw o h
    ended (err e) d (inr (a, o)) = settled d o.1

save_attempts-AtMostOnce :
    (n a : ℕ) (env : Surroundings) (job : CheckJob) (result : CheckResult) (fs : Fates) (w : World)
    (k : Worker) (before : Db)
    → AtMostOnce job before w.db
    → AtMostOnce job before (save_attempts n a env job result fs w k).0.db
unfolding save_attempts
save_attempts-AtMostOnce zero a env job result fs w k before h = h
save_attempts-AtMostOnce (suc n) a env job result fs w k before h =
    answered (finish_check (env.clock a) job result fs w).0 (env.stopped a)
      (finish_check (env.clock a) job result fs w).1
      (finish_check-AtMostOnce (env.clock a) job result fs w before h)
      (save_attempts-AtMostOnce n (suc a) env job result fs
        (finish_check (env.clock a) job result fs w).1 k before)
  where
    answered :
        (r : Result Bool) (stopped : Bool) (v : World)
        → AtMostOnce job before v.db
        → (AtMostOnce job before v.db
            → AtMostOnce job before (save_attempts n (suc a) env job result fs v k).0.db)
        → AtMostOnce job before
            (after_attempt r result stopped (save_attempts n (suc a) env job result fs) v k).0.db
    answered (ok saved) stopped v here later = here
    answered (err e) true v here later = here
    answered (err e) false v here later = later here

release_check-minutes :
    (job : CheckJob) (fs : Fates) (w : World) → (release_check job fs w).1.db.minutes ≡ w.db.minutes
unfolding release_check
release_check-minutes job fs w = ground arith

conclude-AtMostOnce :
    (stopping : Bool) (env : Surroundings) (job : CheckJob) (result : CheckResult) (fs : Fates)
    (w : World) (k : Worker)
    → AtMostOnce job w.db (conclude stopping env job result fs w k).0.db
unfolding conclude
conclude-AtMostOnce true env job result fs w k =
    inl (λ j. ap (sum_of (weight j)) (release_check-minutes job fs w))
conclude-AtMostOnce false env job result fs w k =
    save_attempts-AtMostOnce 3 0 env job result fs w k w.db (inl (λ j. refl))

-- whatever statements fail and whatever acknowledgements are lost, executing a claimed job, with
-- its three attempts to save the result, adds at most one observation, and that to the job's own
-- monitor; it takes none away, and the observations of every other monitor stay as they are.
pub execute-observations :
    (begun : ℕ) (stopping : Bool) (env : Surroundings) (job : CheckJob) (result : CheckResult)
    (fs : Fates) (w : World) (k : Worker) (j : ℕ)
    → (observations j w.db ≤ observations j (execute begun stopping env job result fs w k).0.db)
      × (observations j (execute begun stopping env job result fs w k).0.db
          ≤ observations j w.db + (if job.monitor_id == j then 1 else 0))
unfolding execute
execute-observations begun stopping env job result fs w k j =
    counted (conclude-AtMostOnce stopping env job result fs w (record_lag begun job k))
  where
    after : Db
    after = (conclude stopping env job result fs w (record_lag begun job k)).0.db

    counted :
        AtMostOnce job w.db after
        → (observations j w.db ≤ observations j after)
          × (observations j after ≤ observations j w.db + (if job.monitor_id == j then 1 else 0))
    counted (inl same) = ground (arith, same j)
    counted (inr (once, _)) = ground (arith, once j)
