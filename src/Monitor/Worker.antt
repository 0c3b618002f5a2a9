-- ===== src/Monitor/Worker.antt =====
-- backend/internal/monitor/worker.go. What the network, the clocks and the scheduler of goroutines
-- do is an argument: the outcome of a request, the times that are read, the contexts that end.
pub mod Retry
pub mod Pool
pub mod Cleanup
mod Tests
use uptime.Prelude.{
  ℕ, zero, suc, ◌+◌, ◌-◌, ◌/◌, max, Bool, true, false, ◌||◌, Option, none, some, List, length,
  Bytes, codes, ltb, leb, ◌==◌, if◌then◌else◌,
}
use uptime.Store.Rows.{CheckJob, CheckResult}
use uptime.Store.Exec.{Result, ok, err, Fates, World}
use uptime.Store.Checks.{finish_check, release_check, claim_checks}

-- The counters of a Worker; `concurrency` never changes.
pub record Worker : Type 0 where
  pub concurrency : ℕ
  pub active : ℕ
  pub completed : ℕ
  pub failed : ℕ
  pub lag_millis : ℕ

unfoldable pub new_worker : ℕ → Option Worker
new_worker concurrency =
    if ltb concurrency 1 || ltb 4096 concurrency
    then none
    else some (record {
      concurrency = concurrency;
      active = 0;
      completed = 0;
      failed = 0;
      lag_millis = 0;
    })

-- What errors.Is and errors.As find in the error of a request.
pub record RequestError : Type 0 where
  pub private_address : Bool
  pub deadline_exceeded : Bool
  pub network_timeout : Bool
  pub dns : Bool
  pub certificate : Bool
  pub tls_record : Bool
  pub unknown_authority : Bool

unfoldable pub check_error : RequestError → Bytes
check_error e =
    if e.private_address
    then codes "blocked_address"
    else if e.deadline_exceeded
    then codes "timeout"
    else if e.network_timeout
    then codes "timeout"
    else if e.dns
    then codes "dns"
    else if e.certificate || (e.tls_record || e.unknown_authority)
    then codes "tls"
    else codes "connection"

-- What the HTTP client does with a request: no request can be made of the URL, it answers with a
-- status, or it fails.
pub data Reply : Type 0 where
  no_request : Reply
  answered : ℕ → Reply
  broken : RequestError → Reply

-- A check of `job` from `started` to `finished`; `valid` is validURL of the job's URL.
unfoldable pub check : ℕ → ℕ → Bool → Reply → CheckResult
unfolding check_error
check started finished valid no_request = record {
  started_at = started;
  finished_at = finished;
  http_status = none;
  error_kind = codes "invalid_url";
  success = false;
}
check started finished valid (answered status) =
    if valid
    then record {
      started_at = started;
      finished_at = finished;
      http_status = some status;
      error_kind = if status == 200 then codes "" else codes "http_status";
      success = status == 200;
    }
    else record {
      started_at = started;
      finished_at = finished;
      http_status = none;
      error_kind = codes "invalid_url";
      success = false;
    }
check started finished valid (broken e) = record {
  started_at = started;
  finished_at = finished;
  http_status = none;
  error_kind = if valid then check_error e else codes "invalid_url";
  success = false;
}

abbrev pub millisecond : ℕ
millisecond = 1_000_000

-- The compare-and-swap loop leaves the larger of the two lags.
unfoldable pub record_lag : ℕ → CheckJob → Worker → Worker
record_lag now job w = record w {
  lag_millis = max w.lag_millis ((now - job.scheduled_at) / millisecond);
}

unfoldable pub count_saved : CheckResult → Bool → Worker → Worker
count_saved result false w = w
count_saved result true w = record w {
  completed = w.completed + 1;
  failed = if result.success then w.failed else w.failed + 1;
}

-- What surrounds the saving of one result: the clock of the database at each attempt, and whether
-- the worker is told to stop during the wait after it.
pub record Surroundings : Type 0 where
  pub clock : ℕ → ℕ
  pub stopped : ℕ → Bool

-- An answer ends the loop; after an error it waits, and goes on unless it is stopped.
after_attempt :
    Result Bool
    → CheckResult
    → Bool
    → (World → Worker → World × Worker)
    → World
    → Worker
    → World × Worker
after_attempt (ok saved) result stopped retry w k = (w, count_saved result saved k)
after_attempt (err e) result stopped retry w k = if stopped then (w, k) else retry w k

-- The loop over attempts: those that are left, and the number of the next.
unfoldable pub save_attempts :
    ℕ → ℕ → Surroundings → CheckJob → CheckResult → Fates → World → Worker → World × Worker
unfolding after_attempt
save_attempts zero a env job result fs w k = (w, k)
save_attempts (suc n) a env job result fs w k =
    let (r, w') = finish_check (env.clock a) job result fs w in
    after_attempt r result (env.stopped a) (save_attempts n (suc a) env job result fs) w' k

abbrev leave : World × Worker → World × Worker
leave (w, k) = (w, record k { active = k.active - 1 })

-- What `execute` does with the result of the check: a worker that is stopping gives the lease back.
unfoldable pub conclude :
    Bool → Surroundings → CheckJob → CheckResult → Fates → World → Worker → World × Worker
conclude stopping env job result fs w k =
    if stopping then ((release_check job fs w).1, k) else save_attempts 3 0 env job result fs w k

-- A check that is claimed and runs: `begun` is the time at its start, before the request.
unfoldable pub execute :
    ℕ → Bool → Surroundings → CheckJob → CheckResult → Fates → World → Worker → World × Worker
unfolding record_lag conclude
execute begun stopping env job result fs w k =
    leave (conclude stopping env job result fs w (record_lag begun job k))
