-- ===== src/Monitor/Worker/Tests.antt =====
-- The worker on the sample database.
use uptime.Prelude.{
  [], All, delete, order_by, place, select, ◌+◌, ◌≤◌, ◌≡◌, refl, false, some, if◌then◌else◌, ◌==◌,
  arith,
}
use uptime.Store.Exec.{Fates, fine, lost, start, all_fine}
use uptime.Store.Checks.{prune_check_history, expired_batch, same_minute, is_expired}
use uptime.Store.Checks.Counting.{observations}
use uptime.Monitor.Worker.{Worker, Surroundings, new_worker, execute}
use uptime.Monitor.Worker.Retry.{execute-observations}
use uptime.Monitor.Worker.Pool.{Running, here, next, poll, waiting, claiming, Reach-active}
use uptime.Monitor.Worker.Cleanup.{sweep, calm, resting, sweep_clears}
use uptime.Samples.{sample, job, success}

abbrev worker : Worker
worker = record { concurrency = 4; active = 0; completed = 0; failed = 0; lag_millis = 0 }

-- The commit of the first attempt succeeds, and only its acknowledgement is lost.
abbrev lost_commit : Fates
lost_commit n = if n == 5 then lost else fine

abbrev steady : Surroundings
steady = record { clock = λ n. 4_000; stopped = λ n. false }

execute-observations_example :
    (observations 10 sample
      ≤ observations 10
          (execute 1_500 false steady job success lost_commit (start sample) worker).0.db)
    × (observations 10
          (execute 1_500 false steady job success lost_commit (start sample) worker).0.db
        ≤ observations 10 sample + (if job.monitor_id == 10 then 1 else 0))
execute-observations_example =
    execute-observations 1_500 false steady job success lost_commit (start sample) worker 10

worker_made : new_worker 4 ≡ some worker
unfolding new_worker
worker_made = refl

abbrev begin : Running
begin = record { worker = worker; phase = waiting; world = start sample }

abbrev polled : Running
polled = record begin { phase = claiming 4 }

Reach-active_example : (polled.active ≤ 4) × (1 ≤ 4) × (4 ≤ 4096)
Reach-active_example =
    Reach-active 4 worker (start sample) polled worker_made
      (next {t = begin} here (poll refl (omega arith)))

sweep_clears_example :
    ((sweep (calm 2_592_000_000_000_001) 2 0 all_fine (start sample)).0 ≡ resting)
    × All
        (λ m. is_expired 2_592_000_000_000_001 m ≡ false)
        (sweep (calm 2_592_000_000_000_001) 2 0 all_fine (start sample)).1.db.minutes
sweep_clears_example = sweep_clears 2_592_000_000_000_001 2 0 (start sample) (omega arith)

-- The one minute of the sample has run out, and is gone.
emptied : (sweep (calm 2_592_000_000_000_001) 2 0 all_fine (start sample)).1.db.minutes ≡ []
unfolding sweep prune_check_history expired_batch same_minute delete order_by place select
emptied = refl
