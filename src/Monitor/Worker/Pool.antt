-- ===== src/Monitor/Worker/Pool.antt =====
-- The polling loop of `Run` beside the goroutines it starts: how many checks run at once.
use uptime.Prelude.{ℕ, ◌+◌, ◌-◌, ◌≤◌, ◌<◌, ◌≡◌, refl, ◌∙◌, Bool, List, arith, length, some}
use uptime.Store.Rows.{Db, CheckJob}
use uptime.Store.Exec.{Result, ok, err, World, Fates}
use uptime.Store.Exec.Rules.{Commits}
use uptime.Store.Checks.{claim_checks}
use uptime.Store.Checks.Claims.{claim, Claimed, claim-All, claim_checks-claim}
use uptime.Monitor.Worker.{Worker, new_worker}

-- The loop either waits for its next turn, or has read its capacity and asks for that many jobs.
pub data Phase : Type 0 where
  waiting : Phase
  claiming : ℕ → Phase

pub record Running : Type 0 where
  pub worker : Worker
  pub open worker use *
  pub phase : Phase
  pub world : World

-- The jobs that a turn starts: none after an error.
abbrev pub started : Result (List CheckJob) → ℕ
started (ok jobs) = length jobs
started (err e) = 0

-- What happens next: the loop reads its capacity, the claim returns and its jobs start, a check
-- ends in its goroutine, the minute's summary resets the counters, or the database changes.
pub data Step (s : Running) : Running → Type 0 where
  poll :
      s.phase ≡ waiting
      → s.active < s.concurrency
      → Step s (record s { phase = claiming (s.concurrency - s.active) })
  start :
      (capacity now : ℕ) (locked : ℕ → Bool) (fresh : ℕ → ℕ) (fs : Fates)
      → s.phase ≡ claiming capacity
      → Step s (record s {
        worker = record s.worker {
          active = s.active + started (claim_checks now locked fresh capacity fs s.world).0;
        };
        phase = waiting;
        world = (claim_checks now locked fresh capacity fs s.world).1;
      })
  finish :
      (completed failed lag : ℕ) (after : World)
      → 0 < s.active
      → Step s (record s {
        worker = record s.worker {
          active = s.active - 1;
          completed = completed;
          failed = failed;
          lag_millis = lag;
        };
        world = after;
      })
  summary :
      Step s (record s { worker = record s.worker { completed = 0; failed = 0; lag_millis = 0 } })
  elsewhere : (after : World) → Step s (record s { world = after })

pub data Reach (s : Running) : Running → Type 0 where
  here : Reach s s
  next : {t u : Running} → Reach s t → Step t u → Reach s u

-- The capacity that a claim asks for is still free when it returns.
abbrev pub reserved : Phase → ℕ
reserved waiting = 0
reserved (claiming capacity) = capacity

abbrev IsBounded : Running → Type 0
IsBounded s = s.active + reserved s.phase ≤ s.concurrency

started-le :
    (now : ℕ) (locked : ℕ → Bool) (fresh : ℕ → ℕ) (limit : ℕ) (fs : Fates) (w : World)
    → started (claim_checks now locked fresh limit fs w).0 ≤ limit
started-le now locked fresh limit fs w =
    bound (claim_checks now locked fresh limit fs w).0
      (claim_checks now locked fresh limit fs w).1.db
      (claim_checks-claim now locked fresh limit fs w)
  where
    bound :
        (r : Result (List CheckJob)) (d : Db)
        → Commits (Claimed (claim now locked fresh limit w.db)) (λ d. d ≡ w.db) r d
        → started r ≤ limit
    bound (ok jobs) d c = rw c.0 (claim-All now locked fresh limit w.db).0
    bound (err e) d c = omega arith

Step-IsBounded : {s t : Running} → Step s t → IsBounded s → IsBounded t
Step-IsBounded {s = s} (poll e h) v = omega arith
Step-IsBounded {s = s} (start capacity now locked fresh fs e) v =
    let v' : s.active + reserved (claiming capacity) ≤ s.concurrency = rw e at v in
    omega (arith, started-le now locked fresh capacity fs s.world)
Step-IsBounded {s = s} (finish completed failed lag after h) v = omega arith
Step-IsBounded summary v = v
Step-IsBounded (elsewhere after) v = v

Reach-IsBounded : {s t : Running} → Reach s t → IsBounded s → IsBounded t
Reach-IsBounded here v = v
Reach-IsBounded (next r st) v = Step-IsBounded st (Reach-IsBounded r v)

Step-concurrency : {s t : Running} → Step s t → t.concurrency ≡ s.concurrency
Step-concurrency (poll e h) = refl
Step-concurrency (start capacity now locked fresh fs e) = refl
Step-concurrency (finish completed failed lag after h) = refl
Step-concurrency summary = refl
Step-concurrency (elsewhere after) = refl

Reach-concurrency : {s t : Running} → Reach s t → t.concurrency ≡ s.concurrency
Reach-concurrency here = refl
Reach-concurrency (next r st) = Step-concurrency st ∙ Reach-concurrency r

-- however polls, claims and the ends of checks interleave, and whatever the database answers, a
-- worker that starts never runs more checks at once than the concurrency that it was made with,
-- which lies between 1 and 4096.
pub Reach-active :
    (n : ℕ) (k : Worker) (w : World) (s : Running)
    → new_worker n ≡ some k
    → Reach (record { worker = k; phase = waiting; world = w }) s
    → (s.active ≤ n) × (1 ≤ n) × (n ≤ 4096)
unfolding new_worker
Reach-active n k w s made r =
    let b = Reach-IsBounded r (ground arith) in
    let c = Reach-concurrency r in (ground (arith, b, c), ground arith, ground arith)
