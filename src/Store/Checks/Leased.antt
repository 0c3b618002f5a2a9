-- ===== src/Store/Checks/Leased.antt =====
-- What a claim of checks does to the database, read from the documentation of ClaimChecks in
-- backend/internal/store/checks.go.
use uptime.Prelude.{
  ℕ, ◌+◌, ◌*◌, ◌≤◌, ◌<◌, ◌≡◌, refl, ◌⊎◌, inl, inr, ◌&&◌, ◌==◌, not, Bool, true, false, none, some,
  List, [], ◌∷◌, arith, length, All, All-mono, All-In, In, In-select, order_by-In, order_by-Ordered,
  take-Ordered, order_by, select, update, Bool-cases, Option-cases,
}
use uptime.Store.Rows.{Db, Monitor, MonitorState, CheckJob}
use uptime.Store.Exec.{Fates, World, Result, ok, err}
use uptime.Store.Exec.Rules.{Commits}
use uptime.Store.Checks.{
  is_due, sooner, due, among, lease, join_monitors, join_row, claim_checks, find_monitor,
}
use uptime.Store.Checks.Claims.{
  Free, due-All, length-due, claim, Claimed, claim_checks-claim, join_monitors-All,
  length-join_monitors,
}

-- A row that nobody holds: due, under no lease that still runs, and not locked.
abbrev pub Unheld : ℕ → (ℕ → Bool) → MonitorState → Type 0
Unheld now locked s =
    (s.next_check_at ≤ now)
    × ((s.lease_until ≡ none) ⊎ ((t : ℕ) × (s.lease_until ≡ some t) × (t ≤ now)))
    × (locked s.monitor_id ≡ false)

abbrev pub NoLater : MonitorState → MonitorState → Type 0
NoLater s t =
    (s.next_check_at < t.next_check_at)
    ⊎ ((s.next_check_at ≡ t.next_check_at) × (s.monitor_id ≤ t.monitor_id))

-- The row of a picked monitor gets a job and a lease of 30 seconds; any other is as before.
abbrev pub LeaseOf : ℕ → (ℕ → ℕ) → List MonitorState → MonitorState → MonitorState → Type 0
LeaseOf now fresh picked s after =
    (((t : MonitorState) × In t picked × (t.monitor_id ≡ s.monitor_id))
      × (after ≡ record s {
        job_id = some (fresh s.monitor_id);
        lease_until = some (now + 30 * 1_000_000_000);
      }))
    ⊎ (All (λ t. ¬ (t.monitor_id ≡ s.monitor_id)) picked × (after ≡ s))

-- Rows before and after, one by one.
abbrev pub RowByRow :
    (MonitorState → MonitorState → Type 0) → List MonitorState → List MonitorState → Type 0
RowByRow R [] [] = Unit {0}
RowByRow R [] (y ∷ ys) = ⊥
RowByRow R (x ∷ xs) [] = ⊥
RowByRow R (x ∷ xs) (y ∷ ys) = R x y × RowByRow R xs ys

-- The job of a row, with the configuration of its monitor.
abbrev pub job : (ℕ → ℕ) → MonitorState → Monitor → CheckJob
job fresh s m = record {
  monitor_id = s.monitor_id;
  url = m.url;
  interval_seconds = m.interval_seconds;
  version = s.version;
  job_id = fresh s.monitor_id;
  scheduled_at = s.next_check_at;
}

pub record Leased (now : ℕ) (locked : ℕ → Bool) (fresh : ℕ → ℕ) (limit : ℕ) (db : Db)
    (jobs : List CheckJob) (after : Db) : Type 0 where
  pub picked : List MonitorState
  pub few : length picked ≤ limit
  pub unheld : All (λ s. In s db.states × Unheld now locked s) picked
  pub earliest :
      (s : MonitorState)
      → In s db.states
      → Unheld now locked s
      → In s picked ⊎ ((length picked ≡ limit) × All (λ t. NoLater t s) picked)
  pub leases : RowByRow (LeaseOf now fresh picked) db.states after.states
  pub others : after ≡ record db { states = after.states }
  pub one_each : length jobs ≤ length picked
  pub jobs_made :
      All
        (λ j.
          (s : MonitorState) × (m : Monitor) × In s picked
          × (find_monitor s.monitor_id db ≡ some m)
          × (j ≡ job fresh s m))
        jobs
  pub all_made :
      (s : MonitorState) (m : Monitor)
      → In s picked
      → find_monitor s.monitor_id db ≡ some m
      → In (job fresh s m) jobs

Free-Unheld :
    (now : ℕ) (locked : ℕ → Bool) (s : MonitorState) → Free now locked s → Unheld now locked s
Free-Unheld now locked s h = elim (Option-cases s.lease_until) [
  | inl n ↦ (ground (arith, h), inl n, h.1)
  | inr (t, e) ↦ (ground (arith, h), inr (t, e, over t e), h.1)
]
  where
    over : (t : ℕ) → s.lease_until ≡ some t → t ≤ now
    over t e = let f = (rw e at h) in ground (arith, f)

Unheld-picks :
    (now : ℕ) (locked : ℕ → Bool) (s : MonitorState)
    → Unheld now locked s
    → (is_due now s && not (locked s.monitor_id)) ≡ true
Unheld-picks now locked s (early, inl n, free) = rw (n, free) (ground (arith, early))
Unheld-picks now locked s (early, inr (t, e, over), free) =
    rw (e, free) (ground (arith, early, over))

sooner_total : (s t : MonitorState) → sooner s t ≡ false → sooner t s ≡ true
sooner_total s t h = ground arith

sooner_trans : (s t u : MonitorState) → sooner s t ≡ true → sooner t u ≡ true → sooner s u ≡ true
sooner_trans s t u h k = ground arith

sooner-NoLater : (s t : MonitorState) → sooner s t ≡ true → NoLater s t
sooner-NoLater s t h = ground arith

due-earliest :
    (now : ℕ) (locked : ℕ → Bool) (limit : ℕ) (states : List MonitorState) (s : MonitorState)
    → In s states
    → Unheld now locked s
    → In s (due now locked limit states)
      ⊎ ((length (due now locked limit states) ≡ limit)
          × All (λ t. NoLater t s) (due now locked limit states))
unfolding due
due-earliest now locked limit states s m h =
    let test = (λ (s : MonitorState). is_due now s && not (locked s.monitor_id)) in
    let held = select test states in
    elim (take-Ordered sooner limit (order_by sooner held) s
      (order_by-Ordered sooner sooner_total sooner_trans held)
      (order_by-In sooner held s (In-select test states s m (Unheld-picks now locked s h)))) [
        | inl kept ↦ inl kept
        | inr (full, all) ↦
            inr (full, All-mono _ (λ t. NoLater t s) (λ t e. sooner-NoLater t s e) _ all)
      ]

among-cases :
    (id : ℕ) (picked : List MonitorState)
    → ((among id picked ≡ true) × ((t : MonitorState) × In t picked × (t.monitor_id ≡ id)))
      ⊎ ((among id picked ≡ false) × All (λ t. ¬ (t.monitor_id ≡ id)) picked)
unfolding among
among-cases id [] = inr (refl, tt)
among-cases id (x ∷ xs) = elim (Bool-cases (x.monitor_id == id)) [
  | inl e ↦ inl (rw e refl, (x, inl refl, ground (arith, e)))
  | inr e ↦ elim (among-cases id xs) [
    | inl (hit, (t, m, same)) ↦ inl (rw (e, hit) refl, (t, inr m, same))
    | inr (miss, none_of) ↦ inr (rw (e, miss) refl, ((λ q. ground (arith, e, q)), none_of))
  ]
]

lease-RowByRow :
    (now : ℕ) (fresh : ℕ → ℕ) (picked states : List MonitorState)
    → RowByRow (LeaseOf now fresh picked) states (lease now fresh picked states)
unfolding lease update
lease-RowByRow now fresh picked [] = tt
lease-RowByRow now fresh picked (s ∷ ss) = elim (among-cases s.monitor_id picked) [
  | inl (hit, t) ↦ rw hit (inl (t, refl), lease-RowByRow now fresh picked ss)
  | inr (miss, none_of) ↦ rw miss (inr (none_of, refl), lease-RowByRow now fresh picked ss)
]

In-join_monitors :
    (fresh : ℕ → ℕ) (db : Db) (ss : List MonitorState) (s : MonitorState) (m : Monitor)
    → In s ss
    → find_monitor s.monitor_id db ≡ some m
    → In (job fresh s m) (join_monitors fresh db.monitors ss)
unfolding join_monitors join_row
In-join_monitors fresh db [] s m h e = absurd h
In-join_monitors fresh db (x ∷ xs) s m (inl q) e = rw (← q, e) (inl refl)
In-join_monitors fresh db (x ∷ xs) s m (inr q) e =
    elim (Option-cases (find_monitor x.monitor_id db)) [
      | inl n ↦ rw n (In-join_monitors fresh db xs s m q e)
      | inr (n, f) ↦ rw f (inr (In-join_monitors fresh db xs s m q e))
    ]

claim-Leased :
    (now : ℕ) (locked : ℕ → Bool) (fresh : ℕ → ℕ) (limit : ℕ) (db : Db) (jobs : List CheckJob)
    (after : Db)
    → Claimed (claim now locked fresh limit db) jobs after
    → Leased now locked fresh limit db jobs after
unfolding claim
claim-Leased now locked fresh limit db jobs after (ej, ea) =
    rw (ej, ea)
      (record {
        picked = picked;
        few = length-due now locked limit db.states;
        unheld =
            All-mono _ (λ s. In s db.states × Unheld now locked s)
              (λ s f. (f.0, Free-Unheld now locked s f.1)) _
              (due-All (λ s. In s db.states) now locked limit db.states
                (All-In _ db.states (λ s m. m)));
        earliest = due-earliest now locked limit db.states;
        leases = lease-RowByRow now fresh picked db.states;
        others = refl;
        one_each = length-join_monitors fresh db.monitors picked;
        jobs_made =
            join_monitors-All fresh db (λ s. In s picked) _ (λ s m p e. (s, m, p, e, refl)) picked
              (All-In _ picked (λ s m. m));
        all_made = In-join_monitors fresh db picked;
      })
  where
    picked : List MonitorState
    picked = due now locked limit db.states

-- whatever statements fail, ClaimChecks either returns jobs and leases, or returns an error from
-- an unchanged database, or from one in which the leases are held and only the acknowledgement of
-- the commit was lost. It picks at most `limit` rows, each due, under no lease that still runs
-- and not locked elsewhere; such a row is left out only where `limit` rows are picked, all of
-- them at or before it by next_check_at and then by monitor. The rows of picked monitors get a
-- fresh job and a lease that ends 30 seconds later; every other row and every other table is as
-- before. The jobs are those of the picked rows that have a monitor, at most one for each, with
-- the URL and the interval of the monitor and the version, the fresh job and the scheduled time
-- of the row.
pub claim_checks-Leased :
    (now : ℕ) (locked : ℕ → Bool) (fresh : ℕ → ℕ) (limit : ℕ) (fs : Fates) (w : World)
    → Commits
        (Leased now locked fresh limit w.db)
        (λ d. d ≡ w.db)
        (claim_checks now locked fresh limit fs w).0
        (claim_checks now locked fresh limit fs w).1.db
claim_checks-Leased now locked fresh limit fs w =
    weaken (claim_checks now locked fresh limit fs w).0
      (claim_checks now locked fresh limit fs w).1.db
      (claim_checks-claim now locked fresh limit fs w)
  where
    weaken :
        (r : Result (List CheckJob)) (db : Db)
        → Commits (Claimed (claim now locked fresh limit w.db)) (λ d. d ≡ w.db) r db
        → Commits (Leased now locked fresh limit w.db) (λ d. d ≡ w.db) r db
    weaken (ok jobs) db h = claim-Leased now locked fresh limit w.db jobs db h
    weaken (err e) db (inl same) = inl same
    weaken (err e) db (inr (jobs, h)) =
        inr (jobs, claim-Leased now locked fresh limit w.db jobs db h)
