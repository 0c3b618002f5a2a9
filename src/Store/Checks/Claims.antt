-- ===== src/Store/Checks/Claims.antt =====
-- What a claim of checks picks, and for how long nobody else can pick the same.
use uptime.Prelude.{
  ℕ, zero, suc, ◌+◌, ◌≤◌, ◌<◌, ◌≡◌, ◌≢◌, refl, ◌⊎◌, inl, inr, ◌&&◌, not, Bool, true, false, Option,
  none, some, List, [], ◌∷◌, arith, length, length-take-le, All, All-take, All-mono, All-In, In,
  select-All, order_by-All, order_by, select, update-All, update_never, leb,
}
use uptime.Store.Rows.{Db, Monitor, MonitorState, CheckJob}
use uptime.Store.Exec.{World, Fates, write}
use uptime.Store.Exec.Rules.{Ends, Commits, transaction-Commits}
use uptime.Store.Checks.{
  is_due, sooner, due, among, lease_length, lease, job_of, join_row, join_monitors, lease_due,
  claim_checks, find_monitor,
}

-- A row that a claim may pick.
abbrev pub Free : ℕ → (ℕ → Bool) → MonitorState → Type 0
Free now locked s = (is_due now s ≡ true) × (locked s.monitor_id ≡ false)

abbrev candidates : ℕ → (ℕ → Bool) → List MonitorState → List MonitorState
candidates now locked states =
    order_by sooner (select (λ s. is_due now s && not (locked s.monitor_id)) states)

pub due-All {κ} :
    (P : MonitorState → Type κ) (now : ℕ) (locked : ℕ → Bool) (limit : ℕ)
    (states : List MonitorState)
    → All P states
    → All (λ s. P s × Free now locked s) (due now locked limit states)
unfolding due
due-All P now locked limit states h = All-take _ limit (candidates now locked states) (
    order_by-All sooner _ _ (
      All-mono (λ s. P s × ((is_due now s && not (locked s.monitor_id)) ≡ true))
        (λ s. P s × Free now locked s) (λ s f. (f.0, free s f.1)) _ (select-All _ P states h)))
  where
    free :
        (s : MonitorState) → (is_due now s && not (locked s.monitor_id)) ≡ true → Free now locked s
    free s e = ground arith

pub length-due :
    (now : ℕ) (locked : ℕ → Bool) (limit : ℕ) (states : List MonitorState)
    → length (due now locked limit states) ≤ limit
unfolding due
length-due now locked limit states = length-take-le limit (candidates now locked states)

among-In : (s : MonitorState) (ss : List MonitorState) → In s ss → among s.monitor_id ss ≡ true
unfolding among
among-In s [] m = absurd m
among-In s (x ∷ ss) (inl e) = ground arith
among-In s (x ∷ ss) (inr m) = ground (arith, among-In s ss m)

-- The rows leased by a claim are not due before their lease ends.
leased_not_due :
    (now later : ℕ) (fresh : ℕ → ℕ) (picked states : List MonitorState)
    → later < now + lease_length
    → All
        (λ s. (among s.monitor_id picked ≡ false) ⊎ (is_due later s ≡ false))
        (lease now fresh picked states)
unfolding lease
leased_not_due now later fresh picked states h =
    update-All (λ _. Unit {0}) _ _ _ (λ s _ e. inr (ground arith)) (λ s _ e. inl e) states
      (All-In _ states (λ _ _. tt))

-- The specification of `claim_checks` where no statement fails.
unfoldable pub claim : ℕ → (ℕ → Bool) → (ℕ → ℕ) → ℕ → Db → List CheckJob × Db
claim now locked fresh limit db =
    let picked = due now locked limit db.states in
    (
      join_monitors fresh db.monitors picked,
      record db { states = lease now fresh picked db.states },
    )

abbrev pub Claimed : List CheckJob × Db → List CheckJob → Db → Type 0
Claimed target jobs after = (jobs ≡ target.0) × (after ≡ target.1)

lease_none :
    (now : ℕ) (fresh : ℕ → ℕ) (states : List MonitorState) → lease now fresh [] states ≡ states
unfolding lease among
lease_none now fresh states = update_never _ _ (λ s. refl) states

claim_zero :
    (now : ℕ) (locked : ℕ → Bool) (fresh : ℕ → ℕ) (db : Db) → claim now locked fresh 0 db ≡ ([], db)
unfolding claim due join_monitors
claim_zero now locked fresh db = rw lease_none refl

lease_due-Ends :
    (now : ℕ) (locked : ℕ → Bool) (fresh : ℕ → ℕ) (limit : ℕ) (fs : Fates) (w : World)
    → Ends
        (Claimed (claim now locked fresh limit w.db))
        (λ d. d ≡ w.db)
        (write (lease_due now locked fresh limit) fs (record w { base = w.db })).0
        (write (lease_due now locked fresh limit) fs (record w { base = w.db })).1
unfolding lease_due claim
lease_due-Ends now locked fresh limit fs w = ground arith

pub claim_checks-claim :
    (now : ℕ) (locked : ℕ → Bool) (fresh : ℕ → ℕ) (limit : ℕ) (fs : Fates) (w : World)
    → Commits
        (Claimed (claim now locked fresh limit w.db))
        (λ d. d ≡ w.db)
        (claim_checks now locked fresh limit fs w).0
        (claim_checks now locked fresh limit fs w).1.db
unfolding claim_checks
claim_checks-claim now locked fresh zero fs w = rw claim_zero (refl, refl)
claim_checks-claim now locked fresh (suc n) fs w =
    let more : leb (suc n) 0 ≡ false = ground arith in
    rw (more, claim_checks)
      (transaction-Commits (Claimed (claim now locked fresh (suc n) w.db)) (λ d. d ≡ w.db)
        (write (lease_due now locked fresh (suc n))) fs w
        (lease_due-Ends now locked fresh (suc n) fs w))

-- A job was made for the row and the monitor of its ID.
abbrev pub JobFor : ℕ → (ℕ → Bool) → (ℕ → ℕ) → Db → CheckJob → Type 0
JobFor now locked fresh db j =
    (s : MonitorState) × (m : Monitor) × In s db.states
    × Free now locked s
    × (find_monitor s.monitor_id db ≡ some m)
    × (j ≡ job_of fresh s m)

pub join_monitors-All :
    (fresh : ℕ → ℕ) (db : Db) (P : MonitorState → Type 0) (Q : CheckJob → Type 0)
    → ((s : MonitorState) (m : Monitor)
        → P s
        → find_monitor s.monitor_id db ≡ some m
        → Q (job_of fresh s m))
    → (ss : List MonitorState) → All P ss
    → All Q (join_monitors fresh db.monitors ss)
unfolding join_monitors
join_monitors-All fresh db P Q step [] h = tt
join_monitors-All fresh db P Q step (s ∷ ss) h =
    row (find_monitor s.monitor_id db) (join_monitors-All fresh db P Q step ss h.1) refl
  where
    row :
        (o : Option Monitor)
        → All Q (join_monitors fresh db.monitors ss)
        → find_monitor s.monitor_id db ≡ o
        → All Q (join_row fresh s o (join_monitors fresh db.monitors ss))
    row none rest e = rest
    row (some m) rest e = (step s m h.0 e, rest)

pub length-join_monitors :
    (fresh : ℕ → ℕ) (monitors : List Monitor) (ss : List MonitorState)
    → length (join_monitors fresh monitors ss) ≤ length ss
unfolding join_monitors
length-join_monitors fresh monitors [] = omega arith
length-join_monitors fresh monitors (s ∷ ss) =
    ground (arith, length-join_monitors fresh monitors ss)

-- a claim makes at most `limit` jobs, each from a row of the database that is due, under no
-- running lease and not locked elsewhere, with the configuration of its monitor.
pub claim-All :
    (now : ℕ) (locked : ℕ → Bool) (fresh : ℕ → ℕ) (limit : ℕ) (db : Db)
    → (length (claim now locked fresh limit db).0 ≤ limit)
      × All (JobFor now locked fresh db) (claim now locked fresh limit db).0
unfolding claim
claim-All now locked fresh limit db = (
  omega (
    arith,
    length-join_monitors fresh db.monitors (due now locked limit db.states),
    length-due now locked limit db.states,
  ),
  join_monitors-All fresh db (λ s. In s db.states × Free now locked s) (JobFor now locked fresh db)
      (λ s m p e. (s, m, p.0, p.1, e, refl)) _
      (due-All (λ s. In s db.states) now locked limit db.states (All-In _ db.states (λ s m. m))),
)

-- Rows of the same monitor are told apart by nothing, so two lists of jobs are disjoint by monitor.
abbrev pub Disjoint : List CheckJob → List CheckJob → Type 0
Disjoint js ks = All (λ (j : CheckJob). All (λ (k : CheckJob). j.monitor_id ≢ k.monitor_id) ks) js

-- while the leases of a claim run, no other claim on the same rows, with any limit and any locks,
-- returns a job for a monitor that the first one returned a job for.
pub claims-Disjoint :
    (now later : ℕ) (locked locked' : ℕ → Bool) (fresh fresh' : ℕ → ℕ) (limit limit' : ℕ)
    (db db' : Db)
    → later < now + lease_length
    → db'.states ≡ (claim now locked fresh limit db).1.states
    → Disjoint (claim now locked fresh limit db).0 (claim later locked' fresh' limit' db').0
unfolding claim
claims-Disjoint now later locked locked' fresh fresh' limit limit' db db' h e =
    join_monitors-All fresh db (λ s. among s.monitor_id picked ≡ true) _
      (λ s m hit _.
        join_monitors-All fresh' db' (λ t. among t.monitor_id picked ≡ false) _
          (λ t n miss _ same. cc (hit, miss, same)) _ others)
      picked (All-In _ picked (λ s. among-In s picked))
  where
    picked : List MonitorState
    picked = due now locked limit db.states

    fresh_row :
        (t : MonitorState)
        → ((among t.monitor_id picked ≡ false) ⊎ (is_due later t ≡ false)) × Free later locked' t
        → among t.monitor_id picked ≡ false
    fresh_row t (inl p, f) = p
    fresh_row t (inr p, f) = cc (p, f.0)

    others : All (λ t. among t.monitor_id picked ≡ false) (due later locked' limit' db'.states)
    others =
        All-mono _ (λ t. among t.monitor_id picked ≡ false) fresh_row _
          (due-All _ later locked' limit' db'.states
            (rw e (leased_not_due now later fresh picked db.states h)))
