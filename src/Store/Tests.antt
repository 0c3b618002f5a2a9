-- ===== src/Store/Tests.antt =====
-- The store on the sample database.
use uptime.Prelude.{
  ℕ, ◌+◌, ◌*◌, ◌≤◌, ◌<◌, ◌≡◌, refl, ◌⊎◌, true, false, ◌&&◌, some, length, arith, if◌then◌else◌,
  ◌==◌, codes, find, update, select, order_by,
}
use uptime.Store.Rows.{second, Monitor}
use uptime.Store.Exec.{Fates, fine, failing, lost, start}
use uptime.Store.Exec.Rules.{Commits}
use uptime.Store.Schedule.{next_check, next_check_lem}
use uptime.Store.Checks.{
  claim_checks, finish_check, find_state, due, lease, join_monitors, among, count_minute,
}
use uptime.Store.Checks.Leased.{Leased, claim_checks-Leased}
use uptime.Store.Checks.Claims.{claim, Disjoint, claims-Disjoint}
use uptime.Store.Checks.Fence.{settle, Outcome, finish_check-settle}
use uptime.Store.Checks.Counting.{observations, settle_counts, settle_again}
use uptime.Store.Monitors.{update_monitor}
use uptime.Store.Monitors.Edits.{Edited, update_monitor-Edited}
use uptime.Samples.{sample, job, success, site, leased}

-- The third statement fails, and the acknowledgement of the fourth is lost.
abbrev shaky : Fates
shaky n = if n == 3 then failing else if n == 4 then lost else fine

-- A check of 12 seconds skips two slots of five seconds.
next_check_slow : next_check 0 (12 * second) 5 ≡ 15 * second
unfolding next_check
next_check_slow = refl

next_check_lem_example :
    (k : ℕ) × (next_check 0 (12 * second) 5 ≡ 0 + (k + 1) * (5 * second))
    × (12 * second < next_check 0 (12 * second) 5)
    × ((k ≡ 0) ⊎ (0 + k * (5 * second) ≤ 12 * second))
next_check_lem_example = next_check_lem 0 (12 * second) 5 (omega arith) (omega arith)

claim_checks-Leased_example :
    Commits
      (Leased 600 (λ _. false) (λ i. i + 100) 5 sample)
      (λ d. d ≡ sample)
      (claim_checks 600 (λ _. false) (λ i. i + 100) 5 shaky (start sample)).0
      (claim_checks 600 (λ _. false) (λ i. i + 100) 5 shaky (start sample)).1.db
claim_checks-Leased_example =
    claim_checks-Leased 600 (λ _. false) (λ i. i + 100) 5 shaky (start sample)

-- Only the idle monitor is due.
claim_idle : length (claim 600 (λ _. false) (λ i. i + 100) 5 sample).0 ≡ 1
unfolding claim due lease join_monitors among find update select order_by
claim_idle = refl

claims-Disjoint_example :
    Disjoint
      (claim 600 (λ _. false) (λ i. i + 100) 5 sample).0
      (claim 700 (λ _. false) (λ i. i + 200) 5 (claim 600 (λ _. false) (λ i. i + 100) 5 sample).1).0
claims-Disjoint_example =
    claims-Disjoint 600 700 (λ _. false) (λ _. false) (λ i. i + 100) (λ i. i + 200) 5 5 sample
      (claim 600 (λ _. false) (λ i. i + 100) 5 sample).1 (omega arith) refl

finish_check-settle_example :
    Commits
      (Outcome (settle 4_000 job success sample))
      (λ d. d ≡ sample)
      (finish_check 4_000 job success shaky (start sample)).0
      (finish_check 4_000 job success shaky (start sample)).1.db
finish_check-settle_example = finish_check-settle 4_000 job success shaky (start sample)

settle_saves : (settle 4_000 job success sample).0 ≡ true
unfolding settle count_minute find update
settle_saves = refl

settle_counts_example :
    observations 10 (settle 4_000 job success sample).1
    ≡ observations 10 sample
      + (if (settle 4_000 job success sample).0 && (job.monitor_id == 10) then 1 else 0)
settle_counts_example = settle_counts 4_000 job success sample 10

settle_again_example :
    settle 5_000 job success (settle 4_000 job success sample).1
    ≡ (false, (settle 4_000 job success sample).1)
settle_again_example = settle_again 4_000 5_000 job success success sample settle_saves

-- The same monitor, moved to another URL.
abbrev moved : Monitor
moved = record site { url = codes "http://c" }

update_monitor-Edited_example :
    Commits
      (Edited 50 moved sample)
      (λ d. d ≡ sample)
      (update_monitor 50 moved shaky (start sample)).0
      (update_monitor 50 moved shaky (start sample)).1.db
update_monitor-Edited_example = update_monitor-Edited 50 moved shaky (start sample)

leased_state : find_state 10 sample ≡ some leased
unfolding find
leased_state = refl
