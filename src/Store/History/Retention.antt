-- ===== src/Store/History/Retention.antt =====
-- What pruning and finished checks keep of the histories.
use uptime.Prelude.{
  length, ℕ, ◌-◌, ◌%◌, ◌≤◌, ◌≡◌, refl, ap, Bool, true, false, not, ◌&&◌, List, [], ◌∷◌, All,
  All-mono, All-take, select, delete, select-All, order_by, order_by-All, map, arith, ◌==◌,
  Bool-cases, Bytes, inl, inr, ◌⊎◌, Option, none, some,
}
use uptime.Store.Exec.{alone_at, Result, ok, Fates, Fate, fine, failing, lost, start, World}
use uptime.Store.Rows.{Db, Monitor, MonitorState, MonitorMinute, CheckJob, CheckResult, minute}
use uptime.Store.Checks.{
  find_monitor, find_state, prune_limit, older, success_count, failure_count, expired_batch,
  same_minute, prune_check_history, is_expired, count_minute, minute_of,
}
use uptime.Store.Checks.Fence.{passes, settle, settle_rows, settle_state}
use uptime.Store.History.{
  binned, tally, inward, in_window, history_rows, history_window, history_at,
}
use uptime.Store.History.Buckets.{OnMinute, history_window-Window, Window}

select-delete :
    (p q : MonitorMinute → Bool)
    → ((m : MonitorMinute) → p m ≡ true → q m ≡ false)
    → (ms : List MonitorMinute) → select p (delete q ms) ≡ select p ms
unfolding select delete
select-delete p q apart [] = refl
select-delete p q apart (m ∷ ms) = ground (arith, apart m, select-delete p q apart ms)

same_minute_expired :
    (now : ℕ) (m : MonitorMinute) (batch : List MonitorMinute)
    → All (λ x. is_expired now x ≡ true) batch
    → same_minute m batch ≡ true
    → is_expired now m ≡ true
unfolding same_minute
same_minute_expired now m [] e h = ground arith
same_minute_expired now m (x ∷ xs) e h = ground (arith, same_minute_expired now m xs e.1)

batch-All :
    (now : ℕ) (locked : MonitorMinute → Bool) (ms : List MonitorMinute)
    → All (λ x. is_expired now x ≡ true) (expired_batch now locked ms)
unfolding expired_batch
batch-All now locked ms =
    let picked = select (λ m. is_expired now m && not (locked m)) ms in
    All-take (λ x. is_expired now x ≡ true) prune_limit (order_by older picked)
      (order_by-All older (λ x. is_expired now x ≡ true) picked
        (All-mono (λ x. Unit {0} × (is_expired now x && not (locked x) ≡ true))
          (λ x. is_expired now x ≡ true) (λ x h. ground arith) picked
          (select-All (λ m. is_expired now m && not (locked m)) (λ x. Unit {0}) ms
            (everything ms))))
  where
    everything : (xs : List MonitorMinute) → All (λ x. Unit {0}) xs
    everything [] = tt
    everything (x ∷ xs) = (tt, everything xs)

-- Whatever is pruned lies before every window that is read at the same moment or later.
expired-outside :
    (now later d s id : ℕ) (m : MonitorMinute)
    → Window (d, s)
    → now ≤ later
    → in_window id (inward (later - d)) later m ≡ true
    → is_expired now m ≡ false
expired-outside now later d s id m w h inside = ground arith

pruned_rows :
    (now later d s step id : ℕ) (locked : MonitorMinute → Bool) (ms : List MonitorMinute)
    → Window (d, s)
    → now ≤ later
    → history_rows step id
        (inward (later - d))
        later
        (delete (λ m. same_minute m (expired_batch now locked ms)) ms)
      ≡ history_rows step id (inward (later - d)) later ms
unfolding history_rows
pruned_rows now later d s step id locked ms w h =
    ap (λ kept. tally (map (binned step (inward (later - d))) kept))
      (select-delete (in_window id (inward (later - d)) later)
        (λ m. same_minute m (expired_batch now locked ms)) apart ms)
  where
    apart :
        (m : MonitorMinute)
        → in_window id (inward (later - d)) later m ≡ true
        → same_minute m (expired_batch now locked ms) ≡ false
    apart m inside = elim (Bool-cases (same_minute m (expired_batch now locked ms))) [
      | inr e ↦ e
      | inl e ↦
          let old =
            same_minute_expired now m (expired_batch now locked ms) (batch-All now locked ms) e in
          let new = expired-outside now later d s id m w h inside in cc
    ]

alone_cases :
    (f : Fate) (g : Db → Result ℕ × Db) (w : World)
    → ((alone_at f g w).1.db ≡ (g w.db).1) ⊎ ((alone_at f g w).1.db ≡ w.db)
alone_cases fine g w = inl refl
alone_cases failing g w = inr refl
alone_cases lost g w = inl refl

pruned_minutes :
    (fs : Fates) (w : World) (now : ℕ) (locked : MonitorMinute → Bool)
    → ((prune_check_history now locked fs w).1.db.minutes
        ≡ delete (λ m. same_minute m (expired_batch now locked w.db.minutes)) w.db.minutes)
      ⊎ ((prune_check_history now locked fs w).1.db.minutes ≡ w.db.minutes)
unfolding prune_check_history
pruned_minutes fs w now locked =
    elim (alone_cases (fs w.tick)
      (λ db.
        let batch = expired_batch now locked db.minutes in
        let kept = delete (λ m. same_minute m batch) db.minutes in
        (ok (length db.minutes - length kept), record db { minutes = kept }))
      w) [ inl e ↦ inl (ap Db.minutes e) | inr e ↦ inr (ap Db.minutes e) ]

-- pruning, whatever rows others have locked and whether or not its statement fails, changes no
-- history that is read at the same moment or later, of any monitor and any period that
-- HistoryWindow knows.
pub prune_check_history-history :
    (fs : Fates) (w : World) (now later : ℕ) (locked : MonitorMinute → Bool) (period : Bytes)
    (d s version id : ℕ)
    → history_window period ≡ ok (d, s)
    → now ≤ later
    → history_at (d, s) later version id (prune_check_history now locked fs w).1.db.minutes
      ≡ history_at (d, s) later version id w.db.minutes
unfolding history_at
prune_check_history-history fs w now later locked period d s version id p h =
    elim (pruned_minutes fs w now locked) [
      | inl e ↦
          rw
            (
              e,
              pruned_rows now later d s s id locked w.db.minutes
                  (history_window-Window period d s p) h,
            )
            refl
      | inr e ↦ rw e refl
    ]

count_minute-OnMinute :
    (id start s f : ℕ) (ms : List MonitorMinute)
    → start % minute ≡ 0
    → All OnMinute ms
    → All OnMinute (count_minute id start s f ms)
unfolding count_minute
count_minute-OnMinute id start s f [] e on = (e, tt)
count_minute-OnMinute id start s f (m ∷ ms) e on =
    elim (Bool-cases ((m.monitor_id == id) && (m.minute_start == start))) [
      | inl same ↦ rw same on
      | inr other ↦ rw other (on.0, count_minute-OnMinute id start s f ms e on.1)
    ]

-- where all minutes start on whole minutes, they still do after a finished check is settled.
pub settle-OnMinute :
    (clock : ℕ) (job : CheckJob) (result : CheckResult) (db : Db)
    → All OnMinute db.minutes
    → All OnMinute (settle clock job result db).1.minutes
unfolding settle settle_rows settle_state
settle-OnMinute clock job result db on =
    by_rows (find_monitor job.monitor_id db) (find_state job.monitor_id db)
  where
    by_rows :
        (o : Option Monitor) (p : Option MonitorState)
        → All OnMinute (settle_rows clock job result o p db).1.minutes
    by_rows none p = on
    by_rows (some m) none = on
    by_rows (some m) (some s) = elim (Bool-cases (passes clock job s)) [
      | inl e ↦ rw e (
          count_minute-OnMinute job.monitor_id (minute_of result.started_at) (success_count result)
            (failure_count result) db.minutes (omega arith) on)
      | inr e ↦ rw e (ground arith)
    ]
