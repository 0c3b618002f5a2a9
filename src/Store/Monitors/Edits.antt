-- ===== src/Store/Monitors/Edits.antt =====
-- What changing and deleting a monitor does, and to whom.
use mathlib.Core.Option
use uptime.Prelude.{
  ℕ, suc, ◌+◌, ◌≡◌, refl, Bool, true, false, not, ◌&&◌, none, some, List, [], ◌∷◌, arith, bytes_eq,
  find, find-key, find-update, update, delete, ◌==◌, if◌then◌else◌, sum_of,
}
use uptime.Store.Rows.{Db, Monitor, MonitorState, MonitorMinute}
use uptime.Store.Exec.{ok, write, or_not_found, or_not_found-eq_ok, Fates, World}
use uptime.Store.Exec.Rules.{
  Ends, Commits, query-Ends, write-Ends, write_last-Ends, transaction-Commits,
}
use uptime.Store.Checks.{find_state, update_state}
use uptime.Store.Checks.Counting.{observations, weight}
use uptime.Store.Monitors.{
  owned, reconfigured, set_configuration, clear_history, reschedule, update_monitor,
}

-- The database after an edit of a monitor whose URL was `url`.
unfoldable pub edited : ℕ → Monitor → Monitor → Db → Db
unfolding set_configuration clear_history
edited now m previous db =
    let saved = set_configuration m.id m.url m.interval_seconds db in
    if bytes_eq previous.url m.url
    then update_state m.id (reconfigured now false) saved
    else update_state m.id (reconfigured now true) (clear_history m.id saved)

abbrev pub Edited : ℕ → Monitor → Db → Unit {0} → Db → Type 0
Edited now m before _ after =
    (previous : Monitor) × (owned m.id m.user_id before ≡ some previous)
    × (after ≡ edited now m previous before)

module _ (now : ℕ) (m : Monitor) (fs : Fates) (before : Db) where
  reschedule-Ends :
      (previous : Monitor) (b : Bool) (n : ℕ)
      → not (bytes_eq previous.url m.url) ≡ b
      → owned m.id m.user_id before ≡ some previous
      → Ends
          (Edited now m before)
          (λ d. d ≡ before)
          (reschedule m.id now b fs (record {
            db = set_configuration m.id m.url m.interval_seconds before;
            base = before;
            tick = n;
          })).0
          (reschedule m.id now b fs (record {
            db = set_configuration m.id m.url m.interval_seconds before;
            base = before;
            tick = n;
          })).1
  unfolding reschedule edited
  reschedule-Ends previous true n e o =
      write-Ends (Edited now m before) (λ d. d ≡ before)
        (λ _. write (λ db. (ok tt, update_state m.id (reconfigured now true) db))) fs
        (record {
          db = set_configuration m.id m.url m.interval_seconds before;
          base = before;
          tick = n;
        })
        refl (λ db. (ok tt, clear_history m.id db))
        (λ _ _.
          write_last-Ends (Edited now m before) (λ d. d ≡ before)
            (λ db. (ok tt, update_state m.id (reconfigured now true) db)) fs _ refl
            (λ _ _. (previous, o, ground arith)))
  reschedule-Ends previous false n e o =
      write_last-Ends (Edited now m before) (λ d. d ≡ before)
        (λ db. (ok tt, update_state m.id (reconfigured now false) db)) fs _ refl
        (λ _ _. (previous, o, ground arith))

-- whatever statements fail, an update that succeeds found the monitor under its owner and made
-- the whole edit; one that fails, for a missing or foreign monitor too, left the database as it
-- was, or made the whole edit and lost the acknowledgement of its commit.
pub update_monitor-Edited :
    (now : ℕ) (m : Monitor) (fs : Fates) (w : World)
    → Commits
        (Edited now m w.db)
        (λ d. d ≡ w.db)
        (update_monitor now m fs w).0
        (update_monitor now m fs w).1.db
unfolding update_monitor
update_monitor-Edited now m fs w =
    transaction-Commits (Edited now m w.db) (λ d. d ≡ w.db) _ fs w
      (query-Ends (Edited now m w.db) (λ d. d ≡ w.db) _ fs (record w { base = w.db }) refl
        (λ db. or_not_found (owned m.id m.user_id db))
        (λ previous found.
          write-Ends (Edited now m w.db) (λ d. d ≡ w.db)
            (λ _. reschedule m.id now (not (bytes_eq previous.url m.url))) fs
            (record w { base = w.db; tick = suc w.tick }) refl
            (λ db. (ok tt, set_configuration m.id m.url m.interval_seconds db))
            (λ _ _.
              reschedule-Ends now m fs w.db previous (not (bytes_eq previous.url m.url))
                (suc (suc w.tick)) refl (or_not_found-eq_ok _ previous found))))

delete_total :
    (j id : ℕ) (ms : List MonitorMinute)
    → sum_of (weight j) (delete (λ m. m.monitor_id == id) ms)
      ≡ (if id == j then 0 else sum_of (weight j) ms)
unfolding delete
delete_total j id [] = ground arith
delete_total j id (m ∷ ms) = ground (arith, delete_total j id ms)

-- for a monitor that has a schedule, an edit clears the observations of that monitor when the URL
-- changes and keeps them otherwise, keeps those of every other monitor, and moves the schedule to
-- the next version, due now, without touching an outstanding lease; the last success is forgotten
-- with the URL and kept without.
pub edited_lem :
    (now : ℕ) (m previous : Monitor) (db : Db) (s : MonitorState)
    → find_state m.id db ≡ some s
    → ((j : ℕ)
        → observations j (edited now m previous db)
          ≡ (if (m.id == j) && not (bytes_eq previous.url m.url) then 0 else observations j db))
      × ((t : MonitorState) × (find_state m.id (edited now m previous db) ≡ some t)
          × (t.version ≡ s.version + 1)
          × (t.next_check_at ≡ now)
          × (t.job_id ≡ s.job_id)
          × (t.lease_until ≡ s.lease_until)
          × (t.last_success ≡ (if bytes_eq previous.url m.url then s.last_success else none)))
unfolding edited
edited_lem now m previous db s h = (
  (λ j. ground (arith, delete_total j m.id db.minutes)),
  (
    reconfigured now (not (bytes_eq previous.url m.url)) s,
    ground (arith, moved true, moved false),
    ground arith,
    ground arith,
    ground arith,
    ground arith,
    ground arith,
  ),
)
  where
    moved :
        (b : Bool)
        → find
            (λ (x : MonitorState). x.monitor_id)
            m.id
            (update (λ (x : MonitorState). x.monitor_id == m.id) (reconfigured now b) db.states)
          ≡ some (reconfigured now b s)
    moved b =
        found
          (find-update (λ (x : MonitorState). x.monitor_id) m.id
            (λ (x : MonitorState). x.monitor_id == m.id) (reconfigured now b) (λ x. kept x b)
            db.states)
          (find-key (λ (x : MonitorState). x.monitor_id) m.id db.states s h)
      where
        kept : (x : MonitorState) (c : Bool) → (reconfigured now c x).monitor_id ≡ x.monitor_id
        kept x c = ground arith

        found :
            find
                (λ (x : MonitorState). x.monitor_id)
                m.id
                (update (λ (x : MonitorState). x.monitor_id == m.id) (reconfigured now b) db.states)
              ≡ Option.map
                  (λ (x : MonitorState). if x.monitor_id == m.id then reconfigured now b x else x)
                  (find_state m.id db)
            → s.monitor_id ≡ m.id
            → find
                (λ (x : MonitorState). x.monitor_id)
                m.id
                (update (λ (x : MonitorState). x.monitor_id == m.id) (reconfigured now b) db.states)
              ≡ some (reconfigured now b s)
        found e k = ground arith
