-- ===== src/Store/Monitors.antt =====
-- backend/internal/store/monitors.go: monitors with their schedules, and their pages.
pub mod Edits
pub mod Pages
pub mod Kept
pub mod Owners
pub mod Theirs
use uptime.Prelude.{
  ℕ, suc, ◌+◌, Bool, true, false, not, ◌&&◌, ◌||◌, Option, none, some, List, [], ◌∷◌, ◌++◌, Bytes,
  codes, bytes_eq, take, find, update, select, delete, order_by, ltb, leb, ◌==◌, if◌then◌else◌,
}
use uptime.Store.Rows.{Db, User, Monitor, MonitorState, MonitorMinute}
use uptime.Store.Exec.{
  Result, ok, err, record_not_found, duplicated_key, database, Exec, pure, query, write, alone,
  transaction, or_not_found, ◌>>=◌, ◌>>◌,
}
use uptime.Store.Accounts.{find_user, is_some}
use uptime.Store.Checks.{find_monitor, find_state, update_state}

-- The defaults of the columns of monitor_states; `now` is the time of the database.
abbrev pub new_state : ℕ → ℕ → MonitorState
new_state id now = record {
  monitor_id = id;
  version = 1;
  next_check_at = now;
  job_id = none;
  lease_until = none;
  last_started_at = none;
  last_finished_at = none;
  last_success = none;
  http_status = none;
  error_kind = [];
}

-- The primary key, and the reference to a user.
unfoldable pub insert_monitor : Monitor → Db → Result (Unit {0}) × Db
insert_monitor m db =
    if is_some (find_monitor m.id db)
    then (err duplicated_key, db)
    else if is_some (find_user m.user_id db)
    then (ok tt, record db { monitors = db.monitors ++ m ∷ [] })
    else (err database, db)

unfoldable pub insert_state : ℕ → ℕ → Db → Result (Unit {0}) × Db
insert_state id now db =
    if is_some (find_state id db)
    then (err duplicated_key, db)
    else (ok tt, record db { states = db.states ++ new_state id now ∷ [] })

unfoldable pub create_monitor : ℕ → Monitor → Exec (Unit {0})
create_monitor now m = transaction (do write (insert_monitor m); write (insert_state m.id now))

abbrev pub page_size : ℕ
page_size = 50

pub record MonitorCursor : Type 0 where
  pub created_at : ℕ
  pub id : ℕ

-- (created_at, id) < (?, ?)
abbrev pub below : Monitor → MonitorCursor → Bool
below m c = ltb m.created_at c.created_at || ((m.created_at == c.created_at) && ltb m.id c.id)

abbrev pub after_cursor : Option MonitorCursor → Monitor → Bool
after_cursor none m = true
after_cursor (some c) m = below m c

-- ORDER BY created_at DESC, id DESC
abbrev pub newer : Monitor → Monitor → Bool
newer m n = ltb n.created_at m.created_at || ((m.created_at == n.created_at) && leb n.id m.id)

unfoldable pub page : ℕ → Option MonitorCursor → List Monitor → List Monitor
page user after monitors =
    take (suc page_size)
      (order_by newer (select (λ m. (m.user_id == user) && after_cursor after m) monitors))

unfoldable pub monitors_by_user : ℕ → Option MonitorCursor → Exec (List Monitor)
monitors_by_user user after = query (λ db. ok (page user after db.monitors))

-- id = ? AND user_id = ?
abbrev pub owned : ℕ → ℕ → Db → Option Monitor
owned id user db = find (λ (m : Monitor). m.id) id (select (λ m. m.user_id == user) db.monitors)

-- A new configuration makes the monitor due at once; a new URL also forgets the last observation.
-- The lease stays.
abbrev pub reconfigured : ℕ → Bool → MonitorState → MonitorState
reconfigured now moved s =
    let kept = record s { version = s.version + 1; next_check_at = now } in
    if moved
    then record s {
      version = s.version + 1;
      next_check_at = now;
      last_started_at = none;
      last_finished_at = none;
      last_success = none;
      http_status = none;
      error_kind = [];
    }
    else kept

set_configuration : ℕ → Bytes → ℕ → Db → Db
set_configuration id url interval db = record db {
  monitors =
      update (λ (m : Monitor). m.id == id)
        (λ m. record m { url = url; interval_seconds = interval }) db.monitors;
}

clear_history : ℕ → Db → Db
clear_history id db = record db {
  minutes = delete (λ (m : MonitorMinute). m.monitor_id == id) db.minutes;
}

reschedule : ℕ → ℕ → Bool → Exec (Unit {0})
unfolding clear_history
reschedule id now true = do
  write (λ db. (ok tt, clear_history id db))
  write (λ db. (ok tt, update_state id (reconfigured now true) db))
reschedule id now false = write (λ db. (ok tt, update_state id (reconfigured now false) db))

-- The monitor as the caller has it, with its owner, new URL and new interval.
unfoldable pub update_monitor : ℕ → Monitor → Exec (Unit {0})
unfolding set_configuration reschedule
update_monitor now m = transaction (do
  previous ← query (λ db. or_not_found (owned m.id m.user_id db))
  write (λ db. (ok tt, set_configuration m.id m.url m.interval_seconds db))
  reschedule m.id now (not (bytes_eq previous.url m.url)))

-- ON DELETE CASCADE takes the schedule and the history along.
abbrev pub removed : ℕ → Db → Db
removed id db = record db {
  monitors = delete (λ (m : Monitor). m.id == id) db.monitors;
  states = delete (λ (s : MonitorState). s.monitor_id == id) db.states;
  minutes = delete (λ (m : MonitorMinute). m.monitor_id == id) db.minutes;
}

unfoldable pub delete_monitor : ℕ → ℕ → Exec (Unit {0})
delete_monitor user id = alone λ db. elim (owned id user db) [
  | none ↦ (err record_not_found, db)
  | some m ↦ (ok tt, removed id db)
]
