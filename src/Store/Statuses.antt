-- ===== src/Store/Statuses.antt =====
-- backend/internal/store/checks.go, MonitorStatuses: the status of each monitor that is asked for.
pub mod Complete
mod Tests
use uptime.Prelude.{
  ℕ, ◌+◌, ◌*◌, Bool, true, false, ◌&&◌, ◌||◌, Option, none, some, List, [], ◌∷◌, length, Bytes, ltb,
  ◌==◌, if◌then◌else◌,
}
use uptime.Store.Rows.{Monitor, MonitorState, Db, second}
use uptime.Store.Exec.{Result, ok, err, Exec, record_not_found, pure, query}
use uptime.Store.Checks.{find_state}

pub data Status : Type 0 where
  pending up down stale : Status

pub record MonitorStatus : Type 0 where
  pub id : ℕ
  pub version : ℕ
  pub status : Status
  pub last_started_at : Option ℕ
  pub last_finished_at : Option ℕ
  pub last_success : Option Bool
  pub http_status : Option ℕ
  pub error_kind : Bytes

-- A NULL success is not true.
abbrev pub outcome : Option Bool → Status
outcome none = down
outcome (some b) = if b then up else down

unfoldable pub status_at : ℕ → ℕ → MonitorState → Status
status_at now interval s = elim s.last_started_at [
  | none ↦ pending
  | some t ↦ if ltb (t + (interval + 15) * second) now then stale else outcome s.last_success
]

abbrev pub status_row : ℕ → Monitor → MonitorState → MonitorStatus
status_row now m s = record {
  id = m.id;
  version = s.version;
  status = status_at now m.interval_seconds s;
  last_started_at = s.last_started_at;
  last_finished_at = s.last_finished_at;
  last_success = s.last_success;
  http_status = s.http_status;
  error_kind = s.error_kind;
}

abbrev pub add_status : ℕ → Monitor → Option MonitorState → List MonitorStatus → List MonitorStatus
add_status now m none rest = rest
add_status now m (some s) rest = status_row now m s ∷ rest

unfoldable pub one_of : ℕ → List ℕ → Bool
one_of x [] = false
one_of x (y ∷ ys) = (x == y) || one_of x ys

-- Each monitor of the user that is asked for, with its state.
unfoldable pub status_rows : ℕ → ℕ → List ℕ → Db → List Monitor → List MonitorStatus
unfolding status_at one_of
status_rows now user ids db [] = []
status_rows now user ids db (m ∷ ms) =
    let rest = status_rows now user ids db ms in
    if (m.user_id == user) && one_of m.id ids
    then add_status now m (find_state m.id db) rest
    else rest

unfoldable pub monitor_statuses : ℕ → ℕ → List ℕ → Exec (List MonitorStatus)
unfolding status_rows
monitor_statuses now user [] = pure []
monitor_statuses now user (id ∷ ids) = query λ db.
    let rows = status_rows now user (id ∷ ids) db db.monitors in
    if length rows == length (id ∷ ids) then ok rows else err record_not_found
