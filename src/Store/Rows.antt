-- ===== src/Store/Rows.antt =====
-- The rows of backend/internal/store/{store,monitors,checks}.go and the database that holds them.
-- A UUID is a number, a time is a number of nanoseconds, a nil pointer is `none`.
use uptime.Prelude.{ℕ, Bool, Option, List, [], Bytes}

pub record User : Type 0 where
  pub id : ℕ
  pub avatar_file : Bytes
  pub name : Bytes
  pub email : Bytes
  pub password_hash : Bytes
  pub created_at : ℕ

pub record Session : Type 0 where
  pub id : ℕ
  pub user_id : ℕ
  pub expires_at : ℕ
  pub revoked_at : Option ℕ

pub record RefreshToken : Type 0 where
  pub hash : ℕ
  pub session_id : ℕ
  pub created_at : ℕ
  pub used_at : Option ℕ

pub record Monitor : Type 0 where
  pub id : ℕ
  pub user_id : ℕ
  pub url : Bytes
  pub interval_seconds : ℕ
  pub created_at : ℕ

pub record MonitorState : Type 0 where
  pub monitor_id : ℕ
  pub version : ℕ
  pub next_check_at : ℕ
  pub job_id : Option ℕ
  pub lease_until : Option ℕ
  pub last_started_at : Option ℕ
  pub last_finished_at : Option ℕ
  pub last_success : Option Bool
  pub http_status : Option ℕ
  pub error_kind : Bytes

pub record MonitorMinute : Type 0 where
  pub monitor_id : ℕ
  pub minute_start : ℕ
  pub successes : ℕ
  pub failures : ℕ

pub record CheckJob : Type 0 where
  pub monitor_id : ℕ
  pub url : Bytes
  pub interval_seconds : ℕ
  pub version : ℕ
  pub job_id : ℕ
  pub scheduled_at : ℕ

pub record CheckResult : Type 0 where
  pub started_at : ℕ
  pub finished_at : ℕ
  pub http_status : Option ℕ
  pub error_kind : Bytes
  pub success : Bool

pub record Db : Type 0 where
  pub users : List User
  pub sessions : List Session
  pub tokens : List RefreshToken
  pub monitors : List Monitor
  pub states : List MonitorState
  pub minutes : List MonitorMinute

abbrev pub empty : Db
empty = record { users = []; sessions = []; tokens = []; monitors = []; states = []; minutes = [] }

-- time.Duration constants, in nanoseconds.
abbrev pub second : ℕ
second = 1_000_000_000

abbrev pub minute : ℕ
minute = 60_000_000_000

abbrev pub hour : ℕ
hour = 3_600_000_000_000
