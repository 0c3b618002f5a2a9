-- ===== src/Commands.antt =====
-- The commands of backend/cmd (api, worker and migrate) with Open and Close of
-- backend/internal/store: what each asks of the database, in order. Signals, timeouts and logs are
-- left out.
pub mod Tidy
mod Tests
use uptime.Prelude.{
  ℕ, ◌-◌, ◌^◌, Bool, true, false, not, ◌&&◌, ◌||◌, Option, none, some, List, [], ◌∷◌, ◌++◌, Bytes,
  codes, bytes_eq, ltb, ◌==◌, if◌then◌else◌,
}
use uptime.Config.{
  Config, Loaded, loaded, bad_cookie_secure, no_database_url, weak_secret, bad_origin,
}
use uptime.Monitor.Validation.{value_of}
use uptime.Monitor.Validation.Patterns.{is_digit, all_letters}
use uptime.Monitor.Worker.{Worker, new_worker}

-- The pool is opened or closed; a worker runs with so many checks at once; goose runs a command;
-- the server listens or is shut down.
pub data Event : Type 0 where
  opens closes : Event
  works : ℕ → Event
  migrates : Bytes → Event
  listens : Config → Event
  shuts_down : Event

pub data Ended : Type 0 where
  fine : Ended
  failed : Bytes → Ended

abbrev pub Run : Type 0
Run = Ended × List Event

-- How gorm.Open ends: it fails before there is a pool, or after it opened one, which it leaves
-- open (as where the ping that it makes itself is not answered), or it succeeds.
pub data Connect : Type 0 where
  no_pool left_open connected : Connect

-- How gorm opens the pool, whether it hands it out, and whether the pool answers the ping of Open.
pub record Database : Type 0 where
  pub connects : Connect
  pub hands_out : Bool
  pub answers : Bool

-- Whether Open returns a store, after gorm.Open ended so.
abbrev pub after_connect : Connect → Database → Bool × List Event
after_connect no_pool d = (false, [])
after_connect left_open d = (false, opens ∷ [])
after_connect connected d =
    if not d.hands_out
    then (false, opens ∷ [])
    else if not d.answers
    then (false, opens ∷ closes ∷ [])
    else (true, opens ∷ [])

unfoldable pub open_store : Database → Bool × List Event
open_store d = after_connect d.connects d

unfoldable pub close_store : Database → List Event
close_store d = if d.hands_out then closes ∷ [] else []

-- The store is closed when the rest is over, however it ends.
abbrev pub with_store : Database → Bytes → Run → Run
with_store d message (ended, events) =
    if (open_store d).0
    then (ended, (open_store d).1 ++ (events ++ close_store d))
    else (failed message, (open_store d).1)

pub data Number : Type 0 where
  natural : ℕ → Number
  below_zero : Number

abbrev signed : Bool → ℕ → Option Number
signed negative n =
    if negative
    then (if ltb (2 ^ 63) n then none else if n == 0 then some (natural 0) else some below_zero)
    else if ltb (2 ^ 63 - 1) n
    then none
    else some (natural n)

abbrev unsigned : Bool → Bytes → Option Number
unsigned negative [] = none
unsigned negative (c ∷ cs) =
    if all_letters is_digit (c ∷ cs) then signed negative (value_of 0 (c ∷ cs)) else none

-- strconv.Atoi
unfoldable pub atoi : Bytes → Option Number
unfolding all_letters value_of
atoi [] = none
atoi (c ∷ cs) =
    if c == b'-'
    then unsigned true cs
    else if c == b'+'
    then unsigned false cs
    else unsigned false (c ∷ cs)

abbrev pub made : Number → Option Worker
made below_zero = none
made (natural n) = new_worker n

-- MONITOR_CONCURRENCY
unfoldable pub concurrency : Bytes → Option Number
unfolding atoi
concurrency value = if bytes_eq value [] then some (natural 128) else atoi value

abbrev pub worked : Option Worker → Run
worked none = (failed (codes "worker concurrency must be between 1 and 4096"), [])
worked (some w) = (fine, works w.concurrency ∷ [])

abbrev pub with_concurrency : Database → Option Number → Run
with_concurrency d none = (failed (codes "MONITOR_CONCURRENCY must be an integer"), [])
with_concurrency d (some n) =
    with_store d (codes "worker database connection failed") (worked (made n))

unfoldable pub run_worker : (Bytes → Bytes) → Database → Run
unfolding concurrency open_store close_store
run_worker getenv d =
    if bytes_eq (getenv (codes "DATABASE_URL")) []
    then (failed (codes "DATABASE_URL is required"), [])
    else with_concurrency d (concurrency (getenv (codes "MONITOR_CONCURRENCY")))

abbrev pub is_command : Bytes → Bool
is_command c = bytes_eq c (codes "up") || bytes_eq c (codes "down") || bytes_eq c (codes "status")

-- The error of gorm where it hands out no pool, and what goose answers to the dialect and to the
-- command.
pub record Goose : Type 0 where
  pub no_handle : Bytes
  pub dialect : Ended
  pub ended : Bytes → Ended

-- The second handle is that of the same pool.
abbrev pub migrated : Goose → Database → Bytes → Run
migrated g d command = if not d.hands_out then (failed g.no_handle, []) else elim g.dialect [
  | failed message ↦ (failed message, [])
  | fine ↦ (g.ended command, migrates command ∷ [])
]

unfoldable pub run_migrate : Goose → Database → List Bytes → Run
unfolding open_store close_store
run_migrate g d (program ∷ command ∷ []) =
    if not (is_command command)
    then (failed (codes "unsupported command"), [])
    else with_store d (codes "database connection failed") (migrated g d command)
run_migrate g d _ = (failed (codes "usage: go run ./cmd/migrate up|down|status"), [])

-- How serving ends: the listener fails, is closed, or a signal comes and Shutdown ends so.
pub data Serving : Type 0 where
  listener_failed : Bytes → Serving
  listener_closed : Serving
  interrupted : Ended → Serving

abbrev pub served : Config → Serving → Run
served c (listener_failed message) =
    (failed (codes "HTTP server failed: " ++ message), listens c ∷ [])
served c listener_closed = (fine, listens c ∷ [])
served c (interrupted ended) = (ended, listens c ∷ shuts_down ∷ [])

-- NewService draws the salt of the dummy hash.
abbrev pub with_service : Config → Option Bytes → Serving → Run
with_service c none s = (failed (codes "authentication initialization failed"), [])
with_service c (some salt) s = served c s

unfoldable pub run_api : Loaded → Database → Option Bytes → Serving → Run
unfolding open_store close_store
run_api (loaded c) d salt s =
    with_store d (codes "database connection failed") (with_service c salt s)
run_api bad_cookie_secure d salt s = (failed (codes "COOKIE_SECURE must be boolean"), [])
run_api no_database_url d salt s = (failed (codes "DATABASE_URL is required"), [])
run_api weak_secret d salt s =
    (failed (codes "JWT_SECRET must contain at least 32 random bytes and not a placeholder"), [])
run_api bad_origin d salt s =
    (failed (codes "ALLOWED_ORIGIN must be an http(s) origin without path"), [])
