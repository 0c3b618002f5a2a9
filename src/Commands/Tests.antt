-- ===== src/Commands/Tests.antt =====
-- Environments and arguments of Commands, and theorems of its child modules at work.
use uptime.Prelude.{
  ◌≡◌, refl, true, false, some, List, [], ◌∷◌, Bytes, codes, bytes_eq, if◌then◌else◌,
}
use uptime.Config.{Config, loaded}
use uptime.Monitor.Worker.{new_worker}
use uptime.Commands.{
  opens, closes, works, fine, failed, Database, connected, left_open, natural, below_zero, atoi,
  run_worker, run_migrate, run_api, Goose, interrupted,
}
use uptime.Commands.Tidy.{Tidy, Working, Migrating, ServingWith, commands-Tidy}

abbrev up : Database
up = record { connects = connected; hands_out = true; answers = true }

abbrev silent : Database
silent = record up { answers = false }

abbrev variables : Bytes → Bytes
variables key =
    if bytes_eq key (codes "DATABASE_URL")
    then codes "postgres://db"
    else if bytes_eq key (codes "MONITOR_CONCURRENCY")
    then codes "64"
    else []

test_worker : run_worker variables up ≡ (fine, opens ∷ works 64 ∷ closes ∷ [])
unfolding run_worker new_worker bytes_eq
test_worker = refl

test_silent : (run_worker variables silent).1 ≡ opens ∷ closes ∷ []
unfolding run_worker new_worker bytes_eq
test_silent = refl

-- PostgreSQL is unreachable: the ping of gorm.Open fails.
abbrev unreachable : Database
unreachable = record up { connects = left_open }

test_unreachable :
    run_worker variables unreachable
    ≡ (failed (codes "worker database connection failed"), opens ∷ [])
unfolding run_worker new_worker bytes_eq
test_unreachable = refl

test_atoi : atoi (codes "-7") ≡ some below_zero
unfolding atoi
test_atoi = refl

test_plus : atoi (codes "+7") ≡ some (natural 7)
unfolding atoi
test_plus = refl

abbrev settings : Config
settings = record {
  database_url = codes "postgres://db";
  http_addr = codes "127.0.0.1:8080";
  jwt_secret = [];
  issuer = [];
  audience = [];
  origin = [];
  avatar_dir = [];
  cookie_secure = true;
}

abbrev goose : Goose
goose = record { no_handle = []; dialect = fine; ended = λ c. fine }

abbrev arguments : List Bytes
arguments = codes "migrate" ∷ codes "up" ∷ []

commands-Tidy_example :
    Tidy Working unreachable (run_worker variables unreachable)
    × Tidy Migrating unreachable (run_migrate goose unreachable arguments)
    × Tidy
        (ServingWith (loaded settings))
        unreachable
        (run_api (loaded settings) unreachable (some []) (interrupted fine))
commands-Tidy_example =
    commands-Tidy unreachable variables goose arguments (loaded settings) (some [])
      (interrupted fine)
