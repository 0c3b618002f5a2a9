-- ===== src/Auth/Gate.antt =====
-- backend/internal/auth/password_gate.go. The token bucket is a float64 in the source; here it is
-- counted exactly, in billionths of a token, so that a nanosecond earns `password_rate` of them; the
-- rounding of the source is left out.
pub mod Bounds
mod Tests
use uptime.Prelude.{ℕ, ◌+◌, ◌-◌, ◌*◌, ◌≤◌, min, Bool, ◌||◌, List, [], ◌∷◌, ltb, leb, if◌then◌else◌}
use uptime.Store.Rows.{second}
use uptime.Store.Exec.{Result, ok, err, busy, cancelled}

abbrev pub password_concurrency : ℕ
password_concurrency = 4

abbrev pub password_burst : ℕ
password_burst = 8

abbrev pub password_rate : ℕ
password_rate = 4

-- One token.
abbrev pub token : ℕ
token = second

pub record PasswordGate : Type 0 where
  pub active : ℕ
  pub tokens : ℕ
  pub last : ℕ

unfoldable pub new_password_gate : ℕ → PasswordGate
new_password_gate now = record { active = 0; tokens = password_burst * token; last = now }

-- The credit at `now`. Truncated subtraction is `max(0, now.Sub(last))`.
unfoldable pub refill : PasswordGate → ℕ → PasswordGate
refill g now = record g {
  tokens = min (password_burst * token) (g.tokens + (now - g.last) * password_rate);
  last = now;
}

unfoldable pub admit : PasswordGate → Result (Unit {0}) × PasswordGate
admit g =
    if leb password_concurrency g.active || ltb g.tokens token
    then (err busy, g)
    else (ok tt, record g { active = g.active + 1; tokens = g.tokens - token })

-- `done` says that the context of the request has an error.
unfoldable pub acquire : Bool → ℕ → PasswordGate → Result (Unit {0}) × PasswordGate
unfolding refill admit
acquire done now g = if done then (err cancelled, g) else admit (refill g now)

-- The function that `acquire` hands out.
unfoldable pub release : PasswordGate → PasswordGate
release g = record g { active = g.active - 1 }

-- What happens at a gate: a request arrives, or an admitted one returns its slot.
pub data Event : Type 0 where
  arrive : Bool → ℕ → Event
  leave : Event

abbrev pub admitted : Result (Unit {0}) → ℕ
admitted (ok _) = 1
admitted (err _) = 0

-- The admissions of a history, and the gate after it. A slot is returned only where one is taken.
unfoldable pub run : PasswordGate → List Event → ℕ × PasswordGate
run g [] = (0, g)
run g (arrive done now ∷ es) =
    let (r, g') = acquire done now g in let (n, g'') = run g' es in (admitted r + n, g'')
run g (leave ∷ es) = run (if leb 1 g.active then release g else g) es
