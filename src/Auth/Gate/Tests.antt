-- ===== src/Auth/Gate/Tests.antt =====
-- The gate on concrete histories.
use uptime.Prelude.{◌+◌, ◌*◌, ◌≤◌, ◌≡◌, refl, false, List, [], ◌∷◌}
use uptime.Auth.Gate.{
  PasswordGate, Event, arrive, leave, token, new_password_gate, acquire, release, run,
}
use uptime.Auth.Gate.Bounds.{leaves, run_slots}

-- Ten requests at once, a return, and one more a second later.
abbrev rush : List Event
rush =
    arrive false 5
    ∷ arrive false 5
    ∷ arrive false 5
    ∷ arrive false 5
    ∷ arrive false 5
    ∷ leave
    ∷ arrive false 1_000_000_005
    ∷ []

rush_admits : (run (new_password_gate 5) rush).0 ≡ 5
unfolding run new_password_gate acquire release
rush_admits = refl

abbrev spent : PasswordGate
spent = record { active = 1; tokens = 500_000_000; last = 10 }

run_slots_example :
    ((run (new_password_gate 5) rush).0 ≤ 4 + leaves rush)
    × ((run (new_password_gate 5) rush).1.active ≤ 4)
    × ((run (new_password_gate 5) rush).1.tokens ≤ 8 * token)
run_slots_example = run_slots 5 rush
