-- ===== src/Auth/Gate/Bounds.antt =====
-- How much password work the gate lets through.
use uptime.Prelude.{ℕ, suc, ◌+◌, ◌-◌, ◌*◌, ◌≤◌, ◌≡◌, Bool, List, [], ◌∷◌, arith}
use uptime.Auth.Gate.{
  PasswordGate, Event, arrive, leave, password_concurrency, password_burst, token,
  new_password_gate, acquire, release, admitted, run,
}

pub record IsValid (g : PasswordGate) : Type 0 where
  pub slots : g.active ≤ password_concurrency
  pub credit : g.tokens ≤ password_burst * token

acquire-IsValid :
    (done : Bool) (now : ℕ) (g : PasswordGate) → IsValid g → IsValid (acquire done now g).1
unfolding acquire
acquire-IsValid done now g v = ground arith

run-IsValid : (g : PasswordGate) (es : List Event) → IsValid g → IsValid (run g es).1
unfolding run release
run-IsValid g [] v = v
run-IsValid g (arrive done now ∷ es) v =
    run-IsValid (acquire done now g).1 es (acquire-IsValid done now g v)
run-IsValid g (leave ∷ es) v = run-IsValid _ es (ground arith)

-- How many requests give their slot back.
abbrev pub leaves : List Event → ℕ
leaves [] = 0
leaves (arrive done now ∷ es) = leaves es
leaves (leave ∷ es) = suc (leaves es)

-- An admission takes a slot of those that are free.
acquire_slots :
    (done : Bool) (now : ℕ) (g : PasswordGate)
    → g.active ≤ 4
    → ((acquire done now g).1.active ≤ 4)
      × ((acquire done now g).1.active ≡ g.active + admitted (acquire done now g).0)
unfolding acquire
acquire_slots done now g h = (ground arith, ground arith)

run_admitted :
    (g : PasswordGate) (es : List Event) → g.active ≤ 4 → g.active + (run g es).0 ≤ 4 + leaves es
unfolding run release
run_admitted g [] h = omega (arith, h)
run_admitted g (arrive done now ∷ es) h =
    let (few, taken) = acquire_slots done now g h in
    omega (arith, taken, run_admitted (acquire done now g).1 es few)
run_admitted g (leave ∷ es) h = ground (
  arith,
  run_admitted g es h,
  run_admitted (record g { active = g.active - 1 }) es (omega (arith, h)),
)

-- over any history of arrivals, at any times and with requests that are cancelled or not, and of
-- returned slots, a fresh gate admits at most four requests more than slots were returned, counts
-- at most four as active, and never holds more than eight tokens.
pub run_slots :
    (now : ℕ) (es : List Event)
    → ((run (new_password_gate now) es).0 ≤ 4 + leaves es)
      × ((run (new_password_gate now) es).1.active ≤ 4)
      × ((run (new_password_gate now) es).1.tokens ≤ 8 * token)
run_slots now es =
    let v = run-IsValid (new_password_gate now) es (unfold new_password_gate in omega arith) in
    (
      unfold new_password_gate in
          omega (arith, run_admitted (new_password_gate now) es (omega arith)),
      v.slots,
      v.credit,
    )
