-- ===== src/Monitor/Worker/Cleanup.antt =====
-- The rounds of cleanup in backend/internal/monitor/worker.go, between two ticks of its hourly
-- ticker.

use uptime.Prelude.{
  ℕ, zero, suc, ◌-◌, ◌≤◌, ◌<◌, ◌≡◌, ◌≢◌, refl, inl, inr, ◌⊎◌, Bool, true, false, not, ◌&&◌, List,
  [], ◌∷◌, length, take, All, All-mono, All-In, In, In-select, order_by-In, order_by-All,
  select-All, select, delete, order_by, arith, if◌then◌else◌, Bool-cases,
}
use uptime.Store.Rows.{MonitorMinute}
use uptime.Store.Exec.{Result, ok, err, Fates, World, Fate-cases, all_fine}
use uptime.Store.Checks.{
  prune_check_history, expired_batch, same_minute, is_expired, prune_limit, older,
}

-- How the rounds end: they wait for the next tick, the worker returns, or the fuel runs out.
pub data Swept : Type 0 where
  resting returned unfinished : Swept

-- For each round: the clock of the database, the rows that others have locked, and whether the
-- context has an error before it or ends in the 50 milliseconds behind it.
pub record Rounds : Type 0 where
  pub clock : ℕ → ℕ
  pub locked : ℕ → MonitorMinute → Bool
  pub over : ℕ → Bool
  pub stopped : ℕ → Bool

-- No other transaction, a clock that stands, and a context that lives on.
abbrev pub calm : ℕ → Rounds
calm now = record {
  clock = λ i. now;
  locked = λ i m. false;
  over = λ i. false;
  stopped = λ i. false;
}

abbrev after_round : Result ℕ → Bool → Swept × World → World → Swept × World
after_round (err e) stopped rest w = (resting, w)
after_round (ok zero) stopped rest w = (resting, w)
after_round (ok (suc n)) stopped rest w = if stopped then (returned, w) else rest

unfoldable pub sweep : Rounds → ℕ → ℕ → Fates → World → Swept × World
sweep env zero i fs w = (unfinished, w)
sweep env (suc fuel) i fs w =
    let (r, w') = prune_check_history (env.clock i) (env.locked i) fs w in
    let rest = sweep env fuel (suc i) fs w' in
    if env.over i then (returned, w) else after_round r (env.stopped i) rest w'

delete-length :
    (test : MonitorMinute → Bool) (ms : List MonitorMinute) → length (delete test ms) ≤ length ms
unfolding delete
delete-length test [] = omega arith
delete-length test (m ∷ ms) = ground (arith, delete-length test ms)

delete-In :
    (test : MonitorMinute → Bool) (ms : List MonitorMinute) (m : MonitorMinute)
    → In m ms
    → test m ≡ true
    → length (delete test ms) < length ms
unfolding delete
delete-In test [] m i h = elim i [ ]
delete-In test (x ∷ xs) m (inl e) h = ground (arith, delete-length test xs)
delete-In test (x ∷ xs) m (inr e) h = ground (arith, delete-In test xs m e h)

delete-All :
    (P : MonitorMinute → Type 0) (test : MonitorMinute → Bool) (ms : List MonitorMinute)
    → All P ms
    → All P (delete test ms)
unfolding delete
delete-All P test [] h = tt
delete-All P test (m ∷ ms) h = elim (Bool-cases (test m)) [
  | inl e ↦ rw e (delete-All P test ms h.1)
  | inr e ↦ rw e (h.0, delete-All P test ms h.1)
]

-- The rows that a round may delete.
abbrev Pending : ℕ → (MonitorMinute → Bool) → MonitorMinute → Type 0
Pending now locked m = (is_expired now m && not (locked m)) ≡ true

-- A round that finds a row to delete deletes one at least.
batch_head :
    (y : MonitorMinute) (ys : List MonitorMinute) → same_minute y (take prune_limit (y ∷ ys)) ≡ true
unfolding same_minute
batch_head y ys = ground arith

some_deleted :
    (ms ordered : List MonitorMinute) (m : MonitorMinute)
    → All (λ a. In a ms) ordered
    → In m ordered
    → length (delete (λ x. same_minute x (take prune_limit ordered)) ms) < length ms
some_deleted ms [] m h i = elim i [ ]
some_deleted ms (y ∷ ys) m h i =
    delete-In (λ x. same_minute x (take prune_limit (y ∷ ys))) ms y h.0 (batch_head y ys)

round_deletes :
    (now : ℕ) (locked : MonitorMinute → Bool) (ms : List MonitorMinute) (m : MonitorMinute)
    → In m ms
    → Pending now locked m
    → length (delete (λ x. same_minute x (expired_batch now locked ms)) ms) < length ms
unfolding expired_batch
round_deletes now locked ms m i e =
    let test = λ (x : MonitorMinute). is_expired now x && not (locked x) in
    some_deleted ms (order_by older (select test ms)) m
      (order_by-All older (λ a. In a ms) (select test ms)
        (All-mono (λ a. In a ms × (test a ≡ true)) (λ a. In a ms) (λ a h. h.0) (select test ms)
          (select-All test (λ a. In a ms) ms (All-In (λ a. In a ms) ms (λ a j. j)))))
      (order_by-In older (select test ms) m (In-select test ms m i e))

-- The rows that a round leaves.
abbrev left : ℕ → (MonitorMinute → Bool) → List MonitorMinute → List MonitorMinute
left now locked ms = delete (λ x. same_minute x (expired_batch now locked ms)) ms

-- A round that deletes nothing found nothing to delete.
round_zero :
    (now : ℕ) (locked : MonitorMinute → Bool) (ms : List MonitorMinute)
    → length ms - length (left now locked ms) ≡ 0
    → All (λ m. (is_expired now m && not (locked m)) ≡ false) ms
round_zero now locked ms z =
    All-In (λ m. (is_expired now m && not (locked m)) ≡ false) ms
      (λ m i. elim (Bool-cases (is_expired now m && not (locked m))) [
        | inr e ↦ e
        | inl e ↦ absurd (omega (arith, z, round_deletes now locked ms m i e))
      ])

zero_or_suc : (n : ℕ) → (n ≡ 0) ⊎ ((k : ℕ) × (n ≡ suc k))
zero_or_suc zero = inl refl
zero_or_suc (suc k) = inr (k, refl)

-- How many rows a round deletes.
abbrev deleted : Rounds → ℕ → World → ℕ
deleted env i w = length w.db.minutes - length (left (env.clock i) (env.locked i) w.db.minutes)

-- The world after a round that ran.
abbrev swept : Rounds → ℕ → World → World
swept env i w = record w {
  db = record w.db { minutes = left (env.clock i) (env.locked i) w.db.minutes };
  tick = suc w.tick;
}

-- Whatever happens, a round that goes on leaves fewer rows, so that one round more than there are
-- rows is enough.
pub sweep_finishes :
    (env : Rounds) (fuel i : ℕ) (fs : Fates) (w : World)
    → length w.db.minutes < fuel
    → (sweep env fuel i fs w).0 ≢ unfinished
unfolding sweep prune_check_history
sweep_finishes env zero i fs w h = λ x. omega (arith, h)
sweep_finishes env (suc fuel) i fs w h = elim (Bool-cases (env.over i)) [
  | inl e ↦ rw e (λ x. cc)
  | inr e ↦ rw e (elim (Fate-cases (fs w.tick)) [
    | inr f ↦ elim f [ inl g ↦ rw g (λ x. cc) | inr g ↦ rw g (λ x. cc) ]
    | inl f ↦ rw f (elim (zero_or_suc (deleted env i w)) [
      | inl z ↦ rw z (λ x. cc)
      | inr (k, more) ↦ rw more (elim (Bool-cases (env.stopped i)) [
        | inl s ↦ rw s (λ x. cc)
        | inr s ↦ rw s (sweep_finishes env fuel (suc i) fs (swept env i w) (omega (arith, h, more)))
      ])
    ])
  ])
]

-- where no statement fails, no other transaction intervenes, the clock stands still and the
-- context lives on, the rounds of a cleanup end by themselves, after at most one more than there
-- are minutes, and leave no expired minute.
pub sweep_clears :
    (now fuel i : ℕ) (w : World)
    → length w.db.minutes < fuel
    → ((sweep (calm now) fuel i all_fine w).0 ≡ resting)
      × All (λ m. is_expired now m ≡ false) (sweep (calm now) fuel i all_fine w).1.db.minutes
unfolding sweep prune_check_history
sweep_clears now zero i w h = absurd (omega (arith, h))
sweep_clears now (suc fuel) i w h = elim (zero_or_suc (deleted (calm now) i w)) [
  | inl z ↦ rw z (
    refl,
    delete-All (λ m. is_expired now m ≡ false) _ w.db.minutes
        (All-mono (λ m. (is_expired now m && true) ≡ false) (λ m. is_expired now m ≡ false)
          (λ m e. ground arith) w.db.minutes (round_zero now (λ m. false) w.db.minutes z)),
  )
  | inr (k, more) ↦
      rw more (sweep_clears now fuel (suc i) (swept (calm now) i w) (omega (arith, h, more)))
]
