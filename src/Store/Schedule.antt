-- ===== src/Store/Schedule.antt =====
-- `NextCheck` of backend/internal/store/checks.go: the next slot of a monitor's cadence. A
-- time.Duration is an int64: a product wraps modulo 2 ^ 64, a difference of times saturates.
use uptime.Prelude.{
  ℕ, ◌+◌, ◌-◌, ◌*◌, ◌/◌, ◌%◌, ◌^◌, ◌≤◌, ◌<◌, min, ◌≡◌, refl, ◌⊎◌, inl, inr, true, false, arith,
  Bool-cases, ltb, if◌then◌else◌,
}
use native.Mathlib.Nat.{mod-eq_of_lt}
use uptime.Store.Rows.{second}

abbrev pub duration_limit : ℕ
duration_limit = 2 ^ 63

-- scheduled.Add of a duration given by its 64 bits; half of them stand for a negative number.
add_duration : ℕ → ℕ → ℕ
add_duration t d = if ltb d duration_limit then t + d else t + d - 2 ^ 64

-- finished.Sub(scheduled), for finished not before scheduled.
sub_time : ℕ → ℕ → ℕ
sub_time finished scheduled = min (duration_limit - 1) (finished - scheduled)

-- time.Duration(intervalSeconds) * time.Second
interval_of : ℕ → ℕ
interval_of interval_seconds = (interval_seconds * second) % 2 ^ 64

unfoldable pub next_check : ℕ → ℕ → ℕ → ℕ
unfolding add_duration sub_time interval_of
next_check scheduled finished interval_seconds =
    let interval = interval_of interval_seconds in
    if ltb finished scheduled
    then add_duration scheduled interval
    else add_duration scheduled (((sub_time finished scheduled / interval + 1) * interval) % 2 ^ 64)

-- The bounds of the database: an interval is a positive 32-bit integer.
abbrev pub IsInterval : ℕ → Type 0
IsInterval n = (1 ≤ n) × (n < 2 ^ 31)

interval_lem : (n : ℕ) → n < 2 ^ 31 → interval_of n ≡ n * second
unfolding interval_of
interval_lem n h = omega arith

slot_bounds : (e i : ℕ) → 0 < i → (e < (e / i + 1) * i) × ((e / i + 1) * i ≤ e + i)
slot_bounds e i h = (grind arith, grind arith)

-- Nothing wraps: the schedule in plain arithmetic.
early_slot :
    (scheduled finished n : ℕ)
    → n < 2 ^ 31
    → ltb finished scheduled ≡ true
    → next_check scheduled finished n ≡ scheduled + n * second
unfolding next_check
early_slot scheduled finished n v early = rw (early, interval_lem n v) (ground arith)

late_slot :
    (scheduled finished n : ℕ)
    → IsInterval n
    → finished < scheduled + 2 ^ 62
    → ltb finished scheduled ≡ false
    → next_check scheduled finished n
      ≡ scheduled + ((finished - scheduled) / (n * second) + 1) * (n * second)
unfolding next_check
late_slot scheduled finished n v late test =
    let fits = (slot_bounds (finished - scheduled) (n * second) (omega arith)).1 in
    let whole : sub_time finished scheduled ≡ finished - scheduled = omega arith in
    let kept : ((finished - scheduled) / (n * second) + 1) * (n * second) < 2 ^ 63 = omega arith in
    rw (test, interval_lem n v.1, whole)
      (ground (
        arith,
        mod-eq_of_lt {n = ((finished - scheduled) / (n * second) + 1) * (n * second)} {m = 2 ^ 64}
            (omega arith),
      ))

-- for an interval of 1 to 2^31 - 1 seconds and a check that finished less than 2^62 nanoseconds
-- late, no duration wraps: the next check lies a positive whole number of intervals after the
-- scheduled slot and strictly after the finish, and the slot before it is the scheduled one or is
-- not after the finish, so no slot that is still ahead is skipped.
pub next_check_lem :
    (scheduled finished n : ℕ)
    → IsInterval n
    → finished < scheduled + 2 ^ 62
    → (k : ℕ) × (next_check scheduled finished n ≡ scheduled + (k + 1) * (n * second))
      × (finished < next_check scheduled finished n)
      × ((k ≡ 0) ⊎ (scheduled + k * (n * second) ≤ finished))
next_check_lem scheduled finished n v late = elim (Bool-cases (ltb finished scheduled)) [
  | inl early ↦
      let e = early_slot scheduled finished n v.1 early in
      (0, omega (arith, e), ground (arith, e), inl refl)
  | inr test ↦
      let e = late_slot scheduled finished n v late test in
      let b = slot_bounds (finished - scheduled) (n * second) (omega arith) in
      ((finished - scheduled) / (n * second), e, ground (arith, e, b), inr (ground (arith, b)))
]
