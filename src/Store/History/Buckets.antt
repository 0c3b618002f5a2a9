-- ===== src/Store/History/Buckets.antt =====
-- The buckets of a history: how they tile the window, and what each of them and the totals count.
use native.Mathlib.Nat.{div-mul-le_self, lt-div-mul-add}
use uptime.Prelude.{
  ℕ, zero, suc, ◌+◌, ◌-◌, ◌*◌, ◌/◌, ◌%◌, ◌≤◌, ◌<◌, ◌≡◌, ◌⊎◌, inl, inr, refl, ap, ◌∙◌, Bool, true,
  false, ◌&&◌, List, [], ◌∷◌, map, All, select, sum_of, arith, ltb, leb, leb→le, ◌==◌,
  if◌then◌else◌, Bool-cases, Bytes,
}
use uptime.Store.Exec.{ok}
use uptime.Store.Rows.{MonitorMinute, minute, hour}
use uptime.Store.History.{
  inward, Tally, date_bin, in_window, binned, take_row, HistoryBucket, fill, history_window,
}
use uptime.Store.History.Counts.{
  votes, minute_votes, tally_at, Spaced, take_row_lem, tally_at-take_row,
}

-- The buckets follow one another from a to b, none longer than a step.
abbrev pub Tiles : ℕ → ℕ → ℕ → List HistoryBucket → Type 0
Tiles step a b [] = a ≡ b
Tiles step a b (x ∷ xs) =
    (x.start ≡ a) × (a < x.finish) × (x.finish ≤ a + step) × Tiles step x.finish b xs

-- The four windows.
abbrev pub Window : ℕ × ℕ → Type 0
Window (d, s) =
    ((d ≡ hour) × (s ≡ minute))
    ⊎ (((d ≡ 24 * hour) × (s ≡ 5 * minute))
        ⊎ (((d ≡ 7 * 24 * hour) × (s ≡ 30 * minute)) ⊎ ((d ≡ 30 * 24 * hour) × (s ≡ 2 * hour))))

pub history_window-Window :
    (period : Bytes) (d s : ℕ) → history_window period ≡ ok (d, s) → Window (d, s)
unfolding history_window
history_window-Window period d s h = ground (arith, h)

module _ (s : ℕ) (positive : 0 < s) (upto : ℕ) where
  fill_past : (fuel start : ℕ) (rows : List Tally) → upto ≤ start → fill fuel s upto start rows ≡ []
  unfolding fill
  fill_past zero start rows h = refl
  fill_past (suc fuel) start rows h = ground arith

  pub fill-Tiles :
      (fuel start : ℕ) (rows : List Tally)
      → start ≤ upto
      → upto ≤ start + fuel * s
      → Tiles s start upto (fill fuel s upto start rows)
  unfolding fill
  fill-Tiles zero start rows h h' = omega arith
  fill-Tiles (suc fuel) start rows h h' = elim (Bool-cases (ltb start upto)) [
    | inr e ↦ rw e (ground arith)
    | inl e ↦ rw e (elim (Bool-cases (ltb upto (start + s))) [
      | inl clip ↦ rw clip (
        refl,
        ground arith,
        ground arith,
        rw (fill_past fuel (start + s) (take_row start rows).1 (ground arith)) refl,
      )
      | inr full ↦ rw full (
        refl,
        omega arith,
        omega arith,
        fill-Tiles fuel (start + s) (take_row start rows).1 (ground arith) (omega arith),
      )
    ])
  ]

  -- A bucket that starts a whole number of steps after `from`, with counts `count`.
  abbrev pub Counted : (Bool → ℕ → ℕ) → ℕ → HistoryBucket → Type 0
  Counted count from x =
      (k : ℕ) × (x.start ≡ from + k * s)
      × (x.start < upto)
      × (x.finish ≡ (if ltb upto (x.start + s) then upto else x.start + s))
      × (x.successes ≡ count true x.start)
      × (x.failures ≡ count false x.start)

  pub fill-Counted :
      (count : Bool → ℕ → ℕ) (from fuel k start : ℕ) (rows : List Tally)
      → start ≡ from + k * s
      → Spaced s positive start rows
      → ((b : Bool) (c : ℕ) → start ≤ c → tally_at b c rows ≡ count b c)
      → All (Counted count from) (fill fuel s upto start rows)
  unfolding fill
  fill-Counted count from zero k start rows e sp same = tt
  fill-Counted count from (suc fuel) k start rows e sp same = elim (Bool-cases (ltb start upto)) [
    | inr past ↦ rw past tt
    | inl open_bucket ↦
        let taken = take_row_lem s positive start rows sp in
        rw open_bucket (
          (
            k,
            e,
            ground arith,
            refl,
            taken.0 ∙ same true start (omega arith),
            taken.1 ∙ same false start (omega arith),
          ),
          fill-Counted count from fuel (suc k) (start + s) (take_row start rows).1 (omega arith)
              taken.2
              (λ b c h.
                tally_at-take_row s positive b start c rows (omega arith) ∙ same b c (omega arith)),
        )
  ]

-- What the minutes of a monitor from lo up to and without hi count.
abbrev pub counted : Bool → ℕ → ℕ → ℕ → List MonitorMinute → ℕ
counted b id lo hi minutes =
    sum_of (minute_votes b)
      (select (λ m. (m.monitor_id == id) && leb lo m.minute_start && ltb m.minute_start hi) minutes)

abbrev pub OnMinute : MonitorMinute → Type 0
OnMinute m = m.minute_start % minute ≡ 0

step_le : (i j s : ℕ) → i < j → i * s + s ≤ j * s
step_le i j s h =
    let whole : j ≡ i + suc (j - i - 1) = omega (arith, h) in omega (arith, ap (λ n. n * s) whole)

order_cases : (i j : ℕ) → (i < j) ⊎ ((j < i) ⊎ (i ≡ j))
order_cases i j = ground arith

date_bin_lem :
    (s : ℕ)
    → 0 < s
    → (from k at : ℕ) → from ≤ at
    → (date_bin s from at == from + k * s) ≡ (leb (from + k * s) at && ltb at (from + k * s + s))
unfolding date_bin
date_bin_lem s positive from k at h =
    let q = (at - from) / s in
    let low = div-mul-le_self (at - from) s in
    let high = lt-div-mul-add {a = at - from} {b = s} positive in
    elim (order_cases q k) [
      | inl below ↦ ground (arith, low, high, step_le q k s below)
      | inr (inl above) ↦ ground (arith, low, high, step_le k q s above)
      | inr (inr same) ↦ ground (arith, low, high, ap (λ n. n * s) same)
    ]

-- In the last bucket, the minute of the moment of reading counts when the bucket is cut short.
pub clipped :
    (d s now k : ℕ)
    → Window (d, s)
    → d ≤ now
    → inward (now - d) + k * s < now
    → now < inward (now - d) + k * s + s
    → (now % minute ≡ 0)
    → ⊥
clipped d s now k (inl (d_is, s_is)) h h' h'' e = ground (arith, ap (λ x. k * x) s_is)
clipped d s now k (inr (inl (d_is, s_is))) h h' h'' e = ground (arith, ap (λ x. k * x) s_is)
clipped d s now k (inr (inr (inl (d_is, s_is)))) h h' h'' e = ground (arith, ap (λ x. k * x) s_is)
clipped d s now k (inr (inr (inr (d_is, s_is)))) h h' h'' e = ground (arith, ap (λ x. k * x) s_is)

votes-binned :
    (b : Bool) (s from : ℕ) (m : MonitorMinute) → votes b (binned s from m) ≡ minute_votes b m
unfolding binned
votes-binned true s from m = refl
votes-binned false s from m = refl

abbrev pub end_of : ℕ → ℕ → ℕ → ℕ
end_of now c s = if ltb now (c + s) then now else c + s

module _ (s : ℕ) (positive : 0 < s) (id from now k : ℕ) (open_bucket : from + k * s < now)
    (edge : now < from + k * s + s → now % minute ≡ 0 → ⊥) where
  one_minute :
      (m : MonitorMinute)
      → OnMinute m
      → (in_window id from now m && (date_bin s from m.minute_start == from + k * s)) ≡ (
          (m.monitor_id == id)
          && leb (from + k * s) m.minute_start
          && ltb m.minute_start (end_of now (from + k * s) s))
  one_minute m on = elim (Bool-cases (leb from m.minute_start)) [
    | inl later ↦ ground (
      arith,
      edge,
      ap (λ x. x % minute) {x = m.minute_start} {y = now},
      date_bin_lem s positive from k m.minute_start (leb→le from m.minute_start later),
    )
    | inr before ↦ ground arith
  ]

  pub rows_counted :
      (b : Bool) (minutes : List MonitorMinute)
      → All OnMinute minutes
      → tally_at b (from + k * s) (map (binned s from) (select (in_window id from now) minutes))
        ≡ counted b id (from + k * s) (end_of now (from + k * s) s) minutes
  unfolding select binned
  rows_counted b [] on = refl
  rows_counted b (m ∷ ms) on =
      ground (arith, one_minute m on.0, votes-binned b s from m, rows_counted b ms on.1)
