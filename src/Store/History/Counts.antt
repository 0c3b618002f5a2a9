-- ===== src/Store/History/Counts.antt =====
-- What the grouping query and the walk over its rows count.
use uptime.Prelude.{
  ℕ, zero, suc, ◌+◌, ◌-◌, ◌*◌, ◌/◌, ◌<◌, ◌≡◌, subst, ap, inl, inr, refl, Bool, true, false, List,
  [], ◌∷◌, map, arith, ltb, ◌==◌, if◌then◌else◌, Bool-cases,
}
use uptime.Store.Rows.{MonitorMinute}
use uptime.Store.History.{Tally, merge, date_bin, add_tally, tally, binned, take_row}

-- The successes of a row, or its failures.
abbrev pub votes : Bool → Tally → ℕ
votes true t = t.successes
votes false t = t.failures

abbrev pub minute_votes : Bool → MonitorMinute → ℕ
minute_votes true m = m.successes
minute_votes false m = m.failures

abbrev pub tally_at : Bool → ℕ → List Tally → ℕ
tally_at b c [] = 0
tally_at b c (t ∷ ts) = (if t.start == c then votes b t else 0) + tally_at b c ts

votes-merge : (b : Bool) (t u : Tally) → votes b (merge t u) ≡ votes b t + votes b u
votes-merge true t u = refl
votes-merge false t u = refl

tally_at-add_tally :
    (b : Bool) (c : ℕ) (t : Tally) (us : List Tally)
    → tally_at b c (add_tally t us) ≡ (if t.start == c then votes b t else 0) + tally_at b c us
unfolding add_tally
tally_at-add_tally b c t [] = refl
tally_at-add_tally b c t (u ∷ us) = ground (arith, votes-merge b t u, tally_at-add_tally b c t us)

pub tally_at-tally :
    (b : Bool) (c : ℕ) (ts : List Tally) → tally_at b c (tally ts) ≡ tally_at b c ts
unfolding tally
tally_at-tally b c [] = refl
tally_at-tally b c (t ∷ ts) =
    ground (arith, tally_at-add_tally b c t (tally ts), tally_at-tally b c ts)

module _ (s : ℕ) (positive : 0 < s) where
  -- Rows at whole steps from c on, each later than the one before.
  abbrev pub Spaced : ℕ → List Tally → Type 0
  Spaced c [] = Unit {0}
  Spaced c (u ∷ us) = (j : ℕ) × (u.start ≡ c + j * s) × Spaced (u.start + s) us

  gap : (c i j x y : ℕ) → x ≡ c + i * s → y ≡ c + j * s → x < y → y ≡ x + s + (j - i - 1) * s
  gap c i j x y e e' h =
      let less : i < j = grind arith in
      let whole : j ≡ i + suc (j - i - 1) = omega (arith, less) in
      omega (arith, e, e', ap (λ n. n * s) whole)

  add_tally-Spaced :
      (c i : ℕ) (t : Tally) (us : List Tally)
      → t.start ≡ c + i * s
      → Spaced c us
      → Spaced c (add_tally t us)
  unfolding add_tally
  add_tally-Spaced c i t [] e sp = (i, e, tt)
  add_tally-Spaced c i t (u ∷ us) e (j, e', sp) = elim (Bool-cases (t.start == u.start)) [
    | inl same ↦ rw same (j, e', sp)
    | inr other ↦ rw other (elim (Bool-cases (ltb t.start u.start)) [
      | inl before ↦
          rw before (i, e, (j - i - 1, gap c i j t.start u.start e e' (ground arith), sp))
      | inr after ↦ rw after (
        j,
        e',
        add_tally-Spaced (u.start + s) (i - j - 1) t us
            (gap c j i u.start t.start e' e (ground arith)) sp,
      )
    ])
  ]

  pub tally-Spaced :
      (from : ℕ) (ms : List MonitorMinute) → Spaced from (tally (map (binned s from) ms))
  unfolding tally binned date_bin
  tally-Spaced from [] = tt
  tally-Spaced from (m ∷ ms) =
      add_tally-Spaced from ((m.minute_start - from) / s) (binned s from m)
        (tally (map (binned s from) ms)) refl (tally-Spaced from ms)

  -- A later row does not count.
  tally_at_later :
      (b : Bool) (c d : ℕ) (us : List Tally) → c < d → Spaced d us → tally_at b c us ≡ 0
  tally_at_later b c d [] h sp = refl
  tally_at_later b c d (u ∷ us) h (j, e, sp) =
      ground (arith, tally_at_later b c (u.start + s) us (omega arith) sp)

  -- The row that is taken is all that counts for its bucket, and the rest is that of the later
  -- ones.
  pub take_row_lem :
      (c : ℕ) (us : List Tally)
      → Spaced c us
      → ((take_row c us).0.0 ≡ tally_at true c us)
        × ((take_row c us).0.1 ≡ tally_at false c us)
        × Spaced (c + s) (take_row c us).1
  unfolding take_row
  take_row_lem c [] sp = (refl, refl, tt)
  take_row_lem c (u ∷ us) (zero, e, sp) =
      let here : u.start ≡ c = omega (arith, e) in
      let same : (u.start == c) ≡ true = ground arith in
      rw same (
        ground (arith, tally_at_later true c (u.start + s) us (omega (arith, here)) sp),
        ground (arith, tally_at_later false c (u.start + s) us (omega (arith, here)) sp),
        subst (λ x. Spaced (x + s) us) here sp,
      )
  take_row_lem c (u ∷ us) (suc j, e, sp) =
      let other : (u.start == c) ≡ false = ground arith in
      rw other (
        ground (arith, tally_at_later true c (u.start + s) us (omega arith) sp),
        ground (arith, tally_at_later false c (u.start + s) us (omega arith) sp),
        (j, omega arith, sp),
      )

  pub tally_at-take_row :
      (b : Bool) (c d : ℕ) (us : List Tally)
      → c < d
      → tally_at b d (take_row c us).1 ≡ tally_at b d us
  unfolding take_row
  tally_at-take_row b c d [] h = refl
  tally_at-take_row b c d (u ∷ us) h = ground arith
