-- ===== src/Store/History/Windows.antt =====
-- A history of CheckHistory as a whole: its window, its buckets and its totals.
use uptime.Prelude.{
  ℕ, ◌+◌, ◌-◌, ◌*◌, ◌/◌, ◌%◌, ◌≤◌, ◌<◌, ◌≡◌, inl, inr, refl, ◌∙◌, Bool, true, false, List, [], ◌∷◌,
  map, All, All-mono, select, sum_of, arith, Bytes,
}
use uptime.Store.Exec.{ok}
use uptime.Store.Rows.{MonitorMinute, minute}
use uptime.Store.History.{
  inward, tally, in_window, binned, history_rows, HistoryBucket, fill, history_window, history_at,
}
use uptime.Store.History.Counts.{tally_at, tally_at-tally, tally-Spaced}
use uptime.Store.History.Buckets.{
  Tiles, Window, history_window-Window, fill-Tiles, Counted, fill-Counted, counted, OnMinute,
  clipped, end_of, rows_counted,
}

whole_steps : (d s : ℕ) → Window (d, s) → d / s * s ≡ d
whole_steps d s (inl (d_is, s_is)) = rw (d_is, s_is) refl
whole_steps d s (inr (inl (d_is, s_is))) = rw (d_is, s_is) refl
whole_steps d s (inr (inr (inl (d_is, s_is)))) = rw (d_is, s_is) refl
whole_steps d s (inr (inr (inr (d_is, s_is)))) = rw (d_is, s_is) refl

Window_lem :
    (d s now : ℕ)
    → Window (d, s)
    → d ≤ now
    → (0 < s) × (inward (now - d) ≤ now) × (now ≤ inward (now - d) + d / s * s)
Window_lem d s now w h =
    let e = whole_steps d s w in (ground arith, ground arith, ground (arith, e))

-- for a period that HistoryWindow knows, read at least that period after 1970, the buckets of a
-- history follow one another without gap or overlap from its start to the moment of reading, none
-- longer than a step; the start is a whole minute, at most a period back and less than a minute
-- short of it.
pub history_at-Tiles :
    (period : Bytes) (d s now version id : ℕ) (minutes : List MonitorMinute)
    → history_window period ≡ ok (d, s)
    → d ≤ now
    → let h = history_at (d, s) now version id minutes in
      (now ≤ h.from + d)
      × (h.from + d < now + minute)
      × (h.from % minute ≡ 0)
      × Tiles s h.from now h.buckets
unfolding history_at
history_at-Tiles period d s now version id minutes p h =
    let w = history_window-Window period d s p in
    let facts = Window_lem d s now w h in
    (
      ground arith,
      ground arith,
      ground arith,
      fill-Tiles s facts.0 now (d / s) (inward (now - d))
          (history_rows s id (inward (now - d)) now minutes) facts.1 facts.2,
    )

abbrev pub IsCounted : ℕ → List MonitorMinute → HistoryBucket → Type 0
IsCounted id minutes x =
    (x.successes ≡ counted true id x.start x.finish minutes)
    × (x.failures ≡ counted false id x.start x.finish minutes)

-- for such a period and minutes that start on whole minutes, each bucket of a history counts
-- exactly the successes and failures of the minutes of that monitor that start within the bucket.
pub history_at-IsCounted :
    (period : Bytes) (d s now version id : ℕ) (minutes : List MonitorMinute)
    → history_window period ≡ ok (d, s)
    → d ≤ now
    → All OnMinute minutes
    → All (IsCounted id minutes) (history_at (d, s) now version id minutes).buckets
unfolding history_at history_rows
history_at-IsCounted period d s now version id minutes p h on =
    let w = history_window-Window period d s p in
    let facts = Window_lem d s now w h in
    let from = inward (now - d) in
    let ts = map (binned s from) (select (in_window id from now) minutes) in
    let count : Bool → ℕ → ℕ = λ b c. tally_at b c (tally ts) in
    All-mono (Counted s facts.0 now count from) (IsCounted id minutes)
      (λ x (k, e, open_bucket, fin, successes, failures). (
        successes ∙ exact true x.start x.finish k e open_bucket fin,
        failures ∙ exact false x.start x.finish k e open_bucket fin,
      ))
      (fill (d / s) s now from (tally ts))
      (fill-Counted s facts.0 now count from (d / s) 0 from (tally ts) (omega arith)
        (tally-Spaced s facts.0 from (select (in_window id from now) minutes)) (λ b c l. refl))
  where
    exact :
        (b : Bool) (start finish k : ℕ)
        → start ≡ inward (now - d) + k * s
        → start < now
        → finish ≡ end_of now start s
        → tally_at b start (history_rows s id (inward (now - d)) now minutes)
          ≡ counted b id start finish minutes
    exact b start finish k e l fin =
        let w = history_window-Window period d s p in
        rw (fin, e)
          (tally_at-tally b (inward (now - d) + k * s) (
              map (binned s (inward (now - d)))
                (select (in_window id (inward (now - d)) now) minutes))
            ∙ rows_counted s (Window_lem d s now w h).0 id (inward (now - d)) now k (omega arith)
                (λ g z. clipped d s now k w h (omega arith) g z) b minutes on)

counted_split :
    (b : Bool) (id lo mid hi : ℕ) (minutes : List MonitorMinute)
    → lo ≤ mid
    → mid ≤ hi
    → counted b id lo hi minutes ≡ counted b id lo mid minutes + counted b id mid hi minutes
unfolding select
counted_split b id lo mid hi [] h h' = refl
counted_split b id lo mid hi (m ∷ ms) h h' = ground (arith, counted_split b id lo mid hi ms h h')

counted_none :
    (b : Bool) (id lo : ℕ) (minutes : List MonitorMinute) → counted b id lo lo minutes ≡ 0
unfolding select
counted_none b id lo [] = refl
counted_none b id lo (m ∷ ms) = ground (arith, counted_none b id lo ms)

-- The counts of buckets that tile a window add up to those of the window.
Tiles-counted :
    (b : Bool) (s id lo hi : ℕ) (field : HistoryBucket → ℕ) (minutes : List MonitorMinute)
    (xs : List HistoryBucket)
    → Tiles s lo hi xs
    → All (λ (x : HistoryBucket). field x ≡ counted b id x.start x.finish minutes) xs
    → (lo ≤ hi) × (sum_of field xs ≡ counted b id lo hi minutes)
Tiles-counted b s id lo hi field minutes [] t e =
    (omega arith, rw (t, counted_none b id hi minutes) refl)
Tiles-counted b s id lo hi field minutes (x ∷ xs) (start_is, l, l', t) (e, es) =
    let (h, rest) = Tiles-counted b s id x.finish hi field minutes xs t es in
    (
      omega (arith, h),
      ground (arith, rest, e, start_is, counted_split b id lo x.finish hi minutes (omega arith) h),
    )

-- for such a period and minutes that start on whole minutes, the totals of a history are the
-- successes and failures of all minutes of that monitor from the start of the window up to the
-- moment of reading: no observation is lost between buckets or counted twice.
pub history_at_total :
    (period : Bytes) (d s now version id : ℕ) (minutes : List MonitorMinute)
    → history_window period ≡ ok (d, s)
    → d ≤ now
    → All OnMinute minutes
    → let h = history_at (d, s) now version id minutes in
      (h.successes ≡ counted true id h.from now minutes)
      × (h.failures ≡ counted false id h.from now minutes)
unfolding history_at
history_at_total period d s now version id minutes p h on =
    let t = (history_at-Tiles period d s now version id minutes p h).3 in
    let e = history_at-IsCounted period d s now version id minutes p h on in
    let from = inward (now - d) in
    let xs = (history_at (d, s) now version id minutes).buckets in
    (
      (Tiles-counted true s id from now HistoryBucket.successes minutes xs t (
          All-mono (IsCounted id minutes)
            (λ x. x.successes ≡ counted true id x.start x.finish minutes) (λ x c. c.0) xs e)).1,
      (Tiles-counted false s id from now HistoryBucket.failures minutes xs t (
          All-mono (IsCounted id minutes)
            (λ x. x.failures ≡ counted false id x.start x.finish minutes) (λ x c. c.1) xs e)).1,
    )
