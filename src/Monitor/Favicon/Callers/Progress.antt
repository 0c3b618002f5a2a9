-- ===== src/Monitor/Favicon/Callers/Progress.antt =====
-- Every call of get in backend/internal/monitor/favicon.go returns: a caller that has not returned
-- can take a step, and callers take only so many.
use uptime.Prelude.{
  ℕ, zero, suc, ◌+◌, ◌*◌, ◌≤◌, ◌<◌, ◌≡◌, ◌≢◌, refl, ap, ◌∙◌, inl, inr, ◌⊎◌, Bool, true, false, ◌||◌,
  [], Bytes, Bool-cases, arith, ◌==◌, ltb, if◌then◌else◌,
}
use uptime.Monitor.Favicon.{Fetcher, Lookup, hit, wait, call, look_up, complete}
use uptime.Monitor.Favicon.Callers.{
  Place, asking, passed, following, leading, fetching, fetched, done, returned, System, slot_limit,
  put, asked, checked, woken, Step, look, ask, wake, give_up, enter, leave, finish, abandon, Reach,
  here, step, expire, Fresh,
}
use uptime.Monitor.Favicon.Callers.Invariant.{
  leads, is_done, holds, put_same, put_other, put_alike, Looked, found, joined, called,
  look_up-Looked, Inv, Reach-Inv, Fresh-Inv,
}
use uptime.Monitor.Favicon.Callers.Totals.{total, total-one, total-pos}

-- A caller that has its result.
abbrev pub is_over : Place → Bool
is_over (done image retry) = true
is_over (returned image) = true
is_over _ = false

module _ (n : ℕ) (url : ℕ → Bytes) where
  -- Somebody can take a step.
  abbrev pub Moves : System → Type 0
  Moves s = (t : System) × Step n url s t

  lead-Moves : (s : System) (i : ℕ) → Inv n url s → i < n → leads (s.place i) ≡ true → Moves s
  lead-Moves s i v lt h = by_place (s.place i) refl h
    where
      by_place : (p : Place) → s.place i ≡ p → leads p ≡ true → Moves s
      by_place asking at h = cc
      by_place passed at h = cc
      by_place (following j) at h = cc
      by_place (done image retry) at h = cc
      by_place (returned image) at h = cc
      by_place fetching at h = (_, leave i [] false lt at)
      by_place (fetched image timed_out) at h = (_, finish i 0 0 image timed_out lt at)
      by_place leading at h = elim (Bool-cases (ltb s.used slot_limit)) [
        | inl room ↦ (_, enter i lt at (ground (arith, room)))
        | inr full ↦
            let (k, low, pos) =
              total-pos n (λ k. holds (s.place k)) (ground (arith, full, v.count)) in
            (_, leave k [] false low (ground (arith, pos)))
      ]

  pub moves : (s : System) (i : ℕ) → Inv n url s → i < n → is_over (s.place i) ≡ false → Moves s
  moves s i v lt h = by_place (s.place i) refl h
    where
      by_call :
          (j : ℕ) (q : Place)
          → j < n
          → s.place i ≡ following j
          → s.place j ≡ q
          → (leads q || is_done q) ≡ true
          → Moves s
      by_call j (done image retry) low at dj h = (_, wake i j image retry lt at dj)
      by_call j asking low at dj h = cc
      by_call j passed low at dj h = cc
      by_call j (following k) low at dj h = cc
      by_call j (returned image) low at dj h = cc
      by_call j leading low at dj h = lead-Moves s j v low (ap leads dj)
      by_call j fetching low at dj h = lead-Moves s j v low (ap leads dj)
      by_call j (fetched image timed_out) low at dj h = lead-Moves s j v low (ap leads dj)

      by_place : (p : Place) → s.place i ≡ p → is_over p ≡ false → Moves s
      by_place asking at h = (_, look i lt at)
      by_place passed at h = (_, ask i 0 lt at)
      by_place leading at h = lead-Moves s i v lt (ap leads at)
      by_place fetching at h = lead-Moves s i v lt (ap leads at)
      by_place (fetched image timed_out) at h = lead-Moves s i v lt (ap leads at)
      by_place (done image retry) at h = cc
      by_place (returned image) at h = cc
      by_place (following j) at h =
          let (low, known, same) = v.follow i j lt at in by_call j (s.place j) low at refl known

  -- How much a caller has before it, while the calls of others are done or not.
  abbrev weight : (ℕ → Place) → Place → ℕ
  weight place asking = 6 * n + 7
  weight place passed = 6 * n + 6
  weight place leading = 6 * n + 5
  weight place fetching = 6 * n + 4
  weight place (fetched image timed_out) = 6 * n + 3
  weight place (following j) = if is_done (place j) then 6 * n + 8 else 6 * n + 2
  weight place (done image retry) = 0
  weight place (returned image) = 0

  abbrev load : System → ℕ
  load s = total n (λ i. weight s.place (s.place i))

  total-below :
      (m : ℕ) (f g : ℕ → ℕ) → ((j : ℕ) → j < m → g j ≤ f j + 6) → total m g ≤ total m f + 6 * m
  unfolding total
  total-below zero f g near = omega arith
  total-below (suc m) f g near =
      omega (arith, total-below m f g (λ j lt. near j (omega (arith, lt))), near m (omega arith))

  total-rise :
      (m i : ℕ) (f g : ℕ → ℕ)
      → i < m
      → ((j : ℕ) → j ≢ i → g j ≤ f j + 6)
      → total m g + f i ≤ total m f + g i + 6 * m
  unfolding total
  total-rise zero i f g lt near = absurd (omega (arith, lt))
  total-rise (suc m) i f g lt near = elim (Bool-cases (i == m)) [
    | inl e ↦
        let at : i ≡ m = ground (arith, e) in
        rw at
          (omega (arith, total-below m f g (λ j below. near j (λ q. omega (arith, below, q, at)))))
    | inr e ↦
        omega (
          arith,
          total-rise m i f g (ground (arith, e, lt)) near,
          near m (λ q. ground (arith, e, q)),
        )
  ]

  weight_other :
      (i : ℕ) (p : Place) (place : ℕ → Place) (q : Place)
      → weight (put i p place) q ≤ weight place q + 6
  weight_other i p place asking = omega arith
  weight_other i p place passed = omega arith
  weight_other i p place leading = omega arith
  weight_other i p place fetching = omega arith
  weight_other i p place (fetched image timed_out) = omega arith
  weight_other i p place (done image retry) = omega arith
  weight_other i p place (returned image) = omega arith
  weight_other i p place (following k) = ground arith

  weight_local :
      (i : ℕ) (p : Place) (place : ℕ → Place) (q : Place)
      → is_done (place i) ≡ is_done p
      → weight (put i p place) q ≡ weight place q
  weight_local i p place asking e = refl
  weight_local i p place passed e = refl
  weight_local i p place leading e = refl
  weight_local i p place fetching e = refl
  weight_local i p place (fetched image timed_out) e = refl
  weight_local i p place (done image retry) e = refl
  weight_local i p place (returned image) e = refl
  weight_local i p place (following k) e = rw (put_alike is_done i k p place e) refl

  -- A step of one caller that completes no call.
  local_load :
      (s : System) (i : ℕ) (p : Place)
      → i < n
      → is_done (s.place i) ≡ is_done p
      → weight s.place p < weight s.place (s.place i)
      → total n (λ j. weight (put i p s.place) (put i p s.place j)) < load s
  local_load s i p lt e less = omega (
    arith,
    less,
    total-one n i (λ j. weight s.place (s.place j))
        (λ j. weight (put i p s.place) (put i p s.place j)) lt
        (λ j h.
          ap (weight (put i p s.place)) (put_other i j p s.place h)
          ∙ weight_local i p s.place (s.place j) e),
    ap (weight (put i p s.place)) (put_same i p s.place),
    weight_local i p s.place p e,
  )

  finished_load :
      (s : System) (i : ℕ) (image : Bytes) (retry : Bool)
      → i < n
      → leads (s.place i) ≡ true
      → total n
          (λ j. weight (put i (done image retry) s.place) (put i (done image retry) s.place j))
        < load s
  finished_load s i image retry lt h = omega (
    arith,
    total-rise n i (λ j. weight s.place (s.place j))
        (λ j. weight (put i (done image retry) s.place) (put i (done image retry) s.place j)) lt
        (λ j o.
          rw (put_other i j (done image retry) s.place o)
            (weight_other i (done image retry) s.place (s.place j))),
    ap (weight (put i (done image retry) s.place)) (put_same i (done image retry) s.place),
    heavy (s.place i) h,
  )
    where
      heavy : (p : Place) → leads p ≡ true → 6 * n + 3 ≤ weight s.place p
      heavy p l = ground arith

  load-asked :
      (s : System) (i : ℕ) (r : Lookup × Fetcher)
      → Inv n url s
      → i < n
      → s.place i ≡ passed
      → Looked (url i) s.fetcher r
      → load (asked i (url i) s r) < load s
  load-asked s i (hit image, f) v lt at (found _) =
      local_load s i (returned image) lt (ap is_done at) (omega (arith, ap (weight s.place) at))
  load-asked s i (wait, f) v lt at (joined there) =
      let (low, leading_one, own_url) = v.led (url i) there in
      local_load s i (following (s.owner (url i))) lt (ap is_done at)
        (omega (arith, ap (weight s.place) at, undone (s.place (s.owner (url i))) leading_one))
    where
      undone :
          (q : Place) → leads q ≡ true → (if is_done q then 6 * n + 8 else 6 * n + 2) ≤ 6 * n + 2
      undone q l = ground arith
  load-asked s i (call, f) v lt at (called free) =
      local_load s i leading lt (ap is_done at) (omega (arith, ap (weight s.place) at))

  step_load : {s t : System} → Step n url s t → Inv n url s → load t < load s
  unfolding complete
  step_load {s = s} (look i lt at) v =
      local_load s i (checked (s.ended i) passed) lt (ground (arith, at))
        (ground (arith, ap (weight s.place) at))
  step_load {s = s} (ask i now lt at) v =
      load-asked s i (look_up now (url i) s.fetcher) v lt at (look_up-Looked now (url i) s.fetcher)
  step_load {s = s} (wake i j image retry lt at ended) v =
      local_load s i (checked (s.ended i) (woken image retry)) lt (ground (arith, at))
        (ground (arith, ap (weight s.place) at, ap is_done ended))
  step_load {s = s} (give_up i j lt at over) v =
      local_load s i (returned []) lt (ap is_done at) (ground (arith, ap (weight s.place) at))
  step_load {s = s} (enter i lt at room) v =
      local_load s i fetching lt (ap is_done at) (omega (arith, ap (weight s.place) at))
  step_load {s = s} (leave i image timed_out lt at) v =
      local_load s i (fetched image timed_out) lt (ap is_done at)
        (omega (arith, ap (weight s.place) at))
  step_load {s = s} (finish i now k image timed_out lt at) v =
      finished_load s i image (s.ended i) lt (ap leads at)
  step_load {s = s} (abandon i now k lt at over) v =
      finished_load s i [] (s.ended i) lt (ap leads at)

  -- The steps of callers on the way.
  unfoldable pub steps : {s t : System} → Reach n url s t → ℕ
  steps here = 0
  steps (step r st) = steps r + 1
  steps (expire i r) = steps r

  load-steps : {s t : System} (r : Reach n url s t) → Inv n url s → steps r + load t ≤ load s
  unfolding steps
  load-steps here v = omega arith
  load-steps (step r st) v = omega (arith, load-steps r v, step_load st (Reach-Inv n url r v))
  load-steps (expire i r) v = load-steps r v

  Fresh-load :
      (m : ℕ) (s : System)
      → Fresh n url s
      → total m (λ i. weight s.place (s.place i)) ≡ m * (6 * n + 7)
  unfolding total
  Fresh-load zero s f = omega arith
  Fresh-load (suc m) s f = omega (arith, Fresh-load m s f, ap (weight s.place) (f.2 m))

  -- from a moment when none of n callers of get has asked yet and no call is in flight, whatever
  -- the cache holds, in whatever order their steps come and whenever their contexts end, whatever
  -- the fetches find and however long they take: they make at most n(6n+7) steps together, and
  -- while one of them has not its result, one of them can make a step.
  pub callers_return :
      (s t : System)
      → Fresh n url s
      → (r : Reach n url s t) → (i : ℕ) → i < n
      → (steps r ≤ n * (6 * n + 7)) × ((is_over (t.place i) ≡ true) ⊎ Moves t)
  callers_return s t f r i lt =
      let v = Fresh-Inv n url s f in
      (
        omega (arith, load-steps r v, Fresh-load n s f),
        elim (Bool-cases (is_over (t.place i))) [
          | inl e ↦ inl e
          | inr e ↦ inr (moves t i (Reach-Inv n url r v) lt e)
        ],
      )
