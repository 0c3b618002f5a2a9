-- ===== src/Store/Statuses/Complete.antt =====
-- Which monitors the statuses are of.
pub mod Present
use uptime.Prelude.{
  ℕ, ◌≤◌, ◌<◌, ◌≡◌, refl, Bool, true, false, not, ◌&&◌, Option, none, some, List, [], ◌∷◌, map,
  length, All, All-mono, All-In, In, delete, arith, ap, subst, ◌⊎◌, select, ◌==◌, if◌then◌else◌,
  Bool-cases, inl, inr,
}
use uptime.Store.Rows.{Monitor, MonitorState, Db}
use uptime.Store.Exec.{
  ok-injective, Result, ok, err, Fates, Fate, World, query_at, fine, failing, lost,
  record_not_found,
}
use uptime.Store.Checks.{find_state}
use uptime.Store.Statuses.{
  one_of, MonitorStatus, status_row, add_status, status_rows, monitor_statuses,
}

abbrev pub distinct : List ℕ → Bool
distinct [] = true
distinct (x ∷ xs) = not (one_of x xs) && distinct xs

abbrev without : ℕ → List ℕ → List ℕ
without a xs = delete (λ x. x == a) xs

one_of-without : (a x : ℕ) (xs : List ℕ) → one_of x (without a xs) ≡ (one_of x xs && not (x == a))
unfolding delete one_of
one_of-without a x [] = ground arith
one_of-without a x (y ∷ ys) = ground (arith, one_of-without a x ys)

length-without : (a : ℕ) (xs : List ℕ) → length (without a xs) ≤ length xs
unfolding delete one_of
length-without a [] = omega arith
length-without a (y ∷ ys) = ground (arith, length-without a ys)

length-without-one_of :
    (a : ℕ) (xs : List ℕ) → one_of a xs ≡ true → length (without a xs) < length xs
unfolding delete one_of
length-without-one_of a [] h = ground arith
length-without-one_of a (y ∷ ys) h = ground (arith, length-without a ys, length-without-one_of a ys)

others : (a : ℕ) (xs : List ℕ) → one_of a xs ≡ false → All (λ x. (x == a) ≡ false) xs
unfolding one_of
others a [] h = tt
others a (x ∷ xs) h = (ground arith, others a xs (ground arith))

apart_zip :
    (x : ℕ) (ys zs : List ℕ)
    → All (λ z. (z == x) ≡ false) zs
    → All (λ z. one_of z ys ≡ true) zs
    → All (λ z. one_of z (without x ys) ≡ true) zs
apart_zip x ys [] p q = tt
apart_zip x ys (z ∷ zs) p q =
    (ground (arith, one_of-without x z ys, p.0, q.0), apart_zip x ys zs p.1 q.1)

-- Distinct members of a list are not more than the list has.
pigeons :
    (xs ys : List ℕ) → distinct xs ≡ true → All (λ x. one_of x ys ≡ true) xs → length xs ≤ length ys
pigeons [] ys d m = omega arith
pigeons (x ∷ xs) ys d m =
    let apart = others x xs (ground arith) in
    let rest = pigeons xs (without x ys) (ground arith) (apart_zip x ys xs apart m.1) in
    omega (arith, rest, length-without-one_of x ys m.0)

one_of-In : (a : ℕ) (xs : List ℕ) → In a xs → one_of a xs ≡ true
unfolding one_of
one_of-In a [] m = absurd m
one_of-In a (x ∷ xs) (inl e) = ground arith
one_of-In a (x ∷ xs) (inr m) = ground (arith, one_of-In a xs m)

-- As many distinct members as the list has are all of them.
all_present :
    (xs ys : List ℕ)
    → distinct xs ≡ true
    → All (λ x. one_of x ys ≡ true) xs
    → length xs ≡ length ys
    → All (λ y. one_of y xs ≡ true) ys
all_present xs ys d m e =
    All-In (λ y. one_of y xs ≡ true) ys
      (λ a h. elim (Bool-cases (one_of a xs)) [
        | inl present ↦ present
        | inr missing ↦
            let few = pigeons xs (without a ys) d (apart_zip a ys xs (others a xs missing) m) in
            absurd (omega (arith, few, e, length-without-one_of a ys (one_of-In a ys h)))
      ])

module _ (now user : ℕ) (ids : List ℕ) (db : Db) where
  rows : List Monitor → List MonitorStatus
  rows ms = status_rows now user ids db ms

  add_cases :
      (m : Monitor) (o : Option MonitorState) (rest : List MonitorStatus)
      → (add_status now m o rest ≡ rest)
        ⊎ ((s : MonitorState) × (add_status now m o rest ≡ status_row now m s ∷ rest))
  add_cases m none rest = inl refl
  add_cases m (some s) rest = inr (s, refl)

  rows_cases :
      (m : Monitor) (ms : List Monitor)
      → (rows (m ∷ ms) ≡ rows ms)
        ⊎ ((s : MonitorState) × (rows (m ∷ ms) ≡ status_row now m s ∷ rows ms)
            × ((m.user_id == user) ≡ true)
            × (one_of m.id ids ≡ true))
  unfolding rows status_rows
  rows_cases m ms = elim (Bool-cases ((m.user_id == user) && one_of m.id ids)) [
    | inl e ↦ elim (add_cases m (find_state m.id db) (rows ms)) [
      | inl same ↦ inl (rw e same)
      | inr (s, more) ↦ inr (s, rw e more, ground arith, ground arith)
    ]
    | inr e ↦ inl (rw e refl)
  ]

  rows-one_of :
      (x : ℕ) (ms : List Monitor)
      → one_of x (map MonitorStatus.id (rows ms)) ≡ true
      → one_of x (map Monitor.id ms) ≡ true
  unfolding rows status_rows one_of
  rows-one_of x [] h = h
  rows-one_of x (m ∷ ms) h = elim (rows_cases m ms) [
    | inl e ↦ ground (arith, ap (λ r. one_of x (map MonitorStatus.id r)) e, rows-one_of x ms)
    | inr (s, e, own, asked) ↦
        ground (arith, ap (λ r. one_of x (map MonitorStatus.id r)) e, rows-one_of x ms)
  ]

  rows-distinct :
      (ms : List Monitor)
      → distinct (map Monitor.id ms) ≡ true
      → distinct (map MonitorStatus.id (rows ms)) ≡ true
  unfolding rows status_rows
  rows-distinct [] h = h
  rows-distinct (m ∷ ms) h = elim (rows_cases m ms) [
    | inl e ↦ ground (arith, ap (λ r. distinct (map MonitorStatus.id r)) e, rows-distinct ms)
    | inr (s, e, own, asked) ↦ ground (
      arith,
      ap (λ r. distinct (map MonitorStatus.id r)) e,
      rows-distinct ms,
      rows-one_of m.id ms,
    )
  ]

  -- Every status is of a monitor that was asked for, of the user.
  abbrev pub Asked : List Monitor → ℕ → Type 0
  Asked ms x =
      (one_of x ids ≡ true)
      × (one_of x (map Monitor.id (select (λ m. m.user_id == user) ms)) ≡ true)

  rows-All : (ms : List Monitor) → All (Asked ms) (map MonitorStatus.id (rows ms))
  unfolding rows status_rows one_of select
  rows-All [] = tt
  rows-All (m ∷ ms) =
      let kept =
        All-mono (Asked ms) (Asked (m ∷ ms)) (λ x a. (a.0, ground (arith, a.1)))
          (map MonitorStatus.id (rows ms)) (rows-All ms) in
      elim (rows_cases m ms) [
        | inl e ↦ rw e kept
        | inr (s, e, own, asked) ↦ rw e ((asked, ground arith), kept)
      ]

length-ids : (ss : List MonitorStatus) → length (map MonitorStatus.id ss) ≡ length ss
length-ids [] = refl
length-ids (s ∷ ss) = ground (arith, length-ids ss)

abbrev pub Answers : ℕ → List ℕ → Db → List MonitorStatus → Type 0
Answers user ids db ss =
    All (λ id. one_of id (map MonitorStatus.id ss) ≡ true) ids
    × All
        (λ x.
          (one_of x ids ≡ true)
          × (one_of x (map Monitor.id (select (λ m. m.user_id == user) db.monitors)) ≡ true))
        (map MonitorStatus.id ss)

-- where monitors have distinct identities, MonitorStatuses that succeeds returns a status for
-- every identity that is asked for, and only for those, each of a monitor of that user.
pub monitor_statuses-Answers :
    (now user : ℕ) (ids : List ℕ) (fs : Fates) (w : World) (ss : List MonitorStatus)
    → distinct (map Monitor.id w.db.monitors) ≡ true
    → (monitor_statuses now user ids fs w).0 ≡ ok ss
    → Answers user ids w.db ss
unfolding monitor_statuses rows
monitor_statuses-Answers now user [] fs w ss d h = let e = ok-injective [] ss h in rw (← e) (tt, tt)
monitor_statuses-Answers now user (id ∷ ids) fs w ss d h = by_fate (fs w.tick) h
  where
    found : List MonitorStatus
    found = status_rows now user (id ∷ ids) w.db w.db.monitors

    answer : Db → Result (List MonitorStatus)
    answer db =
        let rows = status_rows now user (id ∷ ids) db db.monitors in
        if length rows == length (id ∷ ids) then ok rows else err record_not_found

    checked : answer w.db ≡ ok ss → Answers user (id ∷ ids) w.db ss
    checked e = elim (Bool-cases (length found == length (id ∷ ids))) [
      | inl same ↦
          let these : found ≡ ss = ground (arith, e) in
          subst (Answers user (id ∷ ids) w.db) these (
            all_present (map MonitorStatus.id found) (id ∷ ids)
                (rows-distinct now user (id ∷ ids) w.db w.db.monitors d)
                (All-mono (Asked now user (id ∷ ids) w.db w.db.monitors)
                  (λ x. one_of x (id ∷ ids) ≡ true) (λ x a. a.0) (map MonitorStatus.id found)
                  (rows-All now user (id ∷ ids) w.db w.db.monitors))
                (ground (arith, length-ids found, same)),
            rows-All now user (id ∷ ids) w.db w.db.monitors,
          )
      | inr other ↦ ground (arith, e)
    ]

    by_fate : (f : Fate) → (query_at f answer w).0 ≡ ok ss → Answers user (id ∷ ids) w.db ss
    by_fate fine e = checked e
    by_fate failing e = ground arith
    by_fate lost e = ground arith
