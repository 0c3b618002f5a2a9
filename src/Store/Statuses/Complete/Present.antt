-- ===== src/Store/Statuses/Complete/Present.antt =====
-- Where every monitor has its state, the statuses of a user's own monitors are found.
use uptime.Prelude.{
  ℕ, ◌≡◌, refl, ap, sym, ◌∙◌, Bool, true, false, ◌||◌, Option, none, some, List, [], ◌∷◌, ◌++◌, map,
  length, All, All-mono, All-In, In-All, arith, select, place, order_by, ◌==◌,
}
use uptime.Store.Rows.{Monitor, MonitorState, Db}
use uptime.Store.Exec.{ok, World, all_fine}
use uptime.Store.Checks.{find_state}
use uptime.Store.Accounts.{is_some}
use uptime.Store.Monitors.{newer}
use uptime.Store.Statuses.{
  one_of, MonitorStatus, status_row, add_status, status_rows, monitor_statuses,
}
use uptime.Store.Statuses.Complete.{
  distinct, pigeons, one_of-In, rows, rows-distinct, rows-All, length-ids, Asked,
}

abbrev pub Unique : List Monitor → Type 0
Unique ms = distinct (map Monitor.id ms) ≡ true

abbrev pub mine : ℕ → Monitor → Bool
mine user m = m.user_id == user

abbrev pub HasState : Db → Monitor → Type 0
HasState db m = is_some (find_state m.id db) ≡ true

module _ (now user : ℕ) (ids : List ℕ) (db : Db) where
  added :
      (m : Monitor) (o : Option MonitorState) (rest : List MonitorStatus)
      → is_some o ≡ true
      → (s : MonitorState) × (add_status now m o rest ≡ status_row now m s ∷ rest)
  added m none rest h = absurd (ground arith)
  added m (some s) rest h = (s, refl)

  rows-has :
      (x : ℕ) (ms : List Monitor)
      → All (HasState db) ms
      → one_of x ids ≡ true
      → one_of x (map Monitor.id (select (mine user) ms)) ≡ true
      → one_of x (map MonitorStatus.id (status_rows now user ids db ms)) ≡ true
  unfolding status_rows one_of select
  rows-has x [] h asked own = own
  rows-has x (m ∷ ms) h asked own =
      let rest = status_rows now user ids db ms in
      let (s, e) = added m (find_state m.id db) rest h.0 in
      ground (
        arith,
        e,
        ap (λ i. one_of i ids) {x = x} {y = m.id},
        ap (λ r. one_of x (map MonitorStatus.id r)) e,
        rows-has x ms h.1 asked,
      )

-- Each of these identities is of a monitor of the user.
abbrev pub Own : ℕ → List Monitor → ℕ → Type 0
Own user ms x = one_of x (map Monitor.id (select (mine user) ms)) ≡ true

pub statuses_found :
    (now user : ℕ) (ids : List ℕ) (w : World)
    → Unique w.db.monitors
    → All (HasState w.db) w.db.monitors
    → distinct ids ≡ true
    → All (Own user w.db.monitors) ids
    → (ss : List MonitorStatus) × ((monitor_statuses now user ids all_fine w).0 ≡ ok ss)
      × ((monitor_statuses now user ids all_fine w).1.db ≡ w.db)
unfolding monitor_statuses rows
statuses_found now user [] w u h d own = ([], refl, refl)
statuses_found now user (id ∷ ids) w u h d own =
    let asked = id ∷ ids in
    let found = rows now user asked w.db w.db.monitors in
    let fewer =
      pigeons (map MonitorStatus.id found) asked (rows-distinct now user asked w.db w.db.monitors u)
        (All-mono (Asked now user asked w.db w.db.monitors) (λ x. one_of x asked ≡ true)
          (λ x a. a.0) (map MonitorStatus.id found) (rows-All now user asked w.db w.db.monitors)) in
    let more = pigeons asked (map MonitorStatus.id found) d (
      All-In (λ x. one_of x (map MonitorStatus.id found) ≡ true) asked
        (λ x i.
          rows-has now user asked w.db x w.db.monitors h (one_of-In x asked i)
            (In-All (Own user w.db.monitors) asked x own i))) in
    let same : (length found == length asked) ≡ true =
      ground (arith, fewer, more, length-ids found) in
    (found, rw same refl, refl)

-- Lists of monitors without two of one identity.
one_of-append :
    (x : ℕ) (ms ns : List Monitor)
    → one_of x (map Monitor.id (ms ++ ns))
      ≡ (one_of x (map Monitor.id ms) || one_of x (map Monitor.id ns))
unfolding one_of
one_of-append x [] ns = refl
one_of-append x (m ∷ ms) ns = ground (arith, one_of-append x ms ns)

pub Unique-right : (ms ns : List Monitor) → Unique (ms ++ ns) → Unique ns
Unique-right [] ns u = u
Unique-right (m ∷ ms) ns u = Unique-right ms ns (ground arith)

pub Unique-left : (ms ns : List Monitor) → Unique (ms ++ ns) → Unique ms
Unique-left [] ns u = refl
Unique-left (m ∷ ms) ns u = ground (arith, one_of-append m.id ms ns, Unique-left ms ns)

one_of-place :
    (x : ℕ) (m : Monitor) (ms : List Monitor)
    → one_of x (map Monitor.id (place newer m ms)) ≡ ((x == m.id) || one_of x (map Monitor.id ms))
unfolding one_of place
one_of-place x m [] = refl
one_of-place x m (n ∷ ns) = ground (arith, one_of-place x m ns)

Unique-place : (m : Monitor) (ms : List Monitor) → Unique (m ∷ ms) → Unique (place newer m ms)
unfolding place one_of
Unique-place m [] u = u
Unique-place m (n ∷ ns) u = ground (arith, one_of-place n.id m ns, Unique-place m ns)

one_of-order_by :
    (x : ℕ) (ms : List Monitor)
    → one_of x (map Monitor.id (order_by newer ms)) ≡ one_of x (map Monitor.id ms)
unfolding order_by one_of
one_of-order_by x [] = refl
one_of-order_by x (m ∷ ms) =
    ground (arith, one_of-place x m (order_by newer ms), one_of-order_by x ms)

Unique-order_by : (ms : List Monitor) → Unique ms → Unique (order_by newer ms)
unfolding order_by
Unique-order_by [] u = u
Unique-order_by (m ∷ ms) u =
    Unique-place m (order_by newer ms) (ground (arith, one_of-order_by m.id ms, Unique-order_by ms))

one_of-select :
    (x : ℕ) (p : Monitor → Bool) (ms : List Monitor)
    → one_of x (map Monitor.id (select p ms)) ≡ true
    → one_of x (map Monitor.id ms) ≡ true
unfolding select one_of
one_of-select x p [] h = h
one_of-select x p (m ∷ ms) h = ground (arith, one_of-select x p ms)

Unique-select : (p : Monitor → Bool) (ms : List Monitor) → Unique ms → Unique (select p ms)
unfolding select
Unique-select p [] u = u
Unique-select p (m ∷ ms) u = ground (arith, one_of-select m.id p ms, Unique-select p ms)

-- The list that pages show, of a table.
abbrev pub listed : ℕ → List Monitor → List Monitor
listed user ms = order_by newer (select (mine user) ms)

pub listed-Unique : (user : ℕ) (ms : List Monitor) → Unique ms → Unique (listed user ms)
listed-Unique user ms u = Unique-order_by (select (mine user) ms) (Unique-select (mine user) ms u)

pub listed-Own :
    (user : ℕ) (ms : List Monitor) → All (Own user ms) (map Monitor.id (listed user ms))
listed-Own user ms = All-In (Own user ms) (map Monitor.id (listed user ms)) (λ x i.
    sym (one_of-order_by x (select (mine user) ms))
    ∙ one_of-In x (map Monitor.id (listed user ms)) i)

pub other_ids :
    (m : Monitor) (ms : List Monitor) → Unique (m ∷ ms) → All (λ b. (b.id == m.id) ≡ false) ms
unfolding one_of
other_ids m [] u = tt
other_ids m (n ∷ ns) u = (ground arith, other_ids m ns (ground arith))
