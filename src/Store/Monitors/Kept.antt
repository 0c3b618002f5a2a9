-- ===== src/Store/Monitors/Kept.antt =====
-- A property of every monitor in the database, kept by the operations on monitors.
use uptime.Prelude.{
  ℕ, Bool, true, false, not, Option, none, some, List, [], ◌∷◌, All, All-append, ◌==◌, inl, inr,
  Bool-cases, update-All, delete, bytes_eq,
}
use uptime.Store.Rows.{Db, Monitor}
use uptime.Store.Accounts.{is_some, find_user}
use uptime.Store.Checks.{find_monitor, find_state, update_state}
use uptime.Store.Exec.{Result, ok, err, record_not_found, ◌>>◌, or_not_found, query, write}
use uptime.Store.Exec.Keeps.{
  OnOk, Keeps, read-Keeps, write-Keeps, alone-Keeps, transaction-Keeps, bind-Keeps, then-Keeps,
}
use uptime.Store.Monitors.{
  owned, insert_monitor, insert_state, create_monitor, set_configuration, clear_history,
  reconfigured, reschedule, update_monitor, removed, delete_monitor,
}

module _ {A : Type 0} (P : A → Type 0) where
  pub delete-All : (test : A → Bool) (xs : List A) → All P xs → All P (delete test xs)
  unfolding delete
  delete-All test [] h = h
  delete-All test (x ∷ xs) h = elim (Bool-cases (test x)) [
    | inl e ↦ rw e (delete-All test xs h.1)
    | inr e ↦ rw e (h.0, delete-All test xs h.1)
  ]

module _ (P : Monitor → Type 0) where
  abbrev pub Each : Db → Type 0
  Each db = All P db.monitors

  abbrev pub Done : Unit {0} → Type 0
  Done u = Unit

  insert-Each :
      (m : Monitor) (db : Db)
      → P m
      → Each db
      → OnOk Each Done (insert_monitor m db).0 × Each (insert_monitor m db).1
  unfolding insert_monitor
  insert-Each m db p h = elim (Bool-cases (is_some (find_monitor m.id db))) [
    | inl taken ↦ rw taken (tt, h)
    | inr free ↦ rw free (elim (Bool-cases (is_some (find_user m.user_id db))) [
      | inl user ↦ rw user (tt, All-append P db.monitors (m ∷ []) h (p, tt))
      | inr nobody ↦ rw nobody (tt, h)
    ])
  ]

  insert_state-Each :
      (id now : ℕ) (db : Db)
      → Each db
      → OnOk Each Done (insert_state id now db).0 × Each (insert_state id now db).1
  unfolding insert_state
  insert_state-Each id now db h = elim (Bool-cases (is_some (find_state id db))) [
    | inl taken ↦ rw taken (tt, h)
    | inr free ↦ rw free (tt, h)
  ]

  pub create_monitor-Each : (now : ℕ) (m : Monitor) → P m → Keeps Each Done (create_monitor now m)
  unfolding create_monitor
  create_monitor-Each now m p = transaction-Keeps Each Done _ (
      then-Keeps Each Done (write (insert_monitor m)) (write (insert_state m.id now))
        (write-Keeps Each Done (insert_monitor m) (λ db h. insert-Each m db p h))
        (write-Keeps Each Done (insert_state m.id now) (λ db h. insert_state-Each m.id now db h)))

  reschedule-Each : (id now : ℕ) (b : Bool) → Keeps Each Done (reschedule id now b)
  unfolding reschedule clear_history
  reschedule-Each id now true =
      then-Keeps Each Done (write (λ db. (ok tt, clear_history id db)))
        (write (λ db. (ok tt, update_state id (reconfigured now true) db)))
        (write-Keeps Each Done (λ db. (ok tt, clear_history id db)) (λ db h. (tt, h)))
        (write-Keeps Each Done (λ db. (ok tt, update_state id (reconfigured now true) db))
          (λ db h. (tt, h)))
  reschedule-Each id now false =
      write-Keeps Each Done (λ db. (ok tt, update_state id (reconfigured now false) db))
        (λ db h. (tt, h))

  pub update_monitor-Each :
      (now : ℕ) (m : Monitor)
      → ((x : Monitor) → P x → P (record x { url = m.url; interval_seconds = m.interval_seconds }))
      → Keeps Each Done (update_monitor now m)
  unfolding update_monitor set_configuration
  update_monitor-Each now m edit = transaction-Keeps Each Done _ (
      bind-Keeps Each (λ previous. Unit) Done (query (λ db. or_not_found (owned m.id m.user_id db)))
        (λ previous.
          write (λ db. (ok tt, set_configuration m.id m.url m.interval_seconds db))
          >> reschedule m.id now (not (bytes_eq previous.url m.url)))
        (read-Keeps Each (λ db. or_not_found (owned m.id m.user_id db)))
        (λ previous p.
          then-Keeps Each Done
            (write (λ db. (ok tt, set_configuration m.id m.url m.interval_seconds db)))
            (reschedule m.id now (not (bytes_eq previous.url m.url)))
            (write-Keeps Each Done
              (λ db. (ok tt, set_configuration m.id m.url m.interval_seconds db))
              (λ db h. (
                tt,
                update-All P P (λ x. x.id == m.id)
                    (λ x. record x { url = m.url; interval_seconds = m.interval_seconds })
                    (λ x p e. edit x p) (λ x p e. p) db.monitors h,
              )))
            (reschedule-Each m.id now (not (bytes_eq previous.url m.url)))))

  pub delete_monitor-Each : (user id : ℕ) → Keeps Each Done (delete_monitor user id)
  unfolding delete_monitor
  delete_monitor-Each user id = alone-Keeps Each Done _ (λ db h. by_owner db h (owned id user db))
    where
      removal : Db → Option Monitor → Result (Unit {0}) × Db
      removal db o = elim o [ none ↦ (err record_not_found, db) | some m ↦ (ok tt, removed id db) ]

      by_owner :
          (db : Db)
          → Each db
          → (o : Option Monitor) → OnOk Each Done (removal db o).0 × Each (removal db o).1
      by_owner db h none = (tt, h)
      by_owner db h (some m) = (tt, delete-All P (λ x. x.id == id) db.monitors h)
