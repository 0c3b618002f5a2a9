-- ===== src/Store/Monitors/Theirs.antt =====
-- The monitors of one user, left alone by the operations on monitors that others ask for.
use uptime.Prelude.{
  ℕ, ◌≡◌, ◌≢◌, refl, sym, ◌∙◌, subst, Bool, true, false, not, Option, none, some, List, All, ◌==◌,
  inl, inr, Bool-cases, bytes_eq,
}
use uptime.Store.Rows.{Db, Monitor}
use uptime.Store.Accounts.{is_some, find_user}
use uptime.Store.Checks.{find_monitor, find_state, update_state}
use uptime.Store.Exec.{Result, ok, err, record_not_found, ◌>>◌, or_not_found, query, write}
use uptime.Store.Exec.Keeps.{
  OnOk, Keeps, query-Keeps, write-Keeps, alone-Keeps, transaction-Keeps, bind-Keeps, then-Keeps,
}
use uptime.Store.Statuses.Complete.{distinct}
use uptime.Store.Monitors.{
  owned, insert_monitor, insert_state, create_monitor, set_configuration, clear_history,
  reconfigured, reschedule, update_monitor, removed, delete_monitor,
}
use uptime.Store.Monitors.Owners.{
  Has, ids-update, distinct-delete, distinct-append, theirs-append, theirs-update, theirs-delete,
  not_theirs,
}

abbrev Done : Unit {0} → Type 0
Done u = Unit

module _ (user : ℕ) (rows : List Monitor) where
  insert-Has :
      (m : Monitor) (db : Db)
      → m.user_id ≢ user
      → Has user rows db
      → OnOk (Has user rows) Done (insert_monitor m db).0 × Has user rows (insert_monitor m db).1
  unfolding insert_monitor
  insert-Has m db n h = elim (Bool-cases (is_some (find_monitor m.id db))) [
    | inl taken ↦ rw taken (tt, h)
    | inr free ↦ rw free (elim (Bool-cases (is_some (find_user m.user_id db))) [
      | inl found ↦
          rw found
            (tt, (distinct-append db.monitors m h.0 free, theirs-append user db.monitors m n ∙ h.1))
      | inr nobody ↦ rw nobody (tt, h)
    ])
  ]

  insert_state-Has :
      (id now : ℕ) (db : Db)
      → Has user rows db
      → OnOk (Has user rows) Done (insert_state id now db).0
        × Has user rows (insert_state id now db).1
  unfolding insert_state
  insert_state-Has id now db h = elim (Bool-cases (is_some (find_state id db))) [
    | inl taken ↦ rw taken (tt, h)
    | inr free ↦ rw free (tt, h)
  ]

  pub create_monitor-Has :
      (now : ℕ) (m : Monitor) → m.user_id ≢ user → Keeps (Has user rows) Done (create_monitor now m)
  unfolding create_monitor
  create_monitor-Has now m n = transaction-Keeps (Has user rows) Done _ (
      then-Keeps (Has user rows) Done (write (insert_monitor m)) (write (insert_state m.id now))
        (write-Keeps (Has user rows) Done (insert_monitor m) (λ db h. insert-Has m db n h))
        (write-Keeps (Has user rows) Done (insert_state m.id now)
          (λ db h. insert_state-Has m.id now db h)))

  reschedule-Has : (id now : ℕ) (b : Bool) → Keeps (Has user rows) Done (reschedule id now b)
  unfolding reschedule clear_history
  reschedule-Has id now true =
      then-Keeps (Has user rows) Done (write (λ db. (ok tt, clear_history id db)))
        (write (λ db. (ok tt, update_state id (reconfigured now true) db)))
        (write-Keeps (Has user rows) Done (λ db. (ok tt, clear_history id db)) (λ db h. (tt, h)))
        (write-Keeps (Has user rows) Done
          (λ db. (ok tt, update_state id (reconfigured now true) db)) (λ db h. (tt, h)))
  reschedule-Has id now false =
      write-Keeps (Has user rows) Done (λ db. (ok tt, update_state id (reconfigured now false) db))
        (λ db h. (tt, h))

  -- No row of the user has this identity.
  abbrev Apart : ℕ → Type 0
  Apart id = All (λ (m : Monitor). (m.id == id) ≡ false) rows

  owned-Apart :
      (other id : ℕ) (db : Db)
      → other ≢ user
      → Has user rows db
      → (o : Option Monitor) → owned id other db ≡ o
      → OnOk (Has user rows) (λ m. Apart id) (or_not_found o)
  owned-Apart other id db n h none q = tt
  owned-Apart other id db n h (some m) q =
      subst (λ ms. All (λ (x : Monitor). (x.id == id) ≡ false) ms) h.1
        (not_theirs user other id db.monitors m n h.0 q)

  set_configuration-Has :
      (id : ℕ) (url : List ℕ) (interval : ℕ) (db : Db)
      → Apart id
      → Has user rows db
      → Has user rows (set_configuration id url interval db)
  unfolding set_configuration
  set_configuration-Has id url interval db a h = (
    subst (λ is. distinct is ≡ true) (sym (ids-update id _ (λ m. refl) db.monitors)) h.0,
    theirs-update user id _ (λ m. refl) db.monitors
          (subst (λ ms. All (λ (x : Monitor). (x.id == id) ≡ false) ms) (sym h.1) a)
        ∙ h.1,
  )

  pub update_monitor-Has :
      (now : ℕ) (m : Monitor) → m.user_id ≢ user → Keeps (Has user rows) Done (update_monitor now m)
  unfolding update_monitor
  update_monitor-Has now m n = transaction-Keeps (Has user rows) Done _ (
      bind-Keeps (Has user rows) (λ previous. Apart m.id) Done
        (query (λ db. or_not_found (owned m.id m.user_id db)))
        (λ previous.
          write (λ db. (ok tt, set_configuration m.id m.url m.interval_seconds db))
          >> reschedule m.id now (not (bytes_eq previous.url m.url)))
        (query-Keeps (Has user rows) (λ previous. Apart m.id)
          (λ db. or_not_found (owned m.id m.user_id db))
          (λ db h. owned-Apart m.user_id m.id db n h (owned m.id m.user_id db) refl))
        (λ previous a.
          then-Keeps (Has user rows) Done
            (write (λ db. (ok tt, set_configuration m.id m.url m.interval_seconds db)))
            (reschedule m.id now (not (bytes_eq previous.url m.url)))
            (write-Keeps (Has user rows) Done
              (λ db. (ok tt, set_configuration m.id m.url m.interval_seconds db))
              (λ db h. (tt, set_configuration-Has m.id m.url m.interval_seconds db a h)))
            (reschedule-Has m.id now (not (bytes_eq previous.url m.url)))))

  removed-Has : (id : ℕ) (db : Db) → Apart id → Has user rows db → Has user rows (removed id db)
  removed-Has id db a h = (
    distinct-delete id db.monitors h.0,
    theirs-delete user id db.monitors
          (subst (λ ms. All (λ (x : Monitor). (x.id == id) ≡ false) ms) (sym h.1) a)
        ∙ h.1,
  )

  pub delete_monitor-Has :
      (other id : ℕ) → other ≢ user → Keeps (Has user rows) Done (delete_monitor other id)
  unfolding delete_monitor
  delete_monitor-Has other id n =
      alone-Keeps (Has user rows) Done _ (λ db h. by_owner db h (owned id other db) refl)
    where
      removal : Db → Option Monitor → Result (Unit {0}) × Db
      removal db o = elim o [ none ↦ (err record_not_found, db) | some m ↦ (ok tt, removed id db) ]

      by_owner :
          (db : Db)
          → Has user rows db
          → (o : Option Monitor) → owned id other db ≡ o
          → OnOk (Has user rows) Done (removal db o).0 × Has user rows (removal db o).1
      by_owner db h none q = (tt, h)
      by_owner db h (some m) q = (tt, removed-Has id db (owned-Apart other id db n h (some m) q) h)
