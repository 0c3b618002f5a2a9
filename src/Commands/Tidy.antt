-- ===== src/Commands/Tidy.antt =====
-- The pool of each command in backend/cmd is closed, and work happens while it is open.
use uptime.Prelude.{
  ℕ, ◌≤◌, ◌≡◌, ◌⊎◌, inl, inr, refl, true, false, ◌||◌, Option, none, some, List, [], ◌∷◌, ◌++◌, All,
  Bytes, codes, bytes_eq, bytes_eq_iff, ltb, Bool-cases, arith,
}
use uptime.Config.{
  Config, Loaded, loaded, bad_cookie_secure, no_database_url, weak_secret, bad_origin,
}
use uptime.Monitor.Worker.{new_worker}
use uptime.Commands.{
  Event, opens, closes, works, migrates, listens, shuts_down, Ended, fine, failed, Run, Database,
  Connect, no_pool, left_open, connected, open_store, close_store, with_store, Number, natural,
  below_zero, made, concurrency, worked, with_concurrency, run_worker, is_command, Goose, migrated,
  run_migrate, Serving, listener_failed, listener_closed, interrupted, served, with_service,
  run_api,
}

-- gorm.Open failed and left its pool open, or opened a pool and did not hand it out.
abbrev pub LeftOpen : Database → Type 0
LeftOpen d = (d.connects ≡ left_open) ⊎ ((d.connects ≡ connected) × (d.hands_out ≡ false))

abbrev pub HasFailed : Ended → Type 0
HasFailed e = (message : Bytes) × (e ≡ failed message)

-- No event; or the pool opens, some work is done, and the pool closes; or the run fails with the
-- pool that gorm did not give to it.
abbrev pub Tidy : (Event → Type 0) → Database → Run → Type 0
Tidy Work d r =
    (r.1 ≡ [])
    ⊎ (((ws : List Event) × All Work ws × (r.1 ≡ opens ∷ (ws ++ closes ∷ [])))
        ⊎ (LeftOpen d × HasFailed r.0 × (r.1 ≡ opens ∷ [])))

-- A worker with 1 to 4096 checks at once.
abbrev pub Working : Event → Type 0
Working e = (n : ℕ) × (e ≡ works n) × (1 ≤ n) × (n ≤ 4096)

abbrev pub Migrating : Event → Type 0
Migrating e =
    (c : Bytes) × (e ≡ migrates c)
    × ((c ≡ codes "up") ⊎ ((c ≡ codes "down") ⊎ (c ≡ codes "status")))

-- The server has the configuration that was loaded.
abbrev pub ServingWith : Loaded → Event → Type 0
ServingWith l e = ((c : Config) × (e ≡ listens c) × (l ≡ loaded c)) ⊎ (e ≡ shuts_down)

with_store-Tidy :
    (Work : Event → Type 0) (d : Database) (message : Bytes) (r : Run)
    → All Work r.1
    → Tidy Work d (with_store d message r)
unfolding open_store close_store
with_store-Tidy Work d message (ended, events) w = by_connect d.connects refl
  where
    by_connect : (c : Connect) → d.connects ≡ c → Tidy Work d (with_store d message (ended, events))
    by_connect no_pool e = inl (rw e refl)
    by_connect left_open e = inr (inr (inl e, (message, rw e refl), rw e refl))
    by_connect connected e = elim (Bool-cases d.hands_out) [
      | inr h ↦ inr (inr (inr (e, h), (message, rw (e, h) refl), rw (e, h) refl))
      | inl h ↦ elim (Bool-cases d.answers) [
        | inr a ↦ inr (inl ([], tt, rw (e, h, a) refl))
        | inl a ↦ inr (inl (events, w, rw (e, h, a) refl))
      ]
    ]

worked-Working : (i : Number) → All Working (worked (made i)).1
unfolding new_worker
worked-Working below_zero = tt
worked-Working (natural n) = elim (Bool-cases (ltb n 1 || ltb 4096 n)) [
  | inl e ↦ rw e tt
  | inr e ↦ rw e ((n, refl, ground (arith, e), ground (arith, e)), tt)
]

migrated-Migrating :
    (g : Goose) (d : Database) (c : Bytes) → is_command c ≡ true → All Migrating (migrated g d c).1
migrated-Migrating g d c h = elim (Bool-cases d.hands_out) [
  | inr e ↦ rw e tt
  | inl e ↦ rw e (by_dialect g.dialect)
]
  where
    known : (c ≡ codes "up") ⊎ ((c ≡ codes "down") ⊎ (c ≡ codes "status"))
    known = ground (
      arith,
      h,
      bytes_eq_iff c (codes "up"),
      bytes_eq_iff c (codes "down"),
      bytes_eq_iff c (codes "status"),
    )

    after : Ended → Run
    after e = elim e [ failed message ↦ (failed message, []) | fine ↦ (g.ended c, migrates c ∷ []) ]

    by_dialect : (e : Ended) → All Migrating (after e).1
    by_dialect fine = ((c, refl, known), tt)
    by_dialect (failed message) = tt

served-ServingWith : (c : Config) (s : Serving) → All (ServingWith (loaded c)) (served c s).1
served-ServingWith c (listener_failed message) = (inl (c, refl, refl), tt)
served-ServingWith c listener_closed = (inl (c, refl, refl), tt)
served-ServingWith c (interrupted ended) = (inl (c, refl, refl), (inr refl, tt))

module _ (d : Database) where
  run_worker-Tidy : (getenv : Bytes → Bytes) → Tidy Working d (run_worker getenv d)
  unfolding run_worker
  run_worker-Tidy getenv = elim (Bool-cases (bytes_eq (getenv (codes "DATABASE_URL")) [])) [
    | inl e ↦ rw e (inl refl)
    | inr e ↦ rw e (by_number (concurrency (getenv (codes "MONITOR_CONCURRENCY"))))
  ]
    where
      by_number : (o : Option Number) → Tidy Working d (with_concurrency d o)
      by_number none = inl refl
      by_number (some n) =
          with_store-Tidy Working d (codes "worker database connection failed") (worked (made n))
            (worked-Working n)

  run_migrate-Tidy : (g : Goose) (args : List Bytes) → Tidy Migrating d (run_migrate g d args)
  unfolding run_migrate
  run_migrate-Tidy g (program ∷ command ∷ []) = elim (Bool-cases (is_command command)) [
    | inr e ↦ rw e (inl refl)
    | inl e ↦ rw e (
        with_store-Tidy Migrating d (codes "database connection failed") (migrated g d command)
          (migrated-Migrating g d command e))
  ]
  run_migrate-Tidy g [] = inl refl
  run_migrate-Tidy g (p ∷ []) = inl refl
  run_migrate-Tidy g (p ∷ c ∷ x ∷ xs) = inl refl

  run_api-Tidy :
      (l : Loaded) (salt : Option Bytes) (s : Serving) → Tidy (ServingWith l) d (run_api l d salt s)
  unfolding run_api
  run_api-Tidy (loaded c) none s =
      with_store-Tidy (ServingWith (loaded c)) d (codes "database connection failed")
        (with_service c none s) tt
  run_api-Tidy (loaded c) (some salt) s =
      with_store-Tidy (ServingWith (loaded c)) d (codes "database connection failed") (served c s)
        (served-ServingWith c s)
  run_api-Tidy bad_cookie_secure salt s = inl refl
  run_api-Tidy no_database_url salt s = inl refl
  run_api-Tidy weak_secret salt s = inl refl
  run_api-Tidy bad_origin salt s = inl refl

  -- a run of the worker, of the migrations or of the API, whatever its environment, its arguments
  -- and the outcomes of what it calls, opens no pool, or opens it first and closes it last, or
  -- fails with no work done and the pool left open, which happens only where gorm.Open failed
  -- after it opened the pool or gorm did not hand the pool out. Between opening and closing, the
  -- worker runs with 1 to 4096 checks at once, goose runs one of up, down and status, and the
  -- server listens with the configuration that was loaded.
  pub commands-Tidy :
      (getenv : Bytes → Bytes) (g : Goose) (args : List Bytes) (l : Loaded) (salt : Option Bytes)
      (s : Serving)
      → Tidy Working d (run_worker getenv d)
        × Tidy Migrating d (run_migrate g d args)
        × Tidy (ServingWith l) d (run_api l d salt s)
  commands-Tidy getenv g args l salt s =
      (run_worker-Tidy getenv, run_migrate-Tidy g args, run_api-Tidy l salt s)
