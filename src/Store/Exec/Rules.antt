-- ===== src/Store/Exec/Rules.antt =====
-- Rules for transactions: a postcondition of the body is what a commit leaves, and whatever else
-- happens the database is as the transaction found it.
use uptime.Prelude.{suc, ◌≡◌, refl, ◌⊎◌, inl, inr}
use uptime.Store.Rows.{Db}
use uptime.Store.Exec.{
  Result, ok, err, Fate, fine, failing, lost, World, Fates, Exec, query, query_at, write, write_at,
  lock, lock_at, commit, commit_at, continue, transaction, ◌>>=◌,
}

module _ {A : Type 0} (Q : A → Db → Type 0) (B : Db → Type 0) where
  -- A body ends with `Q` of its result, or in an error; the rollback goes to a database in `B`.
  abbrev pub Ends : Result A → World → Type 0
  Ends (ok a) w = Q a w.db × B w.base
  Ends (err e) w = B w.base

  -- A transaction leaves `Q` of its result, or returns an error from a database in `B`, or one
  -- whose commit took effect.
  abbrev pub Commits : Result A → Db → Type 0
  Commits (ok a) db = Q a db
  Commits (err e) db = B db ⊎ ((a : A) × Q a db)

  pub transaction-Commits :
      (body : Exec A) (fs : Fates) (w : World)
      → Ends (body fs (record w { base = w.db })).0 (body fs (record w { base = w.db })).1
      → Commits (transaction body fs w).0 (transaction body fs w).1.db
  unfolding transaction
  transaction-Commits body fs w =
      ended (body fs (record w { base = w.db })).0 (body fs (record w { base = w.db })).1
    where
      committed :
          (f : Fate) (a : A) (v : World)
          → Q a v.db × B v.base
          → Commits (commit_at f a v).0 (commit_at f a v).1.db
      committed fine a v h = h.0
      committed failing a v h = inl h.1
      committed lost a v h = inr (a, h.0)

      ended : (r : Result A) (v : World) → Ends r v → Commits (commit r fs v).0 (commit r fs v).1.db
      ended (err e) v h = inl h
      ended (ok a) v h = committed (fs v.tick) a v h

  module _ {C : Type 0} (k : C → Exec A) (fs : Fates) where
    continue-Ends :
        (r : Result C) (v : World)
        → B v.base
        → ((c : C) → r ≡ ok c → Ends (k c fs v).0 (k c fs v).1)
        → Ends (continue r k fs v).0 (continue r k fs v).1
    continue-Ends (ok c) v b h = h c refl
    continue-Ends (err e) v b h = b

    module _ (w : World) (b : B w.base) where
      pub query-Ends :
          (q : Db → Result C)
          → ((c : C)
              → q w.db ≡ ok c
              → Ends
                  (k c fs (record w { tick = suc w.tick })).0
                  (k c fs (record w { tick = suc w.tick })).1)
          → Ends ((query q >>= k) fs w).0 ((query q >>= k) fs w).1
      query-Ends q h = at (fs w.tick)
        where
          at :
              (f : Fate)
              → Ends
                  (continue (query_at f q w).0 k fs (query_at f q w).1).0
                  (continue (query_at f q w).0 k fs (query_at f q w).1).1
          at fine = continue-Ends (q w.db) (record w { tick = suc w.tick }) b h
          at failing = b
          at lost = b

      pub write-Ends :
          (g : Db → Result C × Db)
          → ((c : C)
              → (g w.db).0 ≡ ok c
              → Ends
                  (k c fs (record w { db = (g w.db).1; tick = suc w.tick })).0
                  (k c fs (record w { db = (g w.db).1; tick = suc w.tick })).1)
          → Ends ((write g >>= k) fs w).0 ((write g >>= k) fs w).1
      write-Ends g h = at (fs w.tick)
        where
          at :
              (f : Fate)
              → Ends
                  (continue (write_at f g w).0 k fs (write_at f g w).1).0
                  (continue (write_at f g w).0 k fs (write_at f g w).1).1
          at fine = continue-Ends (g w.db).0 (record w { db = (g w.db).1; tick = suc w.tick }) b h
          at failing = b
          at lost = b

      pub lock-Ends :
          (others : Db → Db) (q : Db → Result C)
          → B (others w.db)
          → ((c : C)
              → q (others w.db) ≡ ok c
              → Ends
                  (k c fs (record { db = others w.db; base = others w.db; tick = suc w.tick })).0
                  (k c fs (record { db = others w.db; base = others w.db; tick = suc w.tick })).1)
          → Ends ((lock others q >>= k) fs w).0 ((lock others q >>= k) fs w).1
      lock-Ends others q b' h = at (fs w.tick)
        where
          at :
              (f : Fate)
              → Ends
                  (continue (lock_at f others q w).0 k fs (lock_at f others q w).1).0
                  (continue (lock_at f others q w).0 k fs (lock_at f others q w).1).1
          at fine =
              continue-Ends (q (others w.db))
                (record { db = others w.db; base = others w.db; tick = suc w.tick }) b' h
          at failing = b
          at lost = b

-- A body that ends in a statement.
pub write_last-Ends :
    {A : Type 0} (Q : A → Db → Type 0) (B : Db → Type 0) (g : Db → Result A × Db) (fs : Fates)
    (w : World)
    → B w.base
    → ((a : A) → (g w.db).0 ≡ ok a → Q a (g w.db).1)
    → Ends Q B (write g fs w).0 (write g fs w).1
write_last-Ends {A} Q B g fs w b h = at (fs w.tick)
  where
    done :
        (r : Result A)
        → ((a : A) → r ≡ ok a → Q a (g w.db).1)
        → Ends Q B r (record w { db = (g w.db).1; tick = suc w.tick })
    done (ok a) f = (f a refl, b)
    done (err e) f = b

    at : (f : Fate) → Ends Q B (write_at f g w).0 (write_at f g w).1
    at fine = done (g w.db).0 h
    at failing = b
    at lost = b

-- A body after a body.
pub bind-Ends :
    {A C : Type 0} (P : C → Db → Type 0) (Q : A → Db → Type 0) (B : Db → Type 0) (m : Exec C)
    (k : C → Exec A) (fs : Fates) (w : World)
    → Ends P B (m fs w).0 (m fs w).1
    → ((c : C) (v : World) → P c v.db → B v.base → Ends Q B (k c fs v).0 (k c fs v).1)
    → Ends Q B ((m >>= k) fs w).0 ((m >>= k) fs w).1
bind-Ends {C = C} P Q B m k fs w h next = at (m fs w).0 (m fs w).1 h
  where
    at :
        (r : Result C) (v : World)
        → Ends P B r v
        → Ends Q B (continue r k fs v).0 (continue r k fs v).1
    at (ok c) v e = next c v e.0 e.1
    at (err e) v b = b
