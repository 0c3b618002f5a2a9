-- ===== src/Store/Exec/Keeps.antt =====
-- Invariants of the database: a rule for each way to build an action. An action keeps I where it
-- leaves I true of the database and of what a rollback would restore, and, where it succeeds with
-- a value, Q true of the value.
use uptime.Store.Rows.{Db}
use uptime.Store.Exec.{
  Result, ok, err, Fate, fine, failing, lost, World, Fates, Exec, pure, query, query_at, write,
  write_at, alone, lock, lock_at, lift, alone_at, commit, commit_at, transaction, continue, ◌>>=◌,
  ◌>>◌,
}

module _ (I : Db → Type 0) where
  abbrev pub Safe : World → Type 0
  Safe w = I w.db × I w.base

  module _ {A : Type 0} where
    abbrev pub OnOk : (A → Type 0) → Result A → Type 0
    OnOk Q (ok a) = Q a
    OnOk Q (err e) = Unit

    abbrev pub Keeps : (A → Type 0) → Exec A → Type 0
    Keeps Q m = (fs : Fates) (w : World) → Safe w → OnOk Q (m fs w).0 × Safe (m fs w).1

    pub pure-Keeps : (Q : A → Type 0) (a : A) → Q a → Keeps Q (pure a)
    pure-Keeps Q a q fs w s = (q, s)

    pub query-Keeps :
        (Q : A → Type 0) (q : Db → Result A)
        → ((db : Db) → I db → OnOk Q (q db))
        → Keeps Q (query q)
    query-Keeps Q q h fs w s = by_fate (fs w.tick)
      where
        by_fate : (f : Fate) → OnOk Q (query_at f q w).0 × Safe (query_at f q w).1
        by_fate fine = (h w.db s.0, s)
        by_fate failing = (tt, s)
        by_fate lost = (tt, s)

    -- A query of which nothing is used.
    pub read-Keeps : (q : Db → Result A) → Keeps (λ a. Unit) (query q)
    read-Keeps q = query-Keeps (λ a. Unit) q (λ db h. anything (q db))
      where
        anything : (r : Result A) → OnOk (λ a. Unit) r
        anything (ok a) = tt
        anything (err e) = tt

    pub write-Keeps :
        (Q : A → Type 0) (g : Db → Result A × Db)
        → ((db : Db) → I db → OnOk Q (g db).0 × I (g db).1)
        → Keeps Q (write g)
    write-Keeps Q g h fs w s = by_fate (fs w.tick)
      where
        by_fate : (f : Fate) → OnOk Q (write_at f g w).0 × Safe (write_at f g w).1
        by_fate fine = ((h w.db s.0).0, ((h w.db s.0).1, s.1))
        by_fate failing = (tt, s)
        by_fate lost = (tt, s)

    pub lock-Keeps :
        (others : Db → Db) (q : Db → Result A)
        → ((db : Db) → I db → I (others db))
        → Keeps (λ a. Unit) (lock others q)
    lock-Keeps others q h fs w s = by_fate (fs w.tick)
      where
        anything : (r : Result A) → OnOk (λ a. Unit) r
        anything (ok a) = tt
        anything (err e) = tt

        by_fate :
            (f : Fate) → OnOk (λ a. Unit) (lock_at f others q w).0 × Safe (lock_at f others q w).1
        by_fate fine = (anything (q (others w.db)), (h w.db s.0, h w.db s.0))
        by_fate failing = (tt, s)
        by_fate lost = (tt, s)

    pub lift-Keeps : (r : Result A) → Keeps (λ a. Unit) (lift r)
    lift-Keeps (ok a) fs w s = (tt, s)
    lift-Keeps (err e) fs w s = (tt, s)

    pub alone-Keeps :
        (Q : A → Type 0) (g : Db → Result A × Db)
        → ((db : Db) → I db → OnOk Q (g db).0 × I (g db).1)
        → Keeps Q (alone g)
    alone-Keeps Q g h fs w s = by_fate (fs w.tick)
      where
        by_fate : (f : Fate) → OnOk Q (alone_at f g w).0 × Safe (alone_at f g w).1
        by_fate fine = ((h w.db s.0).0, ((h w.db s.0).1, s.1))
        by_fate failing = (tt, s)
        by_fate lost = (tt, ((h w.db s.0).1, s.1))

    commit-Keeps :
        (Q : A → Type 0) (r : Result A) (fs : Fates) (w : World)
        → OnOk Q r
        → Safe w
        → OnOk Q (commit r fs w).0 × Safe (commit r fs w).1
    commit-Keeps Q (err e) fs w q s = (tt, (s.1, s.1))
    commit-Keeps Q (ok a) fs w q s = by_fate (fs w.tick)
      where
        by_fate : (f : Fate) → OnOk Q (commit_at f a w).0 × Safe (commit_at f a w).1
        by_fate fine = (q, s)
        by_fate failing = (tt, (s.1, s.1))
        by_fate lost = (tt, s)

    pub transaction-Keeps : (Q : A → Type 0) (m : Exec A) → Keeps Q m → Keeps Q (transaction m)
    unfolding transaction
    transaction-Keeps Q m h fs w s =
        let started = record w { base = w.db } in
        let (q, s') = h fs started (s.0, s.0) in
        commit-Keeps Q (m fs started).0 fs (m fs started).1 q s'

  module _ {A B : Type 0} where
    pub bind-Keeps :
        (P : A → Type 0) (Q : B → Type 0) (m : Exec A) (f : A → Exec B)
        → Keeps P m
        → ((a : A) → P a → Keeps Q (f a))
        → Keeps Q (m >>= f)
    bind-Keeps P Q m f h k fs w s = let (p, s') = h fs w s in after (m fs w).0 (m fs w).1 p s'
      where
        after :
            (r : Result A) (w' : World)
            → OnOk P r
            → Safe w'
            → OnOk Q (continue r f fs w').0 × Safe (continue r f fs w').1
        after (ok a) w' p s' = k a p fs w' s'
        after (err e) w' p s' = (tt, s')

    pub then-Keeps :
        (Q : B → Type 0) (m : Exec A) (k : Exec B)
        → Keeps (λ a. Unit) m
        → Keeps Q k
        → Keeps Q (m >> k)
    then-Keeps Q m k h h' = bind-Keeps (λ a. Unit) Q m (λ a. k) h (λ a p. h')
