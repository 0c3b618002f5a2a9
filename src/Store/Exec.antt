-- ===== src/Store/Exec.antt =====
-- Statements and transactions on a database that may fail at any of them. The environment decides
-- the fate of the n-th statement: it runs, it fails without effect, or it takes effect and only
-- its acknowledgement is lost. Sentinel errors are those of gorm and of backend/internal/auth.
pub mod Rules
pub mod Keeps
use uptime.Prelude.{ℕ, suc, ◌≡◌, refl, ◌⊎◌, inl, inr, Option, none, some}
use uptime.Store.Rows.{Db}

pub data Error : Type 0 where
  record_not_found duplicated_key database : Error
  invalid unauthorized conflict busy cancelled random_failure bad_period : Error

pub data Result {ℓ} (A : Type ℓ) : Type ℓ where
  ok : A → Result A
  err : Error → Result A

pub data Fate : Type 0 where
  fine failing lost : Fate

pub Fate-cases : (f : Fate) → (f ≡ fine) ⊎ ((f ≡ failing) ⊎ (f ≡ lost))
Fate-cases fine = inl refl
Fate-cases failing = inr (inl refl)
Fate-cases lost = inr (inr refl)

-- `base` is the database as the open transaction found it; `tick` counts statements.
pub record World : Type 0 where
  pub db : Db
  pub base : Db
  pub tick : ℕ

abbrev pub Fates : Type 0
Fates = ℕ → Fate

abbrev pub Exec : Type 0 → Type 0
Exec A = Fates → World → Result A × World

module _ {A : Type 0} where
  abbrev pub pure : A → Exec A
  pure a fs w = (ok a, w)

  abbrev pub raise : Error → Exec A
  raise e fs w = (err e, w)

  abbrev pub lift : Result A → Exec A
  lift r fs w = (r, w)

  -- A statement that reads.
  abbrev pub query_at : Fate → (Db → Result A) → World → Result A × World
  query_at fine q w = (q w.db, record w { tick = suc w.tick })
  query_at failing q w = (err database, record w { tick = suc w.tick })
  query_at lost q w = (err database, record w { tick = suc w.tick })

  abbrev pub query : (Db → Result A) → Exec A
  query q fs w = query_at (fs w.tick) q w

  -- A statement that writes, inside a transaction: an error leaves the rest to the rollback.
  abbrev pub write_at : Fate → (Db → Result A × Db) → World → Result A × World
  write_at fine f w = ((f w.db).0, record w { db = (f w.db).1; tick = suc w.tick })
  write_at failing f w = (err database, record w { tick = suc w.tick })
  write_at lost f w = (err database, record w { tick = suc w.tick })

  abbrev pub write : (Db → Result A × Db) → Exec A
  write f fs w = write_at (fs w.tick) f w

  -- A SELECT ... FOR UPDATE that waits while other transactions commit, before any write of this
  -- transaction.
  abbrev pub lock_at : Fate → (Db → Db) → (Db → Result A) → World → Result A × World
  lock_at fine others q w =
      (q (others w.db), record { db = others w.db; base = others w.db; tick = suc w.tick })
  lock_at failing others q w = (err database, record w { tick = suc w.tick })
  lock_at lost others q w = (err database, record w { tick = suc w.tick })

  abbrev pub lock : (Db → Db) → (Db → Result A) → Exec A
  lock others q fs w = lock_at (fs w.tick) others q w

  -- A statement that writes in a transaction of its own.
  abbrev pub alone_at : Fate → (Db → Result A × Db) → World → Result A × World
  alone_at fine f w = ((f w.db).0, record w { db = (f w.db).1; tick = suc w.tick })
  alone_at failing f w = (err database, record w { tick = suc w.tick })
  alone_at lost f w = (err database, record w { db = (f w.db).1; tick = suc w.tick })

  abbrev pub alone : (Db → Result A × Db) → Exec A
  alone f fs w = alone_at (fs w.tick) f w

  -- The end of a transaction: a rollback, or a commit that may fail.
  abbrev pub commit_at : Fate → A → World → Result A × World
  commit_at fine a w = (ok a, record w { tick = suc w.tick })
  commit_at failing a w = (err database, record w { db = w.base; tick = suc w.tick })
  commit_at lost a w = (err database, record w { tick = suc w.tick })

  abbrev pub commit : Result A → Exec A
  commit (err e) fs w = (err e, record w { db = w.base })
  commit (ok a) fs w = commit_at (fs w.tick) a w

  unfoldable pub transaction : Exec A → Exec A
  transaction body fs w = let (r, w') = body fs (record w { base = w.db }) in commit r fs w'

module _ {A B : Type 0} where
  abbrev pub continue : Result A → (A → Exec B) → Exec B
  continue (ok a) f fs w = f a fs w
  continue (err e) f fs w = (err e, w)

  infixl 5 ◌>>=◌ ◌>>◌
  abbrev pub ◌>>=◌ : Exec A → (A → Exec B) → Exec B
  ◌>>=◌ m f fs w = let (r, w') = m fs w in continue r f fs w'

  abbrev pub ◌>>◌ : Exec A → Exec B → Exec B
  m >> k = m >>= λ _. k

-- The row that was looked for, or gorm.ErrRecordNotFound.
abbrev pub or_not_found : {A : Type 0} → Option A → Result A
or_not_found none = err record_not_found
or_not_found (some a) = ok a

pub ok-injective : {A : Type 0} (a b : A) → ok a ≡ ok b → a ≡ b
ok-injective a b h = cc

pub or_not_found-eq_ok : {A : Type 0} (o : Option A) (a : A) → or_not_found o ≡ ok a → o ≡ some a
or_not_found-eq_ok none a h = cc
or_not_found-eq_ok (some b) a h = cc

abbrev pub start : Db → World
start db = record { db = db; base = db; tick = 0 }

abbrev pub all_fine : Fates
all_fine n = fine
