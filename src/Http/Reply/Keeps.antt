-- ===== src/Http/Reply/Keeps.antt =====
-- Invariants of the database through the handlers of Http/Reply.
use uptime.Prelude.{ℕ, Option, none, some, ◌≡◌, refl}
use uptime.Store.Rows.{Db}
use uptime.Store.Exec.{Result, ok, err, Error, Exec, Fates, World}
use uptime.Store.Exec.Keeps.{Safe, OnOk, Keeps}
use uptime.Http.Reply.{Reply, Handler, answer, handle, signed_in}

-- A handler keeps I where its work does, and the rest does after each value that the work can have.
module _ (I : Db → Type 0) where
  abbrev pub HandlerKeeps : {A : Type 0} → Handler A → Type 0
  HandlerKeeps h = (fs : Fates) (w : World) → Safe I w → Safe I (h fs w).1

  module _ {A B : Type 0} (failed : Error → Reply B) where
    pub handle-Keeps :
        (P : A → Type 0) (rest : A → Handler B) (work : Exec A)
        → Keeps I P work
        → ((a : A) → P a → HandlerKeeps (rest a))
        → HandlerKeeps (handle failed rest work)
    handle-Keeps P rest work h k fs w s =
        let (p, s') = h fs w s in after (work fs w).0 (work fs w).1 p s'
      where
        after :
            (r : Result A) (w' : World)
            → OnOk I P r
            → Safe I w'
            → Safe I (answer failed rest r fs w').1
        after (ok a) w' p s' = k a p fs w' s'
        after (err e) w' p s' = s'

  pub signed_in-Keeps :
      {A : Type 0} (refused : Reply A) (rest : ℕ → Handler A) (identity : Option ℕ)
      → ((id : ℕ) → identity ≡ some id → HandlerKeeps (rest id))
      → HandlerKeeps (signed_in refused rest identity)
  signed_in-Keeps refused rest none k fs w s = s
  signed_in-Keeps refused rest (some id) k fs w s = k id refl fs w s
