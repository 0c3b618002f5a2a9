-- ===== src/Http/Reply.antt =====
-- backend/internal/httpx/response.go: what a handler writes, and handlers over the database.
pub mod Keeps
use uptime.Prelude.{ℕ, Bytes, Option, none, some}
use uptime.Store.Exec.{Result, ok, err, Error, Exec, Fates, World}

-- WriteError with its status, code and message; WriteJSON with its status and body; a status alone.
pub data Reply (A : Type 0) : Type 0 where
  fault : ℕ → Bytes → Bytes → Reply A
  json : ℕ → A → Reply A
  bare : ℕ → Reply A

abbrev pub Handler : Type 0 → Type 0
Handler A = Fates → World → Reply A × World

abbrev pub reply : {A : Type 0} → Reply A → Handler A
reply r fs w = (r, w)

module _ {A B : Type 0} (failed : Error → Reply B) (then_do : A → Handler B) where
  abbrev pub answer : Result A → Handler B
  answer (ok a) fs w = then_do a fs w
  answer (err e) fs w = (failed e, w)

  -- The rest of a handler runs where the work on the database succeeds.
  abbrev pub handle : Exec A → Handler B
  handle work fs w = let (r, w') = work fs w in answer r fs w'

-- An early return where `auth.UserID` finds no identity.
abbrev pub signed_in : {A : Type 0} → Reply A → (ℕ → Handler A) → Option ℕ → Handler A
signed_in refused rest none fs w = (refused, w)
signed_in refused rest (some id) fs w = rest id fs w
