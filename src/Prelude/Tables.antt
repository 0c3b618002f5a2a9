-- ===== src/Prelude/Tables.antt =====
-- A database table as the list of its rows: what SELECT, UPDATE, DELETE and ORDER BY do to it.
use Prim.Native.Nat.{ℕ}
use mathlib.Core.Path.{◌≡◌, refl}
use mathlib.Core.Bool.{Bool}
use mathlib.Core.Option
use mathlib.Core.Option.{Option, none, some}
use mathlib.Core.List.{List, [], ◌∷◌, ◌++◌}
use native.Mathlib.Omega.{arith}
use uptime.Prelude.Tests.{if◌then◌else◌, ◌==◌}

module _ {ℓ} {A : Type ℓ} where
  -- SELECT ... WHERE key = k LIMIT 1
  unfoldable pub find : (A → ℕ) → ℕ → List A → Option A
  find key k [] = none
  find key k (x ∷ xs) = if key x == k then some x else find key k xs

  -- UPDATE ... SET f WHERE test
  unfoldable pub update : (A → Bool) → (A → A) → List A → List A
  update test f [] = []
  update test f (x ∷ xs) = (if test x then f x else x) ∷ update test f xs

  -- SELECT ... WHERE test
  unfoldable pub select : (A → Bool) → List A → List A
  select test [] = []
  select test (x ∷ xs) = let rest = select test xs in if test x then x ∷ rest else rest

  -- DELETE ... WHERE test
  unfoldable pub delete : (A → Bool) → List A → List A
  delete test [] = []
  delete test (x ∷ xs) = let rest = delete test xs in if test x then rest else x ∷ rest

  -- ORDER BY, where `before x y` says that `x` may stand before `y`.
  unfoldable pub place : (A → A → Bool) → A → List A → List A
  place before x [] = x ∷ []
  place before x (y ∷ ys) =
      let later = y ∷ place before x ys in if before x y then x ∷ y ∷ ys else later

  unfoldable pub order_by : (A → A → Bool) → List A → List A
  unfolding place
  order_by before [] = []
  order_by before (x ∷ xs) = place before x (order_by before xs)

module _ {ℓ} {A : Type ℓ} (key : A → ℕ) (k : ℕ) where
  pub find-append_new :
      (xs : List A) (x : A) → key x ≡ k → find key k xs ≡ none → find key k (xs ++ x ∷ []) ≡ some x
  unfolding find
  find-append_new [] x e h = ground arith
  find-append_new (y ∷ ys) x e h = ground (arith, find-append_new ys x e)

  pub find-append_old :
      (xs ys : List A) (a : A) → find key k xs ≡ some a → find key k (xs ++ ys) ≡ some a
  unfolding find
  find-append_old [] ys a h = cc
  find-append_old (x ∷ xs) ys a h = ground (arith, find-append_old xs ys a)

  pub find-key : (xs : List A) (a : A) → find key k xs ≡ some a → key a ≡ k
  unfolding find
  find-key [] a h = cc
  find-key (x ∷ xs) a h = ground (arith, find-key xs a)

  -- An update that keeps keys changes the row that is found as it changes every row.
  pub find-update :
      (test : A → Bool) (f : A → A)
      → ((a : A) → key (f a) ≡ key a)
      → (xs : List A)
      → find key k (update test f xs) ≡ Option.map (λ a. if test a then f a else a) (find key k xs)
  unfolding find update
  find-update test f keep [] = refl
  find-update test f keep (x ∷ xs) = ground (arith, keep x, find-update test f keep xs)
