-- ===== src/Prelude/Order.antt =====
-- What selecting, ordering and cutting a table keeps.
use Prim.Native.Nat.{ℕ, zero, suc, ◌<◌}
use mathlib.Core.Path.{◌≡◌, refl, subst, sym}
use mathlib.Core.Logic.{◌⊎◌, inl, inr}
use mathlib.Core.Bool.{Bool, true, false}
use mathlib.Core.List.{List, [], ◌∷◌}
use native.Mathlib.Omega.{arith}
use uptime.Prelude.Tests.{Bool-cases}
use uptime.Prelude.Lists.{length, take, All, All-mono}
use uptime.Prelude.Tables.{select, place, order_by, update}

module _ {A : Type 0} where
  -- Membership, with the place kept.
  abbrev pub In : A → List A → Type 0
  In a [] = ⊥
  In a (x ∷ xs) = (a ≡ x) ⊎ In a xs

  pub All-In {κ} : (P : A → Type κ) (xs : List A) → ((a : A) → In a xs → P a) → All P xs
  All-In P [] h = tt
  All-In P (x ∷ xs) h = (h x (inl refl), All-In P xs (λ a m. h a (inr m)))

  pub In-All {κ} : (P : A → Type κ) (xs : List A) (a : A) → All P xs → In a xs → P a
  In-All P [] a h m = absurd m
  In-All P (x ∷ xs) a h (inl e) = subst P (sym e) h.0
  In-All P (x ∷ xs) a h (inr m) = In-All P xs a h.1 m

  pub In-take : (n : ℕ) (xs : List A) (a : A) → In a (take n xs) → In a xs
  In-take zero xs a m = absurd m
  In-take (suc n) [] a m = m
  In-take (suc n) (x ∷ xs) a (inl e) = inl e
  In-take (suc n) (x ∷ xs) a (inr m) = inr (In-take n xs a m)

  -- Where nothing is cut off, the cut keeps all.
  pub take_all : (n : ℕ) (xs : List A) → length (take n xs) < n → take n xs ≡ xs
  take_all zero xs h = absurd (omega arith)
  take_all (suc n) [] h = refl
  take_all (suc n) (x ∷ xs) h = ground (arith, take_all n xs)

  module _ (test : A → Bool) where
    pub select-All {κ} :
        (P : A → Type κ) (xs : List A)
        → All P xs
        → All (λ a. P a × (test a ≡ true)) (select test xs)
    unfolding select
    select-All P [] h = tt
    select-All P (x ∷ xs) h = elim (Bool-cases (test x)) [
      | inl e ↦ rw e ((h.0, e), select-All P xs h.1)
      | inr e ↦ rw e (select-All P xs h.1)
    ]

    pub In-select : (xs : List A) (a : A) → In a xs → test a ≡ true → In a (select test xs)
    unfolding select
    In-select [] a m e = m
    In-select (x ∷ xs) a (inl p) e = rw (← p, e) (inl refl)
    In-select (x ∷ xs) a (inr m) e = elim (Bool-cases (test x)) [
      | inl t ↦ rw t (inr (In-select xs a m e))
      | inr t ↦ rw t (In-select xs a m e)
    ]

  module _ (before : A → A → Bool) where
    place-All {κ} :
        (P : A → Type κ) (x : A) (xs : List A) → P x → All P xs → All P (place before x xs)
    unfolding place
    place-All P x [] p h = (p, tt)
    place-All P x (y ∷ ys) p h = elim (Bool-cases (before x y)) [
      | inl e ↦ rw e (p, h)
      | inr e ↦ rw e (h.0, place-All P x ys p h.1)
    ]

    pub order_by-All {κ} : (P : A → Type κ) (xs : List A) → All P xs → All P (order_by before xs)
    unfolding order_by
    order_by-All P [] h = tt
    order_by-All P (x ∷ xs) h = place-All P x (order_by before xs) h.0 (order_by-All P xs h.1)

    place-In : (x : A) (xs : List A) (a : A) → In a (x ∷ xs) → In a (place before x xs)
    unfolding place
    place-In x [] a m = m
    place-In x (y ∷ ys) a m = elim (Bool-cases (before x y)) [
      | inl e ↦ rw e m
      | inr e ↦ rw e (swap m (place-In x ys a))
    ]
      where
        swap :
            In a (x ∷ y ∷ ys)
            → (In a (x ∷ ys) → In a (place before x ys))
            → In a (y ∷ place before x ys)
        swap (inl p) later = inr (later (inl p))
        swap (inr (inl p)) later = inl p
        swap (inr (inr q)) later = inr (later (inr q))

    pub order_by-In : (xs : List A) (a : A) → In a xs → In a (order_by before xs)
    unfolding order_by
    order_by-In [] a m = m
    order_by-In (x ∷ xs) a (inl p) = place-In x (order_by before xs) a (inl p)
    order_by-In (x ∷ xs) a (inr m) = place-In x (order_by before xs) a (inr (order_by-In xs a m))

    -- Every element may stand before all that follow it.
    abbrev pub Ordered : List A → Type 0
    Ordered [] = Unit
    Ordered (x ∷ xs) = All (λ y. before x y ≡ true) xs × Ordered xs

    module _ (total : (x y : A) → before x y ≡ false → before y x ≡ true)
        (trans : (x y z : A) → before x y ≡ true → before y z ≡ true → before x z ≡ true) where
      place-Ordered : (x : A) (xs : List A) → Ordered xs → Ordered (place before x xs)
      unfolding place
      place-Ordered x [] h = (tt, tt)
      place-Ordered x (y ∷ ys) h = elim (Bool-cases (before x y)) [
        | inl e ↦ rw e (
          (
            e,
            All-mono (λ z. before y z ≡ true) (λ z. before x z ≡ true) (λ z f. trans x y z e f) ys
                h.0,
          ),
          h,
        )
        | inr e ↦
            rw e (place-All (λ z. before y z ≡ true) x ys (total x y e) h.0, place-Ordered x ys h.1)
      ]

      pub order_by-Ordered : (xs : List A) → Ordered (order_by before xs)
      unfolding order_by
      order_by-Ordered [] = tt
      order_by-Ordered (x ∷ xs) = place-Ordered x (order_by before xs) (order_by-Ordered xs)

    -- What a cut of ordered elements leaves out may stand before none that it keeps.
    pub take-Ordered :
        (n : ℕ) (xs : List A) (a : A)
        → Ordered xs
        → In a xs
        → In a (take n xs) ⊎ ((length (take n xs) ≡ n) × All (λ x. before x a ≡ true) (take n xs))
    take-Ordered zero xs a h m = inr (refl, tt)
    take-Ordered (suc n) [] a h m = absurd m
    take-Ordered (suc n) (x ∷ xs) a h (inl e) = inl (inl e)
    take-Ordered (suc n) (x ∷ xs) a h (inr m) = elim (take-Ordered n xs a h.1 m) [
      | inl kept ↦ inl (inr kept)
      | inr (full, before_all) ↦
          inr (omega (arith, full), (In-All (λ y. before x y ≡ true) xs a h.0 m, before_all))
    ]

  pub update_never :
      (test : A → Bool) (f : A → A)
      → ((a : A) → test a ≡ false)
      → (xs : List A) → update test f xs ≡ xs
  unfolding update
  update_never test f h [] = refl
  update_never test f h (x ∷ xs) = rw (h x, update_never test f h xs)

  pub update-All {κ ι} :
      (P : A → Type κ) (Q : A → Type ι) (test : A → Bool) (f : A → A)
      → ((a : A) → P a → test a ≡ true → Q (f a))
      → ((a : A) → P a → test a ≡ false → Q a)
      → (xs : List A) → All P xs
      → All Q (update test f xs)
  unfolding update
  update-All P Q test f yes_case no_case [] h = tt
  update-All P Q test f yes_case no_case (x ∷ xs) h = elim (Bool-cases (test x)) [
    | inl e ↦ rw e (yes_case x h.0 e, update-All P Q test f yes_case no_case xs h.1)
    | inr e ↦ rw e (no_case x h.0 e, update-All P Q test f yes_case no_case xs h.1)
  ]
