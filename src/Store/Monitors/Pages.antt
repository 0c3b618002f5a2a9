-- ===== src/Store/Monitors/Pages.antt =====
-- The pages of MonitorsByUser, as parts of the ordered list.
use uptime.Prelude.{
  ℕ, suc, ◌≡◌, refl, ap, subst, ◌∙◌, sym, ◌&&◌, Bool, true, false, none, some, List, [], ◌∷◌, ◌++◌,
  take, All, All-mono, arith, select, place, order_by, order_by-Ordered, Ordered, ◌==◌,
  if◌then◌else◌, Bool-cases, inl, inr,
}
use uptime.Store.Rows.{Monitor}
use uptime.Store.Monitors.{MonitorCursor, page_size, newer, below, page}

newer_total : (a b : Monitor) → newer a b ≡ false → newer b a ≡ true
newer_total a b h = ground arith

newer_trans : (x y z : Monitor) → newer x y ≡ true → newer y z ≡ true → newer x z ≡ true
newer_trans x y z h h' = ground arith

module _ (p : Monitor → Bool) where
  All-select {κ} : (P : Monitor → Type κ) (xs : List Monitor) → All P xs → All P (select p xs)
  unfolding select
  All-select P [] h = tt
  All-select P (x ∷ xs) h = elim (Bool-cases (p x)) [
    | inl e ↦ rw e (h.0, All-select P xs h.1)
    | inr e ↦ rw e (All-select P xs h.1)
  ]

  place_first :
      (x : Monitor) (xs : List Monitor) → All (λ y. newer x y ≡ true) xs → place newer x xs ≡ x ∷ xs
  unfolding place
  place_first x [] h = refl
  place_first x (y ∷ ys) h = rw h.0 refl

  select-place :
      (x : Monitor) (xs : List Monitor)
      → Ordered newer xs
      → select p (place newer x xs) ≡ (if p x then place newer x (select p xs) else select p xs)
  unfolding select place
  select-place x [] o = refl
  select-place x (y ∷ ys) o = elim (Bool-cases (newer x y)) [
    | inl e ↦
        let first =
          All-select (λ z. newer x z ≡ true) (y ∷ ys)
            (
              e,
              All-mono (λ z. newer y z ≡ true) (λ z. newer x z ≡ true)
                  (λ z h. newer_trans x y z e h) ys o.0,
            ) in
        ground (arith, e, place_first x (select p (y ∷ ys)) first)
    | inr e ↦ ground (arith, e, select-place x ys o.1)
  ]

  select-order_by :
      (xs : List Monitor) → select p (order_by newer xs) ≡ order_by newer (select p xs)
  unfolding select order_by
  select-order_by [] = refl
  select-order_by (x ∷ xs) = ground (
    arith,
    select-place x (order_by newer xs) (order_by-Ordered newer newer_total newer_trans xs),
    select-order_by xs,
  )

abbrev pub cursor_of : Monitor → MonitorCursor
cursor_of m = record { created_at = m.created_at; id = m.id }

select-and :
    (p q : Monitor → Bool) (xs : List Monitor)
    → select (λ m. p m && q m) xs ≡ select q (select p xs)
unfolding select
select-and p q [] = refl
select-and p q (x ∷ xs) = ground (arith, select-and p q xs)

All_middle :
    (P : Monitor → Type 0) (m : Monitor) (front back : List Monitor)
    → All P (front ++ m ∷ back)
    → P m
All_middle P m [] back h = h.0
All_middle P m (x ∷ xs) back h = All_middle P m xs back h.1

behind :
    (m : Monitor) (front back : List Monitor)
    → Ordered newer (front ++ m ∷ back)
    → All (λ b. newer m b ≡ true) back
behind m [] back o = o.0
behind m (x ∷ xs) back o = behind m xs back o.1

select_all : (xs : List Monitor) → select (λ m. true) xs ≡ xs
unfolding select
select_all [] = refl
select_all (x ∷ xs) = ap (λ l. x ∷ l) (select_all xs)

select-front :
    (m : Monitor) (front back : List Monitor)
    → Ordered newer (front ++ m ∷ back)
    → select (λ x. below x (cursor_of m)) (front ++ m ∷ back)
      ≡ select (λ x. below x (cursor_of m)) back
unfolding select
select-front m [] back o = ground arith
select-front m (x ∷ xs) back o =
    ground (arith, All_middle (λ y. newer x y ≡ true) m xs back o.0, select-front m xs back o.1)

select-back :
    (m : Monitor) (back : List Monitor)
    → All (λ b. newer m b ≡ true) back
    → All (λ b. (b.id == m.id) ≡ false) back
    → select (λ x. below x (cursor_of m)) back ≡ back
unfolding select
select-back m [] o d = refl
select-back m (x ∷ xs) o d = ground (arith, o.0, d.0, select-back m xs o.1 d.1)

pub page_first :
    (user : ℕ) (monitors : List Monitor)
    → page user none monitors
      ≡ take (suc page_size) (order_by newer (select (λ x. x.user_id == user) monitors))
unfolding page
page_first user monitors =
    ap (λ l. take (suc page_size) (order_by newer l))
      (select-and (λ x. x.user_id == user) (λ x. true) monitors
        ∙ select_all (select (λ x. x.user_id == user) monitors))

-- where a monitor stands in the ordered list of the monitors of a user, and none behind it has
-- its identity, the query without a cursor returns the first 51 of the list, and the query with
-- the cursor of that monitor the first 51 of those behind it: pages neither skip nor repeat a
-- monitor, equal timestamps included.
pub page_next :
    (user : ℕ) (monitors front back : List Monitor) (m : Monitor)
    → order_by newer (select (λ x. x.user_id == user) monitors) ≡ front ++ m ∷ back
    → All (λ b. (b.id == m.id) ≡ false) back
    → (page user none monitors ≡ take (suc page_size) (front ++ m ∷ back))
      × (page user (some (cursor_of m)) monitors ≡ take (suc page_size) back)
unfolding page
page_next user monitors front back m e d = (
  ap (λ l. take (suc page_size) (order_by newer l))
        (select-and mine (λ x. true) monitors ∙ select_all (select mine monitors))
      ∙ ap (take (suc page_size)) e,
  ap (take (suc page_size)) (
      ap (order_by newer) (select-and mine next monitors)
      ∙ sym (select-order_by next (select mine monitors))
      ∙ ap (select next) e
      ∙ select-front m front back ordered
      ∙ select-back m back (behind m front back ordered) d),
)
  where
    mine : Monitor → Bool
    mine x = x.user_id == user

    next : Monitor → Bool
    next x = below x (cursor_of m)

    ordered : Ordered newer (front ++ m ∷ back)
    ordered =
        subst (Ordered newer) e
          (order_by-Ordered newer newer_total newer_trans (select mine monitors))
