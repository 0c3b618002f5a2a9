-- ===== src/Store/Monitors/Owners.antt =====
-- The monitors of one user among all, whose identities are keys.
use uptime.Prelude.{
  ℕ, ◌≡◌, ◌≢◌, refl, ap, Bool, true, false, ◌||◌, some, List, [], ◌∷◌, ◌++◌, All, map, ◌==◌, inl,
  inr, Bool-cases, update, delete, select, find, arith,
}
use uptime.Store.Rows.{Db, Monitor}
use uptime.Store.Accounts.{is_some}
use uptime.Store.Statuses.{one_of}
use uptime.Store.Statuses.Complete.{distinct}

abbrev pub ids : List Monitor → List ℕ
ids ms = map Monitor.id ms

pub find-one_of :
    (id : ℕ) (ms : List Monitor) → is_some (find Monitor.id id ms) ≡ one_of id (ids ms)
unfolding find one_of
find-one_of id [] = refl
find-one_of id (m ∷ ms) = ground (arith, find-one_of id ms)

pub one_of-append :
    (id : ℕ) (ms : List Monitor) (m : Monitor)
    → one_of id (ids (ms ++ m ∷ [])) ≡ (one_of id (ids ms) || (id == m.id))
unfolding one_of
one_of-append id [] m = ground arith
one_of-append id (x ∷ ms) m = ground (arith, one_of-append id ms m)

pub ids-update :
    (k : ℕ) (f : Monitor → Monitor)
    → ((m : Monitor) → (f m).id ≡ m.id)
    → (ms : List Monitor) → ids (update (λ m. m.id == k) f ms) ≡ ids ms
unfolding update
ids-update k f keep [] = refl
ids-update k f keep (m ∷ ms) =
    rw (ids-update k f keep ms)
      (elim (Bool-cases (m.id == k)) [ inl b ↦ rw b (rw (keep m) refl) | inr b ↦ rw b refl ])

pub one_of-delete :
    (id k : ℕ) (ms : List Monitor)
    → one_of id (ids ms) ≡ false
    → one_of id (ids (delete (λ m. m.id == k) ms)) ≡ false
unfolding one_of delete
one_of-delete id k [] h = refl
one_of-delete id k (m ∷ ms) h = ground (arith, one_of-delete id k ms)

pub distinct-delete :
    (k : ℕ) (ms : List Monitor)
    → distinct (ids ms) ≡ true
    → distinct (ids (delete (λ m. m.id == k) ms)) ≡ true
unfolding delete
distinct-delete k [] d = refl
distinct-delete k (m ∷ ms) d = ground (arith, distinct-delete k ms, one_of-delete m.id k ms)

pub distinct-append :
    (ms : List Monitor) (m : Monitor)
    → distinct (ids ms) ≡ true
    → is_some (find Monitor.id m.id ms) ≡ false
    → distinct (ids (ms ++ m ∷ [])) ≡ true
unfolding one_of find
distinct-append [] m d h = refl
distinct-append (x ∷ ms) m d h =
    ground (arith, distinct-append ms m, one_of-append x.id ms m, find-one_of x.id ms)

module _ (user : ℕ) where
  abbrev pub theirs : List Monitor → List Monitor
  theirs ms = select (λ m. m.user_id == user) ms

  -- Identities are keys, and the user has these rows.
  abbrev pub Has : List Monitor → Db → Type 0
  Has rows db = (distinct (ids db.monitors) ≡ true) × (theirs db.monitors ≡ rows)

  pub theirs-append :
      (ms : List Monitor) (m : Monitor) → m.user_id ≢ user → theirs (ms ++ m ∷ []) ≡ theirs ms
  unfolding select
  theirs-append [] m n = ground (arith, n)
  theirs-append (x ∷ ms) m n = ground (arith, theirs-append ms m n)

  pub theirs-update :
      (id : ℕ) (f : Monitor → Monitor)
      → ((m : Monitor) → (f m).user_id ≡ m.user_id)
      → (ms : List Monitor) → All (λ m. (m.id == id) ≡ false) (theirs ms)
      → theirs (update (λ m. m.id == id) f ms) ≡ theirs ms
  unfolding select update
  theirs-update id f keep [] h = refl
  theirs-update id f keep (m ∷ ms) h = elim (Bool-cases (m.user_id == user)) [
    | inl e ↦
        let (apart, rest) = rw e at h in
        rw apart (rw e (ap (◌∷◌ m) (theirs-update id f keep ms rest)))
    | inr e ↦ ground (arith, e, keep m, theirs-update id f keep ms (rw e at h))
  ]

  pub theirs-delete :
      (id : ℕ) (ms : List Monitor)
      → All (λ m. (m.id == id) ≡ false) (theirs ms)
      → theirs (delete (λ m. m.id == id) ms) ≡ theirs ms
  unfolding select delete
  theirs-delete id [] h = refl
  theirs-delete id (m ∷ ms) h = elim (Bool-cases (m.user_id == user)) [
    | inl e ↦
        let (apart, rest) = rw e at h in rw apart (rw e (ap (◌∷◌ m) (theirs-delete id ms rest)))
    | inr e ↦ ground (arith, e, theirs-delete id ms (rw e at h))
  ]

  pub none_theirs :
      (id : ℕ) (ms : List Monitor)
      → one_of id (ids ms) ≡ false
      → All (λ x. (x.id == id) ≡ false) (theirs ms)
  unfolding select one_of
  none_theirs id [] h = tt
  none_theirs id (x ∷ ms) h = elim (Bool-cases (x.user_id == user)) [
    | inl e ↦ rw e (ground (arith, h), none_theirs id ms (ground (arith, h)))
    | inr e ↦ rw e (none_theirs id ms (ground (arith, h)))
  ]

  pub found_one :
      (test : Monitor → Bool) (id : ℕ) (ms : List Monitor) (m : Monitor)
      → find Monitor.id id (select test ms) ≡ some m
      → one_of id (ids ms) ≡ true
  unfolding select find one_of
  found_one test id [] m h = cc
  found_one test id (x ∷ ms) m h = ground (arith, found_one test id ms m, h)

  pub not_theirs :
      (other id : ℕ) (ms : List Monitor) (m : Monitor)
      → other ≢ user
      → distinct (ids ms) ≡ true
      → find Monitor.id id (select (λ x. x.user_id == other) ms) ≡ some m
      → All (λ x. (x.id == id) ≡ false) (theirs ms)
  unfolding select find one_of
  not_theirs other id [] m n d h = tt
  not_theirs other id (x ∷ ms) m n d h = elim (Bool-cases (x.user_id == user)) [
    | inl e ↦
        let rest = rw (another e) at h in
        rw e (
          ground (arith, found_one _ id ms m rest, d),
          not_theirs other id ms m n (ground (arith, d)) rest,
        )
    | inr e ↦ rw e (elim (Bool-cases (x.user_id == other)) [
      | inr o ↦ not_theirs other id ms m n (ground (arith, d)) (rw o at h)
      | inl o ↦ elim (Bool-cases (x.id == id)) [
        | inl i ↦ none_theirs id ms (ground (arith, i, d))
        | inr i ↦ not_theirs other id ms m n (ground (arith, d)) (rw (o, i) at h)
      ]
    ])
  ]
    where
      another : (x.user_id == user) ≡ true → (x.user_id == other) ≡ false
      another e = ground (arith, e, n)
