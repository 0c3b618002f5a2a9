-- ===== src/Profile/Avatar/Users.antt =====
-- Users with distinct identities and files, and the change of one of them.
use uptime.Prelude.{
  ℕ, ◌≡◌, refl, ap, subst, Bool, true, false, not, ◌&&◌, ◌||◌, some, List, [], ◌∷◌, update, All,
  arith, Bytes, bytes_eq, bytes_eq_iff, ◌==◌, find, Bool-cases, inl, inr,
}
use uptime.Store.Rows.{User}

-- No other user has this avatar.
abbrev pub alone_with : Bytes → List User → Bool
alone_with name [] = true
alone_with name (u ∷ us) =
    (bytes_eq name [] || not (bytes_eq u.avatar_file name)) && alone_with name us

abbrev pub no_sharing : List User → Bool
no_sharing [] = true
no_sharing (u ∷ us) = alone_with u.avatar_file us && no_sharing us

abbrev pub lacks_id : ℕ → List User → Bool
lacks_id id [] = true
lacks_id id (u ∷ us) = not (u.id == id) && lacks_id id us

abbrev pub unique_users : List User → Bool
unique_users [] = true
unique_users (u ∷ us) = lacks_id u.id us && unique_users us

abbrev pub unused : Bytes → List User → Bool
unused name [] = true
unused name (u ∷ us) = not (bytes_eq u.avatar_file name) && unused name us

abbrev pub renamed : ℕ → Bytes → Bytes → List User → List User
renamed id name target us =
    update (λ v. v.id == id) (λ v. record v { name = name; avatar_file = target }) us

module _ (id : ℕ) (name target : Bytes) where
  pub lacks_id-renamed :
      (x : ℕ) (us : List User) → lacks_id x (renamed id name target us) ≡ lacks_id x us
  unfolding update
  lacks_id-renamed x [] = refl
  lacks_id-renamed x (u ∷ us) = ground (arith, lacks_id-renamed x us)

  pub unique-renamed : (us : List User) → unique_users (renamed id name target us) ≡ unique_users us
  unfolding update
  unique-renamed [] = refl
  unique-renamed (u ∷ us) = ground (arith, unique-renamed us, lacks_id-renamed u.id us)

  pub renamed_none : (us : List User) → lacks_id id us ≡ true → renamed id name target us ≡ us
  unfolding update
  renamed_none [] h = refl
  renamed_none (u ∷ us) h = ground (arith, renamed_none us)

  pub alone-renamed :
      (other : Bytes) (us : List User)
      → alone_with other us ≡ true
      → bytes_eq target other ≡ false
      → alone_with other (renamed id name target us) ≡ true
  unfolding update
  alone-renamed other [] h e = refl
  alone-renamed other (u ∷ us) h e = ground (arith, alone-renamed other us)

  pub unused_alone : (us : List User) → unused target us ≡ true → alone_with target us ≡ true
  unused_alone [] h = refl
  unused_alone (u ∷ us) h = ground (arith, unused_alone us)

  pub sharing-renamed :
      (us : List User)
      → unique_users us ≡ true
      → no_sharing us ≡ true
      → unused target us ≡ true
      → no_sharing (renamed id name target us) ≡ true
  unfolding update
  sharing-renamed [] u n f = refl
  sharing-renamed (v ∷ us) u n f = ground (
    arith,
    renamed_none us,
    unused_alone us,
    alone-renamed v.avatar_file us,
    sharing-renamed us,
    bytes_eq_iff v.avatar_file target,
    bytes_eq_iff target v.avatar_file,
  )

pub alone-found :
    (n : Bytes) (id : ℕ) (us : List User) (f : User)
    → alone_with n us ≡ true
    → find (λ (u : User). u.id) id us ≡ some f
    → (bytes_eq n [] || not (bytes_eq f.avatar_file n)) ≡ true
unfolding find
alone-found n id [] f a e = absurd (ground arith)
alone-found n id (u ∷ us) f a e = elim (Bool-cases (u.id == id)) [
  | inl here ↦
      let same : u ≡ f = ground (arith, here, e) in ground (arith, ap User.avatar_file same)
  | inr later ↦ alone-found n id us f (ground arith) (ground (arith, later, e))
]

pub found_unused :
    (target : Bytes) (id : ℕ) (us : List User) (f : User)
    → unused target us ≡ true
    → find (λ (u : User). u.id) id us ≡ some f
    → bytes_eq f.avatar_file target ≡ false
unfolding find
found_unused target id [] f a e = absurd (ground arith)
found_unused target id (u ∷ us) f a e = elim (Bool-cases (u.id == id)) [
  | inl here ↦
      let same : u ≡ f = ground (arith, here, e) in ground (arith, ap User.avatar_file same)
  | inr later ↦ found_unused target id us f (ground arith) (ground (arith, later, e))
]

-- Another user than the one that is found has another file.
abbrev pub Differs : ℕ → User → User → Type 0
Differs id f u =
    ((u.id == id) || bytes_eq f.avatar_file [] || not (bytes_eq u.avatar_file f.avatar_file)) ≡ true

pub alone-Differs :
    (id : ℕ) (f : User) (us : List User)
    → alone_with f.avatar_file us ≡ true
    → All (Differs id f) us
alone-Differs id f [] a = tt
alone-Differs id f (u ∷ us) a = (ground arith, alone-Differs id f us (ground arith))

pub found-Differs :
    (id : ℕ) (us : List User) (f : User)
    → no_sharing us ≡ true
    → find (λ (u : User). u.id) id us ≡ some f
    → All (Differs id f) us
unfolding find
found-Differs id [] f n e = tt
found-Differs id (u ∷ us) f n e = elim (Bool-cases (u.id == id)) [
  | inl here ↦
      let same : u ≡ f = ground (arith, here, e) in
      (
        ground arith,
        alone-Differs id f us (subst (λ x. alone_with x.avatar_file us ≡ true) same (ground arith)),
      )
  | inr later ↦
      let e' : find (λ (x : User). x.id) id us ≡ some f = ground (arith, later, e) in
      let apart = alone-found u.avatar_file id us f (ground arith) e' in
      (
        ground (
          arith,
          apart,
          bytes_eq_iff u.avatar_file f.avatar_file,
          bytes_eq_iff f.avatar_file u.avatar_file,
          bytes_eq_iff u.avatar_file [],
          bytes_eq_iff f.avatar_file [],
        ),
        found-Differs id us f (ground arith) e',
      )
]
