-- ===== src/Profile/Avatar/Files.antt =====
-- Files that stay where others are added and removed.
use uptime.Prelude.{
  ◌≡◌, refl, ap, true, false, not, ◌||◌, List, [], ◌∷◌, delete, All, arith, Bytes, bytes_eq,
  bytes_eq_iff, Bool-cases, inl, inr,
}
use uptime.Store.Rows.{User}
use uptime.Profile.Avatar.{
  hex_run, after_dash, File, Disk, has_file, remove, try_remove, avatar_filename, clean_up,
}
use uptime.Profile.Avatar.Users.{unused}

abbrev pub Present : List File → Bytes → Type 0
Present files name = (bytes_eq name [] || has_file name files) ≡ true

pub has-remove :
    (name other : Bytes) (fs : List File)
    → bytes_eq name other ≡ false
    → has_file name (remove other fs) ≡ has_file name fs
unfolding delete
has-remove name other [] h = refl
has-remove name other (f ∷ fs) h = ground (
  arith,
  has-remove name other fs h,
  bytes_eq_iff f.name name,
  bytes_eq_iff f.name other,
  bytes_eq_iff name other,
)

pub has_not-remove : (name : Bytes) (fs : List File) → has_file name (remove name fs) ≡ false
unfolding delete
has_not-remove name [] = refl
has_not-remove name (f ∷ fs) = ground (arith, has_not-remove name fs)

module _ (disk : Disk) where
  pub Present-add : (f : File) (fs : List File) (n : Bytes) → Present fs n → Present (f ∷ fs) n
  Present-add f fs n h = ground arith

  pub Present-remove :
      (other : Bytes) (fs : List File) (n : Bytes)
      → bytes_eq n other ≡ false
      → Present fs n
      → Present (remove other fs) n
  Present-remove other fs n e h = ground (arith, has-remove n other fs e)

  pub stays :
      (other : Bytes) (fs : List File) (n : Bytes)
      → bytes_eq n other ≡ false
      → Present fs n
      → Present (try_remove disk other fs) n
  stays other fs n e h = elim (Bool-cases (disk.remove_ok other)) [
    | inl removes ↦ rw removes (Present-remove other fs n e h)
    | inr keeps ↦ rw keeps h
  ]

  pub no_name : avatar_filename [] ≡ false
  unfolding avatar_filename hex_run after_dash
  no_name = refl

  pub stays_clean :
      (old : Bytes) (fs : List File) (n : Bytes)
      → (bytes_eq old [] || not (bytes_eq n old)) ≡ true
      → Present fs n
      → Present (clean_up disk old fs) n
  stays_clean old fs n e h = elim (Bool-cases (avatar_filename old)) [
    | inr other ↦ rw other h
    | inl proper ↦ rw proper (
        stays old fs n
          (ground (arith, no_name, bytes_eq_iff old [], ap avatar_filename {x = old} {y = []})) h)
  ]

  pub stay_all :
      (other : Bytes) (fs : List File) (us : List User)
      → unused other us ≡ true
      → All (λ u. Present fs u.avatar_file) us
      → All (λ u. Present (try_remove disk other fs) u.avatar_file) us
  stay_all other fs [] e h = tt
  stay_all other fs (u ∷ us) e h =
      (stays other fs u.avatar_file (ground arith) h.0, stay_all other fs us (ground arith) h.1)

  pub put_all :
      (target content : Bytes) (fs : List File) (us : List User)
      → unused target us ≡ true
      → All (λ u. Present fs u.avatar_file) us
      → All
          (λ u.
            Present (record { name = target; content = content } ∷ remove target fs) u.avatar_file)
          us
  put_all target content fs [] e h = tt
  put_all target content fs (u ∷ us) e h = (
    Present-add (record { name = target; content = content }) (remove target fs) u.avatar_file
        (Present-remove target fs u.avatar_file (ground arith) h.0),
    put_all target content fs us (ground arith) h.1,
  )
