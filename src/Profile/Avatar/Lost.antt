-- ===== src/Profile/Avatar/Lost.antt =====
-- What an upload leaves when the acknowledgement of its commit is lost.
use uptime.Prelude.{
  ℕ, suc, ◌≡◌, refl, ap, true, false, some, List, [], ◌∷◌, Bytes, arith, find, update, ◌==◌,
  Bool-cases, inl, inr,
}
use uptime.Store.Rows.{User}
use uptime.Store.Exec.{fine, lost, Fates, World, transaction}
use uptime.Store.Accounts.{update_user_avatar, find_user}
use uptime.Profile.Avatar.{File, Disk, avatar_error, has_file, recorded, record_file}
use uptime.Profile.Avatar.Users.{renamed}
use uptime.Profile.Avatar.Files.{has_not-remove}

find-renamed :
    (id : ℕ) (name target : Bytes) (us : List User) (u : User)
    → find (λ (v : User). v.id) id us ≡ some u
    → find (λ (v : User). v.id) id (renamed id name target us)
      ≡ some (record u { name = name; avatar_file = target })
unfolding find update
find-renamed id name target [] u h = absurd (ground arith)
find-renamed id name target (v ∷ vs) u h = elim (Bool-cases (v.id == id)) [
  | inl here ↦
      let same : v ≡ u = ground (arith, here, h) in
      rw (here, here)
        (ap (λ (x : User). some (record x { name = name; avatar_file = target })) same)
  | inr later ↦ rw (later, later) (find-renamed id name target vs u (ground (arith, later, h)))
]

-- where the acknowledgement of the commit of an upload is lost, and files can be removed, the
-- user is told that the avatar was not saved, while the row names the new file, which is not in
-- the directory.
pub record_file_lost :
    (disk : Disk) (id : ℕ) (name target : Bytes) (files : List File) (fs : Fates) (w : World)
    (u : User)
    → fs w.tick ≡ fine
    → fs (suc w.tick) ≡ fine
    → fs (suc (suc w.tick)) ≡ lost
    → find_user id w.db ≡ some u
    → disk.remove_ok target ≡ true
    → ((record_file disk id name target files fs w).0.0 ≡ avatar_error)
      × (find_user id (record_file disk id name target files fs w).1.db
          ≡ some (record u { name = name; avatar_file = target }))
      × (has_file target (record_file disk id name target files fs w).0.1 ≡ false)
unfolding record_file recorded update_user_avatar transaction
record_file_lost disk id name target files fs w u e e' e'' found removes = (
  rw (e, found, e', e'') refl,
  rw (e, found, e', e'') (find-renamed id name target w.db.users u found),
  rw (e, found, e', e'', removes) (has_not-remove target files),
)
