-- ===== src/Profile/Avatar/Elsewhere.antt =====
-- An upload of backend/internal/profile/avatar.go leaves monitors alone.
use uptime.Prelude.{
  ℕ, ◌&&◌, Option, none, some, List, [], ◌∷◌, ◌++◌, Bytes, codes, bytes_eq, length, take, suc, ltb,
  ◌==◌, Bool-cases, inl, inr, update,
}
use uptime.Store.Rows.{Db, Monitor, User}
use uptime.Store.Exec.{Result, ok, err, Fates, World, pure, query, write, or_not_found, ◌>>◌}
use uptime.Store.Exec.Keeps.{
  Safe, Keeps, pure-Keeps, read-Keeps, write-Keeps, transaction-Keeps, bind-Keeps, then-Keeps,
}
use uptime.Store.Accounts.{find_user, update_user_avatar}
use uptime.Profile.{Unicode, valid_name}
use uptime.Profile.Avatar.{
  File, Disk, Part, Multipart, oversize, malformed, form, Images, Format, Saved, recorded,
  record_file, place_file, encoded, save_image, read_part, named_part, parsed, upload_avatar,
  decode_avatar, extension, max_avatar_bytes,
}

module _ (J : List Monitor → Type 0) where
  abbrev Of : Db → Type 0
  Of db = J db.monitors

  set_avatar : ℕ → Bytes → Bytes → Db → Db
  set_avatar id name filename db = record db {
    users =
        update (λ (v : User). v.id == id) (λ v. record v { name = name; avatar_file = filename })
          db.users;
  }

  update_user_avatar-Keeps :
      (id : ℕ) (name filename : Bytes) → Keeps Of (λ u. Unit) (update_user_avatar id name filename)
  unfolding update_user_avatar set_avatar
  update_user_avatar-Keeps id name filename =
      transaction-Keeps Of (λ u. Unit) _
        (bind-Keeps Of (λ u. Unit) (λ u. Unit) (query (λ db. or_not_found (find_user id db)))
          (λ u.
            write (λ db. (ok tt, set_avatar id name filename db))
            >> pure (record u { name = name; avatar_file = filename }, u.avatar_file))
          (read-Keeps Of (λ db. or_not_found (find_user id db)))
          (λ u p.
            then-Keeps Of (λ u. Unit) (write (λ db. (ok tt, set_avatar id name filename db)))
              (pure (record u { name = name; avatar_file = filename }, u.avatar_file))
              (write-Keeps Of (λ x. Unit) (λ db. (ok tt, set_avatar id name filename db))
                (λ db h. (tt, h)))
              (pure-Keeps Of {A = User × Bytes} (λ x. Unit)
                (record u { name = name; avatar_file = filename }, u.avatar_file) tt)))

  module _ (text : Unicode) (images : Images) (disk : Disk) (fs : Fates) (w : World)
      (s : Safe Of w) where
    abbrev Well : Saved → Type 0
    Well saved = Safe Of saved.1

    recorded-Well :
        (target : Bytes) (files : List File) (r : Result (User × Bytes)) (w' : World)
        → Safe Of w'
        → Well (recorded disk target files r w')
    unfolding recorded
    recorded-Well target files (ok (u, old)) w' s' = s'
    recorded-Well target files (err e) w' s' = s'

    place-Well :
        (id : ℕ) (name target content : Bytes) (files : List File)
        → Well (place_file disk id name target content files fs w)
    unfolding place_file record_file
    place-Well id name target content files = elim (Bool-cases disk.close_ok) [
      | inr torn ↦ rw torn s
      | inl closed ↦ rw closed (elim (Bool-cases disk.rename_ok) [
        | inr stuck ↦ rw stuck s
        | inl moved ↦ rw moved (
            recorded-Well target _ (update_user_avatar id name target fs w).0
              (update_user_avatar id name target fs w).1
              (update_user_avatar-Keeps id name target fs w s).1)
      ])
    ]

    encoded-Well :
        (id : ℕ) (name target : Bytes) (o : Option Bytes) (files : List File)
        → Well (encoded disk id name target o files fs w)
    unfolding encoded
    encoded-Well id name target none files = s
    encoded-Well id name target (some content) files = place-Well id name target content files

    image-Well :
        (id : ℕ) (name : Bytes) (o : Option (Bytes × Format)) (files : List File)
        → Well (save_image images disk id name o files fs w)
    unfolding save_image
    image-Well id name none files = s
    image-Well id name (some (image, format)) files =
        elim (Bool-cases (disk.mkdir_ok && disk.create_ok)) [
          | inl made ↦ rw made (
              encoded-Well id name (disk.uuid ++ extension format) (images.encode format image)
                files)
          | inr full ↦ rw full s
        ]

    read-Well :
        (id : ℕ) (name : Bytes) (o : Option Bytes) (files : List File)
        → Well (read_part images disk id name o files fs w)
    unfolding read_part
    read-Well id name none files = s
    read-Well id name (some content) files =
        elim (Bool-cases (ltb max_avatar_bytes (length (take (suc max_avatar_bytes) content)))) [
          | inl long ↦ rw long s
          | inr fits ↦ rw fits (
              image-Well id name (decode_avatar images (take (suc max_avatar_bytes) content)) files)
        ]

    part-Well :
        (id : ℕ) (name : Bytes) (part : Part) (files : List File)
        → Well (named_part text images disk id name part files fs w)
    unfolding named_part
    part-Well id name part files = elim (Bool-cases (valid_name text name)) [
      | inr bad ↦ rw bad s
      | inl proper ↦ rw proper (elim (Bool-cases (ltb max_avatar_bytes part.size)) [
        | inl long ↦ rw long s
        | inr fits ↦ rw fits (read-Well id name part.content files)
      ])
    ]

    parsed-Well :
        (id : ℕ) (body : Multipart) (files : List File)
        → Well (parsed text images disk id body files fs w)
    unfolding parsed
    parsed-Well id oversize files = s
    parsed-Well id malformed files = s
    parsed-Well id (form ((k, part) ∷ []) ((k', name) ∷ [])) files =
        elim (Bool-cases (bytes_eq k (codes "avatar") && bytes_eq k' (codes "name"))) [
          | inl right ↦ rw right (part-Well id (text.trim_space name) part files)
          | inr wrong ↦ rw wrong s
        ]
    parsed-Well id (form _ _) files = s

    pub upload_avatar-Keeps :
        (identity : Option ℕ) (body : Multipart) (files : List File)
        → Well (upload_avatar text images disk identity body files fs w)
    unfolding upload_avatar
    upload_avatar-Keeps none body files = s
    upload_avatar-Keeps (some id) body files = parsed-Well id body files
