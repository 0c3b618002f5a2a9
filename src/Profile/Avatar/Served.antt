-- ===== src/Profile/Avatar/Served.antt =====
-- The avatars that rows name are in the directory, after any upload.
use uptime.Prelude.{
  ℕ, suc, ◌≡◌, ◌≢◌, refl, ◌∙◌, true, false, ◌&&◌, Option, none, some, List, [], ◌∷◌, ◌++◌, length,
  take, update, All, All-mono, arith, Bytes, codes, bytes_eq, bytes_eq_iff, ltb, ◌==◌, Bool-cases,
  Option-cases, inl, inr, ◌⊎◌,
}
use uptime.Store.Rows.{User}
use uptime.Store.Exec.{
  Result, ok, err, Error, Fate, fine, failing, lost, Fates, World, record_not_found, database,
  transaction,
}
use uptime.Store.Accounts.{update_user_avatar, find_user}
use uptime.Http.Reply.{Reply}
use uptime.Profile.{valid_name, Unicode, ProfileResponse}
use uptime.Profile.Avatar.{
  avatar_error, extension, decode_avatar, Part, form, oversize, malformed, Format, png, jpeg,
  other as other_format, max_avatar_bytes, File, Disk, Saved, Images, Multipart, remove, try_remove,
  recorded, record_file, place_file, encoded, save_image, read_part, named_part, parsed,
  upload_avatar, clean_up, dispose,
}
use uptime.Profile.Avatar.Users.{
  no_sharing, unique_users, unused, renamed, unique-renamed, sharing-renamed, found_unused, Differs,
  found-Differs,
}
use uptime.Profile.Avatar.Files.{Present, Present-add, stays, stays_clean, stay_all, put_all}

-- Users have distinct identities and files, and their files exist.
abbrev pub Served : List User → List File → Type 0
Served us files =
    (unique_users us ≡ true) × (no_sharing us ≡ true) × All (λ u. Present files u.avatar_file) us

-- No acknowledgement is lost.
abbrev pub NothingLost : Fates → Type 0
NothingLost fs = (n : ℕ) → fs n ≢ lost

module _ (fs : Fates) (sound : NothingLost fs) where
  fate_cases : (n : ℕ) → (fs n ≡ fine) ⊎ (fs n ≡ failing)
  fate_cases n = by_fate (fs n) (sound n)
    where
      by_fate : (f : Fate) → f ≢ lost → (f ≡ fine) ⊎ (f ≡ failing)
      by_fate fine h = inl refl
      by_fate failing h = inr refl
      by_fate lost h = absurd (h refl)

  abbrev Unchanged : World → Result (User × Bytes) × World → Type 0
  Unchanged w o = (e : Error) × (o.0 ≡ err e) × (o.1.db ≡ w.db)

  abbrev Changed : ℕ → Bytes → Bytes → World → Result (User × Bytes) × World → Type 0
  Changed id name target w o =
      (u : User) × (find_user id w.db ≡ some u)
      × (o.0 ≡ ok (record u { name = name; avatar_file = target }, u.avatar_file))
      × (o.1.db ≡ record w.db { users = renamed id name target w.db.users })

  update_cases :
      (id : ℕ) (name target : Bytes) (w : World)
      → Unchanged w (update_user_avatar id name target fs w)
        ⊎ Changed id name target w (update_user_avatar id name target fs w)
  unfolding update_user_avatar transaction
  update_cases id name target w = elim (fate_cases w.tick) [
    | inr e ↦ inl (rw e (database, refl, refl))
    | inl e ↦ elim (Option-cases (find_user id w.db)) [
      | inl missing ↦ inl (rw (e, missing) (record_not_found, refl, refl))
      | inr (u, found) ↦ elim (fate_cases (suc w.tick)) [
        | inr e' ↦ inl (rw (e, found, e') (database, refl, refl))
        | inl e' ↦ elim (fate_cases (suc (suc w.tick))) [
          | inr e'' ↦ inl (rw (e, found, e', e'') (database, refl, refl))
          | inl e'' ↦ inr (u, found, rw (e, found, e', e'') refl, rw (e, found, e', e'') refl)
        ]
      ]
    ]
  ]

abbrev pub Good : Saved → Type 0
Good s = Served s.1.db.users s.0.1

module _ (fs : Fates) (sound : NothingLost fs) (disk : Disk) (w : World) (files : List File)
    (served : Served w.db.users files) (temp_unused : unused disk.temp w.db.users ≡ true) where
  -- The temporary file comes and goes.
  dispose-Good : (r : Reply ProfileResponse) (f : File) → Good (dispose disk ((r, f ∷ files), w))
  dispose-Good r f = (
    served.0,
    served.1,
    stay_all disk disk.temp (f ∷ files) w.db.users temp_unused (add_all f w.db.users served.2),
  )
    where
      add_all :
          (f : File) (us : List User)
          → All (λ u. Present files u.avatar_file) us
          → All (λ u. Present (f ∷ files) u.avatar_file) us
      add_all f us h =
          All-mono (λ u. Present files u.avatar_file) (λ u. Present (f ∷ files) u.avatar_file)
            (λ u p. Present-add disk f files u.avatar_file p) us h

  module _ (id : ℕ) (name target content : Bytes) (target_unused : unused target w.db.users ≡ true)
      (apart : bytes_eq target disk.temp ≡ false) where
    abbrev placed : List File
    placed = record { name = target; content = content } ∷ remove target files

    abbrev outcome : Result (User × Bytes) × World → Saved
    outcome o = dispose disk (recorded disk target placed o.0 o.1)

    final_all :
        (f : User)
        → bytes_eq f.avatar_file target ≡ false
        → (us : List User) → unused disk.temp us ≡ true
        → All (λ u. Present placed u.avatar_file) us
        → All (Differs id f) us
        → All
            (λ u.
              Present
                (try_remove disk disk.temp (clean_up disk f.avatar_file placed))
                u.avatar_file)
            (renamed id name target us)
    unfolding update
    final_all f other [] t p d = tt
    final_all f other (u ∷ us) t p d =
        let rest = final_all f other us (ground arith) p.1 d.1 in
        let here : Present placed target = ground (arith, bytes_eq_iff target target) in
        elim (Bool-cases (u.id == id)) [
          | inl mine ↦ rw mine (
            stays disk disk.temp (clean_up disk f.avatar_file placed) target apart (
                stays_clean disk f.avatar_file placed target
                  (ground (
                    arith,
                    other,
                    bytes_eq_iff target f.avatar_file,
                    bytes_eq_iff f.avatar_file target,
                  ))
                  here),
            rest,
          )
          | inr else_where ↦ rw else_where (
            stays disk disk.temp (clean_up disk f.avatar_file placed) u.avatar_file (ground arith)
                (stays_clean disk f.avatar_file placed u.avatar_file (ground (arith, d.0)) p.0),
            rest,
          )
        ]

    kept-Good : (o : Result (User × Bytes) × World) → Unchanged fs sound w o → Good (outcome o)
    unfolding recorded
    kept-Good (r, w') (e, failed, same) =
        rw (failed, same)
          (
            served.0,
            served.1,
            stay_all disk disk.temp (try_remove disk target placed) w.db.users temp_unused (
                stay_all disk target placed w.db.users target_unused
                  (put_all disk target content files w.db.users target_unused served.2)),
          )

    Changed-Good :
        (o : Result (User × Bytes) × World) → Changed fs sound id name target w o → Good (outcome o)
    unfolding recorded
    Changed-Good (r, w') (f, found, saved, after) =
        rw (saved, after)
          (
            unique-renamed id name target w.db.users ∙ served.0,
            sharing-renamed id name target w.db.users served.0 served.1 target_unused,
            final_all f (found_unused target id w.db.users f target_unused found) w.db.users
                temp_unused (put_all disk target content files w.db.users target_unused served.2)
                (found-Differs id w.db.users f served.1 found),
          )

    record-Good : Good (dispose disk (record_file disk id name target placed fs w))
    unfolding record_file
    record-Good = elim (update_cases fs sound id name target w) [
      | inl same ↦ kept-Good (update_user_avatar id name target fs w) same
      | inr new ↦ Changed-Good (update_user_avatar id name target fs w) new
    ]

    place-Good : Good (place_file disk id name target content files fs w)
    unfolding place_file
    place-Good = elim (Bool-cases disk.close_ok) [
      | inr torn ↦
          rw torn (dispose-Good avatar_error (record { name = disk.temp; content = content }))
      | inl closed ↦ rw closed (elim (Bool-cases disk.rename_ok) [
        | inr stuck ↦
            rw stuck (dispose-Good avatar_error (record { name = disk.temp; content = content }))
        | inl moved ↦ rw moved record-Good
      ])
    ]

-- The names that are drawn are new.
abbrev pub Fresh : Disk → List User → Type 0
Fresh disk us =
    (unused disk.temp us ≡ true)
    × (unused (disk.uuid ++ codes ".png") us ≡ true)
    × (bytes_eq (disk.uuid ++ codes ".png") disk.temp ≡ false)
    × (unused (disk.uuid ++ codes ".jpg") us ≡ true)
    × (bytes_eq (disk.uuid ++ codes ".jpg") disk.temp ≡ false)

module _ (fs : Fates) (sound : NothingLost fs) (text : Unicode) (images : Images) (disk : Disk)
    (files : List File) (w : World) (served : Served w.db.users files)
    (fresh : Fresh disk w.db.users) where
  extension-Fresh :
      (format : Format)
      → (unused (disk.uuid ++ extension format) w.db.users ≡ true)
        × (bytes_eq (disk.uuid ++ extension format) disk.temp ≡ false)
  extension-Fresh png = (fresh.1, fresh.2)
  extension-Fresh jpeg = (fresh.3, fresh.4)
  extension-Fresh other_format = (fresh.1, fresh.2)

  encoded-Good :
      (id : ℕ) (name : Bytes) (format : Format) (o : Option Bytes)
      → Good (encoded disk id name (disk.uuid ++ extension format) o files fs w)
  unfolding encoded
  encoded-Good id name format none =
      dispose-Good fs sound disk w files served fresh.0 avatar_error
        (record { name = disk.temp; content = [] })
  encoded-Good id name format (some content) =
      place-Good fs sound disk w files served fresh.0 id name (disk.uuid ++ extension format)
        content (extension-Fresh format).0 (extension-Fresh format).1

  image-Good :
      (id : ℕ) (name : Bytes) (o : Option (Bytes × Format))
      → Good (save_image images disk id name o files fs w)
  unfolding save_image
  image-Good id name none = served
  image-Good id name (some (image, format)) = elim (Bool-cases (disk.mkdir_ok && disk.create_ok)) [
    | inl made ↦ rw made (encoded-Good id name format (images.encode format image))
    | inr full ↦ rw full served
  ]

  read-Good :
      (id : ℕ) (name : Bytes) (o : Option Bytes) → Good (read_part images disk id name o files fs w)
  unfolding read_part
  read-Good id name none = served
  read-Good id name (some content) =
      elim (Bool-cases (ltb max_avatar_bytes (length (take (suc max_avatar_bytes) content)))) [
        | inl long ↦ rw long served
        | inr fits ↦
            rw fits
              (image-Good id name (decode_avatar images (take (suc max_avatar_bytes) content)))
      ]

  part-Good :
      (id : ℕ) (name : Bytes) (part : Part)
      → Good (named_part text images disk id name part files fs w)
  unfolding named_part
  part-Good id name part = elim (Bool-cases (valid_name text name)) [
    | inr bad ↦ rw bad served
    | inl proper ↦ rw proper (elim (Bool-cases (ltb max_avatar_bytes part.size)) [
      | inl long ↦ rw long served
      | inr fits ↦ rw fits (read-Good id name part.content)
    ])
  ]

  parsed-Good : (id : ℕ) (body : Multipart) → Good (parsed text images disk id body files fs w)
  unfolding parsed
  parsed-Good id oversize = served
  parsed-Good id malformed = served
  parsed-Good id (form ((k, part) ∷ []) ((k', name) ∷ [])) =
      elim (Bool-cases (bytes_eq k (codes "avatar") && bytes_eq k' (codes "name"))) [
        | inl right ↦ rw right (part-Good id (text.trim_space name) part)
        | inr wrong ↦ rw wrong served
      ]
  parsed-Good id (form _ _) = served

  -- where no acknowledgement is lost and the drawn names are new, whatever an upload contains and
  -- whichever operations on files or statements fail, users that have distinct identities and
  -- avatars, all of them in the directory, have so after the upload.
  pub upload_avatar-Good :
      (identity : Option ℕ) (body : Multipart)
      → Good (upload_avatar text images disk identity body files fs w)
  unfolding upload_avatar
  upload_avatar-Good none body = served
  upload_avatar-Good (some id) body = parsed-Good id body
