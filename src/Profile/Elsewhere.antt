-- ===== src/Profile/Elsewhere.antt =====
-- The handlers of backend/internal/profile leave monitors alone.
use uptime.Prelude.{ℕ, not, Option, none, some, List, Bytes, codes, Bool-cases, inl, inr}
use uptime.Store.Rows.{Db, Monitor, User}
use uptime.Store.Exec.{Result, ok, err, Exec, or_not_found}
use uptime.Store.Exec.Keeps.{OnOk, Keeps, read-Keeps, alone-Keeps}
use uptime.Store.Accounts.{find_user, user_by_id, update_user_name}
use uptime.Http.Reply.{reply}
use uptime.Http.Reply.Keeps.{HandlerKeeps, handle-Keeps, signed_in-Keeps}
use uptime.Profile.{
  Unicode, NameUpload, unauthorized, gone_or, respond_profile, valid_name, answer_profile,
  save_name, named, update_profile, get_profile,
}

module _ (I : Db → Type 0) (text : Unicode) where
  answer_profile-Keeps :
      (work : Exec User) → Keeps I (λ u. Unit) work → HandlerKeeps I (answer_profile text work)
  unfolding answer_profile
  answer_profile-Keeps work h =
      handle-Keeps I (gone_or (codes "Unable to load or save profile")) (λ u. Unit)
        (λ u. reply (respond_profile u)) work h (λ u p fs w s. s)

  pub get_profile-Keeps : (identity : Option ℕ) → HandlerKeeps I (get_profile text identity)
  unfolding get_profile user_by_id
  get_profile-Keeps identity =
      signed_in-Keeps I unauthorized (λ id. answer_profile text (user_by_id id)) identity
        (λ id q.
          answer_profile-Keeps (user_by_id id)
            (read-Keeps I (λ db. or_not_found (find_user id db))))

module _ (J : List Monitor → Type 0) where
  abbrev Of : Db → Type 0
  Of db = J db.monitors

  anything : {A : Type 0} (r : Result A) → OnOk Of (λ a. Unit) r
  anything (ok a) = tt
  anything (err e) = tt

  update_user_name-Keeps : (id : ℕ) (name : Bytes) → Keeps Of (λ u. Unit) (update_user_name id name)
  unfolding update_user_name
  update_user_name-Keeps id name = alone-Keeps Of (λ u. Unit) _ (λ db h. (anything _, h))

  module _ (text : Unicode) where
    named-Keeps : (id : ℕ) (o : Option Bytes) → HandlerKeeps Of (named text id o)
    unfolding named save_name
    named-Keeps id none fs w s = s
    named-Keeps id (some name) fs w s =
        elim (Bool-cases (not (valid_name text (text.trim_space name)))) [
          | inl e ↦ rw e s
          | inr e ↦ rw e (
              answer_profile-Keeps Of text (update_user_name id (text.trim_space name))
                (update_user_name-Keeps id (text.trim_space name)) fs w s)
        ]

    pub update_profile-Keeps :
        (identity : Option ℕ) (r : NameUpload) → HandlerKeeps Of (update_profile text identity r)
    unfolding update_profile
    update_profile-Keeps identity r =
        signed_in-Keeps Of unauthorized _ identity (λ id q. named-Keeps id _)
