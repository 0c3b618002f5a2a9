-- ===== src/Profile.antt =====
-- backend/internal/profile/controller.go: the profile of an account. Unicode and the JSON decoder
-- are those of other packages.
pub mod Avatar
pub mod Elsewhere
use uptime.Prelude.{
  ℕ, Bool, true, false, not, ◌&&◌, Option, none, some, List, [], ◌∷◌, Bytes, codes, bytes_eq, split,
  leb, if◌then◌else◌,
}
use uptime.Store.Rows.{User}
use uptime.Store.Exec.{Error, record_not_found, Exec}
use uptime.Store.Accounts.{user_by_id, update_user_name, avatar_url}
use uptime.Http.Reply.{Reply, fault, json, Handler, reply, handle, signed_in}

pub record Unicode : Type 0 where
  pub trim_space : Bytes → Bytes
  pub valid_utf8 : Bytes → Bool
  pub rune_count : Bytes → ℕ
  pub has_control : Bytes → Bool

pub record ProfileResponse : Type 0 where
  pub id : ℕ
  pub email : Bytes
  pub name : Bytes
  pub avatar_url : Bytes
  pub created_at : ℕ

abbrev pub respond_profile : User → Reply ProfileResponse
respond_profile u = json 200 (record {
  id = u.id;
  email = u.email;
  name = u.name;
  avatar_url = avatar_url u;
  created_at = u.created_at;
})

abbrev pub unauthorized : {A : Type 0} → Reply A
unauthorized = fault 401 (codes "unauthorized") (codes "Please sign in to continue")

abbrev pub invalid_name : {A : Type 0} → Reply A
invalid_name =
    fault 400 (codes "invalid_name")
      (codes "Name must be at most 100 characters without control characters")

abbrev pub gone_or : {A : Type 0} → Bytes → Error → Reply A
gone_or message record_not_found = fault 401 (codes "unauthorized") (codes "User no longer exists")
gone_or message _ = fault 500 (codes "internal_error") message

-- The header Content-Type, and the name in the body: none where the body is longer than 4096 bytes,
-- has other fields, more than one value, or no name.
pub record NameUpload : Type 0 where
  pub content_type : Bytes
  pub body : Option Bytes

abbrev first_piece : List Bytes → Bytes
first_piece [] = []
first_piece (p ∷ ps) = p

module _ (text : Unicode) where
  unfoldable pub valid_name : Bytes → Bool
  valid_name name =
      text.valid_utf8 name && leb (text.rune_count name) 100 && not (text.has_control name)

  answer_profile : Exec User → Handler ProfileResponse
  answer_profile work =
      handle (gone_or (codes "Unable to load or save profile")) (λ u. reply (respond_profile u))
        work

  save_name : ℕ → Bytes → Handler ProfileResponse
  unfolding valid_name answer_profile
  save_name id name =
      if not (valid_name name)
      then reply invalid_name
      else answer_profile (update_user_name id name)

  named : ℕ → Option Bytes → Handler ProfileResponse
  unfolding save_name
  named id none =
      reply (fault 400 (codes "invalid_request") (codes "Provide only the name field as a string"))
  named id (some name) = save_name id (text.trim_space name)

  -- PATCH
  unfoldable pub update_profile : Option ℕ → NameUpload → Handler ProfileResponse
  unfolding named
  update_profile identity r =
      signed_in unauthorized
        (λ id. named id (
          if bytes_eq (first_piece (split b';' r.content_type)) (codes "application/json")
          then r.body
          else none))
        identity

  -- GET
  unfoldable pub get_profile : Option ℕ → Handler ProfileResponse
  unfolding answer_profile
  get_profile identity = signed_in unauthorized (λ id. answer_profile (user_by_id id)) identity
