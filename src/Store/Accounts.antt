-- ===== src/Store/Accounts.antt =====
-- The statements of backend/internal/store/store.go on users, sessions and refresh tokens.
pub mod Elsewhere
use uptime.Prelude.{
  ℕ, Bool, true, false, ◌&&◌, ◌||◌, Option, none, some, List, [], ◌∷◌, ◌++◌, Bytes, codes, bytes_eq,
  find, update, ◌==◌, if◌then◌else◌,
}
use uptime.Store.Rows.{Db, User, Session, RefreshToken}
use uptime.Store.Exec.{
  Result, ok, err, duplicated_key, database, Exec, query, write, alone, lock, transaction,
  or_not_found, pure, ◌>>=◌, ◌>>◌,
}

abbrev pub find_user : ℕ → Db → Option User
find_user id db = find (λ (u : User). u.id) id db.users

abbrev pub find_session : ℕ → Db → Option Session
find_session id db = find (λ (s : Session). s.id) id db.sessions

abbrev pub find_token : ℕ → Db → Option RefreshToken
find_token hash db = find (λ (t : RefreshToken). t.hash) hash db.tokens

unfoldable pub find_email : Bytes → List User → Option User
find_email email [] = none
find_email email (u ∷ us) = if bytes_eq u.email email then some u else find_email email us

abbrev pub is_some {ℓ} : {A : Type ℓ} → Option A → Bool
is_some none = false
is_some (some a) = true

-- The primary key and the unique email.
unfoldable pub insert_user : User → Db → Result (Unit {0}) × Db
insert_user u db =
    if is_some (find_user u.id db) || is_some (find_email u.email db.users)
    then (err duplicated_key, db)
    else (ok tt, record db { users = db.users ++ u ∷ [] })

-- The primary key, and the reference to a user.
unfoldable pub insert_session : Session → Db → Result (Unit {0}) × Db
insert_session s db =
    if is_some (find_session s.id db)
    then (err duplicated_key, db)
    else if is_some (find_user s.user_id db)
    then (ok tt, record db { sessions = db.sessions ++ s ∷ [] })
    else (err database, db)

-- The primary key, and the reference to a session.
unfoldable pub insert_token : RefreshToken → Db → Result (Unit {0}) × Db
insert_token t db =
    if is_some (find_token t.hash db)
    then (err duplicated_key, db)
    else if is_some (find_session t.session_id db)
    then (ok tt, record db { tokens = db.tokens ++ t ∷ [] })
    else (err database, db)

unfoldable pub create_user : User → Exec (Unit {0})
create_user u = write (insert_user u)

unfoldable pub create_session : Session → Exec (Unit {0})
create_session s = write (insert_session s)

unfoldable pub create_token : RefreshToken → Exec (Unit {0})
create_token t = write (insert_token t)

unfoldable pub user_by_email : Bytes → Exec User
user_by_email email = query (λ db. or_not_found (find_email email db.users))

unfoldable pub user_by_id : ℕ → Exec User
user_by_id id = query (λ db. or_not_found (find_user id db))

unfoldable pub token_row : ℕ → Exec RefreshToken
token_row hash = query (λ db. or_not_found (find_token hash db))

-- `others` is what other transactions commit while this one waits for the row.
unfoldable pub lock_session : (Db → Db) → ℕ → Exec Session
lock_session others id = lock others (λ db. or_not_found (find_session id db))

-- id = ? AND revoked_at IS NULL
abbrev pub revoked_row : ℕ → ℕ → Db → Db
revoked_row id now db = record db {
  sessions =
      update (λ (s : Session). (s.id == id) && (if is_some s.revoked_at then false else true))
        (λ s. record s { revoked_at = some now }) db.sessions;
}

unfoldable pub revoke : ℕ → ℕ → Exec (Unit {0})
revoke id now = write (λ db. (ok tt, revoked_row id now db))

abbrev pub used_row : ℕ → ℕ → Db → Db
used_row hash now db = record db {
  tokens =
      update (λ (t : RefreshToken). t.hash == hash) (λ t. record t { used_at = some now })
        db.tokens;
}

unfoldable pub use_token : ℕ → ℕ → Exec (Unit {0})
use_token hash now = write (λ db. (ok tt, used_row hash now db))

-- UPDATE ... RETURNING *: the row after the change, if there is one.
unfoldable pub update_user_name : ℕ → Bytes → Exec User
update_user_name id name = alone λ db.
    let after = update (λ (u : User). u.id == id) (λ u. record u { name = name }) db.users in
    (or_not_found (find (λ (u : User). u.id) id after), record db { users = after })

unfoldable pub avatar_url : User → Bytes
avatar_url u = if bytes_eq u.avatar_file [] then [] else codes "/api/v1/avatars/" ++ u.avatar_file

-- The updated user, and the name of the file that the avatar had.
unfoldable pub update_user_avatar : ℕ → Bytes → Bytes → Exec (User × Bytes)
update_user_avatar id name filename = transaction (do
  u ← query (λ db. or_not_found (find_user id db))
  write (λ db. (
    ok tt,
    record db {
      users =
          update (λ (v : User). v.id == id) (λ v. record v { name = name; avatar_file = filename })
            db.users;
    },
  ))
  pure (record u { name = name; avatar_file = filename }, u.avatar_file))
