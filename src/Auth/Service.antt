-- ===== src/Auth/Service.antt =====
-- backend/internal/auth/service.go. Random identifiers and bytes, the clock, and what other
-- transactions do while this one waits for a lock are arguments.
pub mod Rotation
pub mod Reuse
pub mod Live
pub mod Opened
pub mod Elsewhere
mod Tests
use uptime.Prelude.{
  ℕ, ◌+◌, Bool, true, false, ◌||◌, Option, none, some, List, Bytes, leb, if◌then◌else◌,
}
use uptime.Store.Rows.{Db, User, Session, RefreshToken}
use uptime.Store.Exec.{
  Error, Result, ok, err, record_not_found, duplicated_key, database, invalid, unauthorized,
  conflict, busy, cancelled, random_failure, bad_period, Exec, Fates, World, pure, raise, lift,
  transaction, ◌>>=◌, ◌>>◌,
}
use uptime.Store.Accounts.{
  create_user, create_session, create_token, user_by_email, user_by_id, token_row, lock_session,
  revoke, use_token, is_some,
}
use uptime.Auth.Gate.{PasswordGate, acquire, release}
use uptime.Auth.Crypto.{
  Primitives, session_ttl, credentials, hash_password, check_password, refresh_hash, valid_refresh,
  issue_access,
}

-- `Result` of the source.
pub record Grant : Type 0 where
  pub user : User
  pub access : Bytes
  pub refresh : Bytes
  pub expires_at : ℕ

-- What one call draws: new identifiers, random bytes (none where the source of randomness fails)
-- and the time.
pub record Draws : Type 0 where
  pub user_id : ℕ
  pub session_id : ℕ
  pub created_at : ℕ
  pub salt : Option Bytes
  pub refresh : Option Bytes
  pub now : ℕ

abbrev pub or_fail {ℓ} : {A : Type ℓ} → Option A → Error → Result A
or_fail none e = err e
or_fail (some a) e = ok a

-- store.User{}
abbrev pub no_user : User
no_user = record {
  id = 0;
  avatar_file = List.[];
  name = List.[];
  email = List.[];
  password_hash = List.[];
  created_at = 0;
}

-- errors.Is(err, from) turned into another error.
abbrev pub rename {ℓ} : {A : Type ℓ} → (Error → Error) → Result A → Result A
rename f (ok a) = ok a
rename f (err e) = err (f e)

abbrev pub as_conflict : Error → Error
as_conflict duplicated_key = conflict
as_conflict record_not_found = record_not_found
as_conflict database = database
as_conflict invalid = invalid
as_conflict unauthorized = unauthorized
as_conflict conflict = conflict
as_conflict busy = busy
as_conflict cancelled = cancelled
as_conflict random_failure = random_failure
as_conflict bad_period = bad_period

abbrev pub as_unauthorized : Error → Error
as_unauthorized record_not_found = unauthorized
as_unauthorized duplicated_key = duplicated_key
as_unauthorized database = database
as_unauthorized invalid = invalid
as_unauthorized unauthorized = unauthorized
as_unauthorized conflict = conflict
as_unauthorized busy = busy
as_unauthorized cancelled = cancelled
as_unauthorized random_failure = random_failure
as_unauthorized bad_period = bad_period

module _ (p : Primitives) where
  abbrev pub token_for : Session → ℕ → Bytes → RefreshToken
  token_for s now refresh = record {
    hash = refresh_hash p refresh;
    session_id = s.id;
    created_at = now;
    used_at = none;
  }

  abbrev pub grant_of : User → Bytes → Bytes → ℕ → Grant
  grant_of u access refresh expires_at = record {
    user = u;
    access = access;
    refresh = refresh;
    expires_at = expires_at;
  }

  unfoldable pub issue : Session → User → ℕ → Draws → Exec Grant
  issue s u now d = do
    bytes ← lift (or_fail d.refresh random_failure)
    access ← lift (or_fail (issue_access p s.user_id now) random_failure)
    create_token (token_for s now (p.encode_url bytes))
    pure (grant_of u access (p.encode_url bytes) s.expires_at)

  abbrev pub session_for : User → Draws → Session
  session_for u d = record {
    id = d.session_id;
    user_id = u.id;
    expires_at = d.now + session_ttl;
    revoked_at = none;
  }

  unfoldable pub new_session : User → Draws → Exec Grant
  unfolding issue
  new_session u d = do create_session (session_for u d); issue (session_for u d) u d.now d

  abbrev pub account : Bytes → Bytes → Draws → User
  account email hash d = record {
    id = d.user_id;
    avatar_file = List.[];
    name = List.[];
    email = email;
    password_hash = hash;
    created_at = d.created_at;
  }

  unfoldable pub register_rows : Bytes → Bytes → Draws → Exec Grant
  unfolding new_session
  register_rows email hash d fs w =
      let (r, w') =
        transaction (do create_user (account email hash d); new_session (account email hash d) d) fs
          w in
      (rename as_conflict r, w')

  -- With a slot of the gate held: hashing, then the transaction.
  register_admitted : Bytes → Bytes → Draws → Exec Grant
  unfolding register_rows
  register_admitted email password d = do
    salt ← lift (or_fail d.salt random_failure)
    register_rows email (hash_password p password salt) d

  -- A slot that was taken is returned when the work is over.
  enter :
      {A : Type 0}
      → Result (Unit {0})
      → Exec A
      → PasswordGate
      → Fates
      → World
      → (Result A × World) × PasswordGate
  enter (err e) work g fs w = ((err e, w), g)
  enter (ok _) work g fs w = (work fs w, release g)

  -- `done` says that the context of the request has an error.
  gated :
      {A : Type 0}
      → Bool
      → ℕ
      → Exec A
      → PasswordGate
      → Fates
      → World
      → (Result A × World) × PasswordGate
  unfolding enter
  gated done now work g = enter (acquire done now g).0 work (acquire done now g).1

  register_valid :
      Result Bytes
      → Bytes
      → Bool
      → Draws
      → PasswordGate
      → Fates
      → World
      → (Result Grant × World) × PasswordGate
  unfolding gated register_admitted
  register_valid (err e) password done d g fs w = ((err e, w), g)
  register_valid (ok email) password done d g fs w =
      gated done d.now (register_admitted email password d) g fs w

  unfoldable pub register :
      Bytes
      → Bytes
      → Bool
      → Draws
      → PasswordGate
      → Fates
      → World
      → (Result Grant × World) × PasswordGate
  unfolding register_valid
  register raw password = register_valid (credentials p raw password) password

  -- A missing user is refused like a wrong password, after the same work on a dummy hash.
  login_password : Bytes → Result User → Result User
  login_password password (err e) = err (as_unauthorized e)
  login_password password (ok u) =
      if check_password p u.password_hash password then ok u else err unauthorized

  login_admitted : Bytes → Bytes → Draws → Exec Grant
  unfolding login_password new_session
  login_admitted email password d fs w =
      let (r, w') = user_by_email email fs w in
      (lift (login_password password r) >>= λ u. transaction (new_session u d)) fs w'

  login_valid :
      Result Bytes
      → Bytes
      → Bool
      → Draws
      → PasswordGate
      → Fates
      → World
      → (Result Grant × World) × PasswordGate
  unfolding gated login_admitted
  login_valid (err e) password done d g fs w = ((err unauthorized, w), g)
  login_valid (ok email) password done d g fs w =
      gated done d.now (login_admitted email password d) g fs w

  unfoldable pub login :
      Bytes
      → Bytes
      → Bool
      → Draws
      → PasswordGate
      → Fates
      → World
      → (Result Grant × World) × PasswordGate
  unfolding login_valid
  login raw password = login_valid (credentials p raw password) password

  abbrev pub dead : Session → ℕ → Bool
  dead s now = is_some s.revoked_at || leb s.expires_at now

  rotate_live : Session → RefreshToken → Draws → Option ℕ → Exec (Option Grant)
  unfolding issue
  rotate_live s t d (some at) = do revoke s.id d.now; pure none
  rotate_live s t d none = do use_token t.hash d.now; g ← issue s no_user d.now d; pure (some g)

  -- Behind the lock: `none` is a denial that commits.
  unfoldable pub rotate : Session → RefreshToken → Draws → Exec (Option Grant)
  unfolding rotate_live
  rotate s t d = if dead s d.now then pure none else rotate_live s t d t.used_at

  refresh_locked : Draws → ℕ → Session → Exec (Option Grant)
  unfolding rotate
  refresh_locked d hash s = do again ← token_row hash; rotate s again d

  refresh_found : (Db → Db) → Draws → RefreshToken → Exec (Option Grant)
  unfolding refresh_locked
  refresh_found others d t = do s ← lock_session others t.session_id; refresh_locked d t.hash s

  unfoldable pub refresh_rows : (Db → Db) → ℕ → Draws → Exec (Option Grant)
  unfolding refresh_found
  refresh_rows others hash d = transaction (do t ← token_row hash; refresh_found others d t)

  abbrev pub denied : Result (Option Grant) → Result Grant
  denied (err e) = err (as_unauthorized e)
  denied (ok none) = err unauthorized
  denied (ok (some g)) = ok g

  unfoldable pub refresh : (Db → Db) → Bytes → Draws → Exec Grant
  unfolding refresh_rows
  refresh others raw d fs w =
      if valid_refresh p raw
      then (let (r, w') = refresh_rows others (refresh_hash p raw) d fs w in (denied r, w'))
      else (err unauthorized, w)

  abbrev pub forgiven : Result (Unit {0}) → Result (Unit {0})
  forgiven (err record_not_found) = ok tt
  forgiven r = r

  unfoldable pub logout : (Db → Db) → Bytes → Draws → Exec (Unit {0})
  logout others raw d fs w =
      if valid_refresh p raw
      then (let (r, w') =
            transaction
              (do
                t ← token_row (refresh_hash p raw)
                s ← lock_session others t.session_id
                revoke s.id d.now)
              fs w in
          (forgiven r, w'))
      else (ok tt, w)

unfoldable pub me : ℕ → Exec User
me id fs w = let (r, w') = user_by_id id fs w in (rename as_unauthorized r, w')
