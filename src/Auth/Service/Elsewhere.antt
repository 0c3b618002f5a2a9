-- ===== src/Auth/Service/Elsewhere.antt =====
-- The service of backend/internal/auth/service.go leaves monitors alone.
use uptime.Prelude.{ℕ, Bool, Option, none, some, List, Bytes, Bool-cases, inl, inr}
use uptime.Store.Rows.{Db, User, Session, RefreshToken, Monitor}
use uptime.Store.Exec.{
  Result, ok, err, random_failure, Exec, Fates, World, pure, lift, transaction, ◌>>=◌, ◌>>◌,
}
use uptime.Store.Exec.Keeps.{Safe, lift-Keeps}
use uptime.Store.Accounts.{
  create_user, create_session, create_token, user_by_email, token_row, lock_session, revoke,
  use_token,
}
use uptime.Auth.Gate.{PasswordGate, acquire}
use uptime.Auth.Crypto.{
  Primitives, credentials, hash_password, valid_refresh, refresh_hash, issue_access,
}
use uptime.Auth.Service.{
  Grant, Draws, no_user, or_fail, token_for, grant_of, issue, session_for, new_session, account,
  register_rows, register_admitted, enter, gated, register_valid, register, login_password,
  login_admitted, login_valid, login, dead, rotate_live, rotate, refresh_locked, refresh_found,
  refresh_rows, refresh, logout,
}
use uptime.Store.Accounts.Elsewhere.{
  KeepsAll, create_user-Keeps, create_session-Keeps, create_token-Keeps, both, nothing,
  in_transaction, all_of, revoke-Keeps, use_token-Keeps, token_row-Keeps, found, locked-Keeps,
}

-- An invariant of the monitors alone.
module _ (J : List Monitor → Type 0) where
  abbrev Of : Db → Type 0
  Of db = J db.monitors

  module _ (p : Primitives) where
    enter-Keeps :
        {A : Type 0} (r : Result (Unit {0})) (work : Exec A)
        → KeepsAll J work
        → (g : PasswordGate) (fs : Fates) (w : World) → Safe Of w
        → Safe Of (enter p r work g fs w).0.1
    unfolding enter
    enter-Keeps (err e) work k g fs w h = h
    enter-Keeps (ok u) work k g fs w h = (k fs w h).1

    issue-Keeps : (s : Session) (u : User) (now : ℕ) (d : Draws) → KeepsAll J (issue p s u now d)
    unfolding issue
    issue-Keeps s u now d =
        both J (lift (or_fail d.refresh random_failure)) with_bytes (lift-Keeps Of _) (λ bytes.
          both J (lift (or_fail (issue_access p s.user_id now) random_failure)) (with_access bytes)
            (lift-Keeps Of _)
            (λ access.
              both J (create_token (token_for p s now (p.encode_url bytes)))
                (λ x. pure (grant_of p u access (p.encode_url bytes) s.expires_at))
                (create_token-Keeps J (token_for p s now (p.encode_url bytes)))
                (λ x. nothing J (grant_of p u access (p.encode_url bytes) s.expires_at))))
      where
        with_access : Bytes → Bytes → Exec Grant
        with_access bytes access = do
          create_token (token_for p s now (p.encode_url bytes))
          pure (grant_of p u access (p.encode_url bytes) s.expires_at)

        with_bytes : Bytes → Exec Grant
        with_bytes bytes = do
          access ← lift (or_fail (issue_access p s.user_id now) random_failure)
          with_access bytes access

    new_session-Keeps : (u : User) (d : Draws) → KeepsAll J (new_session p u d)
    unfolding new_session
    new_session-Keeps u d =
        both J (create_session (session_for p u d)) (λ x. issue p (session_for p u d) u d.now d)
          (create_session-Keeps J (session_for p u d))
          (λ x. issue-Keeps (session_for p u d) u d.now d)

    register_rows-Keeps :
        (email hash : Bytes) (d : Draws) (fs : Fates) (w : World)
        → Safe Of w
        → Safe Of (register_rows p email hash d fs w).1
    unfolding register_rows
    register_rows-Keeps email hash d fs w h =
        (in_transaction J
          (do create_user (account p email hash d); new_session p (account p email hash d) d)
          (both J (create_user (account p email hash d))
            (λ x. new_session p (account p email hash d) d)
            (create_user-Keeps J (account p email hash d))
            (λ x. new_session-Keeps (account p email hash d) d))
          fs w h).1

    pub register-Keeps :
        (raw password : Bytes) (done : Bool) (d : Draws) (g : PasswordGate) (fs : Fates) (w : World)
        → Safe Of w
        → Safe Of (register p raw password done d g fs w).0.1
    unfolding register register_valid gated register_admitted enter
    register-Keeps raw password done d g fs w h = by_email (credentials p raw password)
      where
        admitted : (email : Bytes) → KeepsAll J (register_admitted p email password d)
        admitted email =
            both J (lift (or_fail d.salt random_failure))
              (λ salt. register_rows p email (hash_password p password salt) d) (lift-Keeps Of _)
              (λ salt.
                all_of J (register_rows p email (hash_password p password salt) d)
                  (register_rows-Keeps email (hash_password p password salt) d))

        by_email : (r : Result Bytes) → Safe Of (register_valid p r password done d g fs w).0.1
        by_email (err e) = h
        by_email (ok email) =
            enter-Keeps (acquire done d.now g).0 (register_admitted p email password d)
              (admitted email) (acquire done d.now g).1 fs w h

    pub login-Keeps :
        (raw password : Bytes) (done : Bool) (d : Draws) (g : PasswordGate) (fs : Fates) (w : World)
        → Safe Of w
        → Safe Of (login p raw password done d g fs w).0.1
    unfolding login login_valid gated login_admitted enter
    login-Keeps raw password done d g fs w h = by_email (credentials p raw password)
      where
        admitted :
            (email : Bytes) (fs : Fates) (w : World)
            → Safe Of w
            → Safe Of (login_admitted p email password d fs w).1
        admitted email fs w h =
            (both J (lift (login_password p password (user_by_email email fs w).0))
              (λ u. transaction (new_session p u d)) (lift-Keeps Of _)
              (λ u. in_transaction J (new_session p u d) (new_session-Keeps u d)) fs
              (user_by_email email fs w).1 (found J email fs w h)).1

        by_email : (r : Result Bytes) → Safe Of (login_valid p r password done d g fs w).0.1
        by_email (err e) = h
        by_email (ok email) =
            enter-Keeps (acquire done d.now g).0 (login_admitted p email password d)
              (all_of J (login_admitted p email password d) (admitted email))
              (acquire done d.now g).1 fs w h

    rotate_live-Keeps :
        (s : Session) (t : RefreshToken) (d : Draws) (o : Option ℕ)
        → KeepsAll J (rotate_live p s t d o)
    unfolding rotate_live
    rotate_live-Keeps s t d (some at) =
        both J (revoke s.id d.now) (λ x. pure none) (revoke-Keeps J s.id d.now)
          (λ x. nothing J {A = Option Grant} none)
    rotate_live-Keeps s t d none =
        both J (use_token t.hash d.now) (λ x. issue p s no_user d.now d >>= (λ g. pure (some g)))
          (use_token-Keeps J t.hash d.now)
          (λ x.
            both J (issue p s no_user d.now d) (λ g. pure (some g)) (issue-Keeps s no_user d.now d)
              (λ g. nothing J (some g)))

    rotate-Keeps : (s : Session) (t : RefreshToken) (d : Draws) → KeepsAll J (rotate p s t d)
    unfolding rotate
    rotate-Keeps s t d = elim (Bool-cases (dead p s d.now)) [
      | inl over ↦ rw over (nothing J {A = Option Grant} none)
      | inr live ↦ rw live (rotate_live-Keeps s t d t.used_at)
    ]

    module _ (others : Db → Db) (leave : (db : Db) → Of db → Of (others db)) where
      refresh_rows-Keeps : (hash : ℕ) (d : Draws) → KeepsAll J (refresh_rows p others hash d)
      unfolding refresh_rows refresh_found refresh_locked
      refresh_rows-Keeps hash d = in_transaction J _ (
          both J (token_row hash) (refresh_found p others d) (token_row-Keeps J hash) (λ t.
            both J (lock_session others t.session_id) (refresh_locked p d t.hash)
              (locked-Keeps J others leave t.session_id)
              (λ s.
                both J (token_row t.hash) (λ again. rotate p s again d) (token_row-Keeps J t.hash)
                  (λ again. rotate-Keeps s again d))))

      pub refresh-Keeps :
          (raw : Bytes) (d : Draws) (fs : Fates) (w : World)
          → Safe Of w
          → Safe Of (refresh p others raw d fs w).1
      unfolding refresh
      refresh-Keeps raw d fs w h = elim (Bool-cases (valid_refresh p raw)) [
        | inl valid ↦ rw valid (refresh_rows-Keeps (refresh_hash p raw) d fs w h).1
        | inr bad ↦ rw bad h
      ]

      pub logout-Keeps :
          (raw : Bytes) (d : Draws) (fs : Fates) (w : World)
          → Safe Of w
          → Safe Of (logout p others raw d fs w).1
      unfolding logout
      logout-Keeps raw d fs w h = elim (Bool-cases (valid_refresh p raw)) [
        | inr bad ↦ rw bad h
        | inl valid ↦
            rw valid
              (in_transaction J _
                (both J (token_row (refresh_hash p raw))
                  (λ t. lock_session others t.session_id >>= (λ s. revoke s.id d.now))
                  (token_row-Keeps J (refresh_hash p raw))
                  (λ t.
                    both J (lock_session others t.session_id) (λ s. revoke s.id d.now)
                      (locked-Keeps J others leave t.session_id) (λ s. revoke-Keeps J s.id d.now)))
                fs w h).1
      ]
