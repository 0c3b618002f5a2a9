-- ===== src/Store/Accounts/Elsewhere.antt =====
-- The statements of backend/internal/store/store.go on users, sessions and tokens leave monitors
-- alone.
use uptime.Prelude.{ℕ, List, Bytes, ◌||◌, Bool-cases, inl, inr}
use uptime.Store.Rows.{Db, User, Session, RefreshToken, Monitor}
use uptime.Store.Exec.{Result, ok, err, Exec, Fates, World, pure, transaction, or_not_found, ◌>>=◌}
use uptime.Store.Exec.Keeps.{
  Safe, OnOk, Keeps, pure-Keeps, read-Keeps, lock-Keeps, write-Keeps, transaction-Keeps, bind-Keeps,
}
use uptime.Store.Accounts.{
  is_some, find_user, find_session, find_token, find_email, insert_user, insert_session,
  insert_token, create_user, create_session, create_token, user_by_email, token_row, lock_session,
  revoke, use_token,
}

-- An invariant of the monitors alone.
module _ (J : List Monitor → Type 0) where
  abbrev Of : Db → Type 0
  Of db = J db.monitors

  abbrev pub KeepsAll : {A : Type 0} → Exec A → Type 0
  KeepsAll {A} m = Keeps Of {A = A} (λ a. Unit) m

  pub create_user-Keeps : (u : User) → KeepsAll (create_user u)
  unfolding create_user insert_user
  create_user-Keeps u =
      write-Keeps Of (λ a. Unit) (insert_user u)
        (λ db h.
          elim (Bool-cases (is_some (find_user u.id db) || is_some (find_email u.email db.users))) [
            | inl taken ↦ rw taken (tt, h)
            | inr free ↦ rw free (tt, h)
          ])

  pub create_session-Keeps : (s : Session) → KeepsAll (create_session s)
  unfolding create_session insert_session
  create_session-Keeps s =
      write-Keeps Of (λ a. Unit) (insert_session s)
        (λ db h. elim (Bool-cases (is_some (find_session s.id db))) [
          | inl taken ↦ rw taken (tt, h)
          | inr free ↦ elim (Bool-cases (is_some (find_user s.user_id db))) [
            | inl found ↦ rw (free, found) (tt, h)
            | inr nobody ↦ rw (free, nobody) (tt, h)
          ]
        ])

  pub create_token-Keeps : (t : RefreshToken) → KeepsAll (create_token t)
  unfolding create_token insert_token
  create_token-Keeps t =
      write-Keeps Of (λ a. Unit) (insert_token t)
        (λ db h. elim (Bool-cases (is_some (find_token t.hash db))) [
          | inl taken ↦ rw taken (tt, h)
          | inr free ↦ elim (Bool-cases (is_some (find_session t.session_id db))) [
            | inl found ↦ rw (free, found) (tt, h)
            | inr nobody ↦ rw (free, nobody) (tt, h)
          ]
        ])

  -- A sequence of two actions that keep it.
  pub both :
      {A B : Type 0} (m : Exec A) (f : A → Exec B)
      → KeepsAll m
      → ((a : A) → KeepsAll (f a))
      → KeepsAll (m >>= f)
  both m f h k = bind-Keeps Of (λ a. Unit) (λ b. Unit) m f h (λ a u. k a)

  pub nothing : {A : Type 0} (a : A) → KeepsAll (pure a)
  nothing a = pure-Keeps Of (λ a. Unit) a tt

  pub in_transaction : {A : Type 0} (m : Exec A) → KeepsAll m → KeepsAll (transaction m)
  in_transaction m h = transaction-Keeps Of (λ a. Unit) m h

  -- The database alone.
  pub anything : {A : Type 0} (r : Result A) → OnOk Of (λ a. Unit) r
  anything (ok a) = tt
  anything (err e) = tt

  pub all_of :
      {A : Type 0} (m : Exec A)
      → ((fs : Fates) (w : World) → Safe Of w → Safe Of (m fs w).1)
      → KeepsAll m
  all_of m h fs w s = (anything (m fs w).0, h fs w s)

  pub found :
      (email : Bytes) (fs : Fates) (w : World) → Safe Of w → Safe Of (user_by_email email fs w).1
  unfolding user_by_email
  found email fs w h = (read-Keeps Of (λ db. or_not_found (find_email email db.users)) fs w h).1

  pub revoke-Keeps : (id now : ℕ) → KeepsAll (revoke id now)
  unfolding revoke
  revoke-Keeps id now = write-Keeps Of (λ a. Unit) _ (λ db h. (tt, h))

  pub use_token-Keeps : (hash now : ℕ) → KeepsAll (use_token hash now)
  unfolding use_token
  use_token-Keeps hash now = write-Keeps Of (λ a. Unit) _ (λ db h. (tt, h))

  pub token_row-Keeps : (hash : ℕ) → KeepsAll (token_row hash)
  unfolding token_row
  token_row-Keeps hash = read-Keeps Of (λ db. or_not_found (find_token hash db))

  pub locked-Keeps :
      (others : Db → Db)
      → ((db : Db) → Of db → Of (others db))
      → (id : ℕ) → KeepsAll (lock_session others id)
  unfolding lock_session
  locked-Keeps others leave id =
      lock-Keeps Of others (λ db. or_not_found (find_session id db)) leave
