-- ===== src/Auth/Controller/Elsewhere.antt =====
-- The handlers of backend/internal/auth/controller.go leave monitors alone.
use uptime.Prelude.{ℕ, Bool, Option, none, some, List, Bytes}
use uptime.Store.Rows.{Db, Monitor}
use uptime.Store.Exec.{Result, ok, err, Fates, World, or_not_found}
use uptime.Store.Exec.Keeps.{Safe, read-Keeps}
use uptime.Store.Accounts.{find_user, user_by_id}
use uptime.Auth.Gate.{PasswordGate}
use uptime.Auth.Crypto.{Primitives}
use uptime.Auth.Service.{Draws, me}
use uptime.Auth.Service.Elsewhere.{register-Keeps, login-Keeps, refresh-Keeps, logout-Keeps}
use uptime.Auth.Controller.{
  CredentialsUpload, decode_credentials, register_decoded, login_decoded, handle_register,
  handle_login, handle_refresh, handle_logout, refresh_cookie, handle_me,
}

module _ (I : Db → Type 0) where
  pub handle_me-Keeps :
      (identity : Option ℕ) (fs : Fates) (w : World) → Safe I w → Safe I (handle_me identity fs w).1
  unfolding handle_me me user_by_id
  handle_me-Keeps none fs w s = s
  handle_me-Keeps (some id) fs w s = (read-Keeps I (λ db. or_not_found (find_user id db)) fs w s).1

module _ (J : List Monitor → Type 0) where
  abbrev Of : Db → Type 0
  Of db = J db.monitors

  module _ (p : Primitives) (secure : Bool) (at : ℕ) where
    pub handle_register-Keeps :
        (r : CredentialsUpload) (done : Bool) (d : Draws) (g : PasswordGate) (fs : Fates)
        (w : World)
        → Safe Of w
        → Safe Of (handle_register p secure at r done d g fs w).0.1
    unfolding handle_register
    handle_register-Keeps r done d g fs w s = by_decoded (decode_credentials r)
      where
        by_decoded :
            (c : Result (Bytes × Bytes))
            → Safe Of (register_decoded p secure at c done d g fs w).0.1
        by_decoded (err e) = s
        by_decoded (ok (email, password)) = register-Keeps J p email password done d g fs w s

    pub handle_login-Keeps :
        (r : CredentialsUpload) (done : Bool) (d : Draws) (g : PasswordGate) (fs : Fates)
        (w : World)
        → Safe Of w
        → Safe Of (handle_login p secure at r done d g fs w).0.1
    unfolding handle_login
    handle_login-Keeps r done d g fs w s = by_decoded (decode_credentials r)
      where
        by_decoded :
            (c : Result (Bytes × Bytes)) → Safe Of (login_decoded p secure at c done d g fs w).0.1
        by_decoded (err e) = s
        by_decoded (ok (email, password)) = login-Keeps J p email password done d g fs w s

    module _ (others : Db → Db) (leave : (db : Db) → Of db → Of (others db)) (sent : Option Bytes)
        (d : Draws) (fs : Fates) (w : World) (s : Safe Of w) where
      pub handle_refresh-Keeps : Safe Of (handle_refresh p secure at others sent d fs w).1
      unfolding handle_refresh
      handle_refresh-Keeps = refresh-Keeps J p others leave (refresh_cookie sent) d fs w s

      pub handle_logout-Keeps : Safe Of (handle_logout p secure at others sent d fs w).1
      unfolding handle_logout
      handle_logout-Keeps = logout-Keeps J p others leave (refresh_cookie sent) d fs w s
