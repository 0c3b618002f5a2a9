-- ===== src/Auth/Controller/SignedOut.antt =====
-- What a logout of backend/internal/auth/controller.go ends.
use uptime.Prelude.{
  ℕ, suc, ◌≡◌, ◌≢◌, refl, sym, ap, ◌∙◌, inl, inr, Bool, true, false, ◌&&◌, Option, some, List, [],
  ◌∷◌, Bytes, arith, ◌==◌, if◌then◌else◌, Bool-cases, Option-cases, find, update, find-key,
}
use uptime.Store.Rows.{Db, Session, RefreshToken}
use uptime.Store.Exec.{Result, ok, err, Fate-cases, Fates, World, transaction}
use uptime.Store.Accounts.{find_session, find_token, is_some, token_row, lock_session, revoke}
use uptime.Http.Reply.{json, bare}
use uptime.Auth.Crypto.{Primitives, refresh_hash, valid_refresh}
use uptime.Auth.Service.{Grant, Draws, refresh, logout}
use uptime.Auth.Service.Reuse.{refresh-Rotated}
use uptime.Auth.Controller.{
  AuthResponse, handle_refresh, handle_logout, refresh_cookie, answer_refresh, answer_logout,
}

module _ (p : Primitives) (secure : Bool) where
  -- Whatever the fates of its four statements, a logout that succeeds leaves the session of the
  -- token revoked.
  abbrev Over : ℕ → Db → Type 0
  Over hash db =
      (t : RefreshToken) (s : Session)
      → find_token hash db ≡ some t
      → find_session t.session_id db ≡ some s
      → is_some s.revoked_at ≡ true

  revoked_row-Over :
      (sid id now : ℕ) (ss : List Session) (s : Session)
      → id ≡ sid
      → find
          (λ (s : Session). s.id)
          sid
          (update
            (λ (s : Session). (s.id == id) && (if is_some s.revoked_at then false else true))
            (λ s. record s { revoked_at = some now })
            ss)
        ≡ some s
      → is_some s.revoked_at ≡ true
  unfolding find update
  revoked_row-Over sid id now [] s same e = cc
  revoked_row-Over sid id now (x ∷ xs) s same e =
      ground (arith, revoked_row-Over sid id now xs s same)

  logout-Over :
      (others : Db → Db) (raw : Bytes) (d : Draws) (fs : Fates) (w : World)
      → ((t u : RefreshToken)
          → find_token (refresh_hash p raw) w.db ≡ some t
          → find_token (refresh_hash p raw) (others w.db) ≡ some u
          → t.session_id ≡ u.session_id)
      → valid_refresh p raw ≡ true
      → (logout p others raw d fs w).0 ≡ ok tt
      → Over (refresh_hash p raw) (logout p others raw d fs w).1.db
  unfolding logout transaction token_row lock_session revoke
  logout-Over others raw d fs w keep valid = rw valid (elim (Fate-cases (fs w.tick)) [
    | inr f ↦ elim f [ inl g ↦ rw g (λ e. cc) | inr g ↦ rw g (λ e. cc) ]
    | inl f ↦ rw f (elim (Option-cases (find_token (refresh_hash p raw) w.db)) [
      | inl n ↦ rw n (λ e t s tf. cc)
      | inr (t, found) ↦ rw found (elim (Fate-cases (fs (suc w.tick))) [
        | inr f ↦ elim f [ inl g ↦ rw g (λ e. cc) | inr g ↦ rw g (λ e. cc) ]
        | inl f ↦ rw f (elim (Option-cases (find_session t.session_id (others w.db))) [
          | inl n ↦ rw n (λ e u s uf sf. ground (arith, keep t u found uf))
          | inr (s, sfound) ↦ rw sfound (elim (Fate-cases (fs (suc (suc w.tick)))) [
            | inr f ↦ elim f [ inl g ↦ rw g (λ e. cc) | inr g ↦ rw g (λ e. cc) ]
            | inl f ↦ rw f (elim (Fate-cases (fs (suc (suc (suc w.tick))))) [
              | inr f ↦ elim f [ inl g ↦ rw g (λ e. cc) | inr g ↦ rw g (λ e. cc) ]
              | inl f ↦ rw f (λ e u v uf vf.
                  revoked_row-Over u.session_id s.id d.now (others w.db).sessions v
                    (find-key (λ (x : Session). x.id) t.session_id (others w.db).sessions s sfound
                      ∙ keep t u found uf)
                    vf)
            ])
          ])
        ])
      ])
    ])
  ])

  logout_done : (r : Result (Unit {0})) → (answer_logout secure r).reply ≡ bare 204 → r ≡ ok tt
  logout_done (ok tt) e = refl
  logout_done (err x) e = ground arith

  refresh_granted :
      (at : ℕ) (body : AuthResponse) (r : Result Grant)
      → (answer_refresh secure at r).reply ≡ json 200 body
      → (g : Grant) × (r ≡ ok g)
  refresh_granted at body (ok g) e = (g, refl)
  refresh_granted at body (err x) e = ground arith

  granted_valid :
      (raw : Bytes) (d : Draws) (fs : Fates) (w : World) (g : Grant)
      → (refresh p (λ x. x) raw d fs w).0 ≡ ok g
      → valid_refresh p raw ≡ true
  unfolding refresh
  granted_valid raw d fs w g = elim (Bool-cases (valid_refresh p raw)) [
    | inl h ↦ λ e. h
    | inr h ↦ rw h (λ e. cc)
  ]

  -- where other transactions leave a token with its session, once a logout was answered with 204,
  -- a refresh with the same cookie on the database it left is never answered with 200, whatever
  -- statements of either fail.
  pub logout_ends :
      (at : ℕ) (others : Db → Db) (sent : Option Bytes) (d e : Draws) (fs gs : Fates) (w : World)
      → ((t u : RefreshToken)
          → find_token (refresh_hash p (refresh_cookie sent)) w.db ≡ some t
          → find_token (refresh_hash p (refresh_cookie sent)) (others w.db) ≡ some u
          → t.session_id ≡ u.session_id)
      → (handle_logout p secure at others sent d fs w).0.reply ≡ bare 204
      → (body : AuthResponse)
      → (handle_refresh p secure at
          (λ x. x)
          sent
          e
          gs
          (handle_logout p secure at others sent d fs w).1).0.reply
        ≢ json 200 body
  unfolding handle_logout handle_refresh
  logout_ends at others sent d e fs gs w keep left body again =
      let (g, granted) =
        refresh_granted at body (refresh p (λ x. x) (refresh_cookie sent) e gs v).0 again in
      let r = refresh-Rotated p (λ x. x) (refresh_cookie sent) e gs v g granted in
      let over =
        logout-Over others (refresh_cookie sent) d fs w keep
          (granted_valid (refresh_cookie sent) e gs v g granted)
          (logout_done (logout p others (refresh_cookie sent) d fs w).0 left) r.first r.session
          r.first_found (ap (λ i. find_session i v.db) (sym r.own) ∙ r.session_found) in
      ground (arith, over, r.alive)
    where
      v : World
      v = (logout p others (refresh_cookie sent) d fs w).1
