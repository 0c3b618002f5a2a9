-- ===== src/Auth/Controller/Cookies.antt =====
-- The cookies of refresh and logout in backend/internal/auth/controller.go, and the tokens they
-- stand for.
use uptime.Prelude.{
  ℕ, ◌==◌, ap, arith, ◌≡◌, ◌≢◌, refl, ◌⊎◌, inl, inr, Bool, true, false, Option, none, some, Bytes,
  find-append_new,
}
use uptime.Store.Rows.{Db, Session, RefreshToken}
use uptime.Store.Exec.{
  Result, ok, err, unauthorized, record_not_found, duplicated_key, database, invalid, conflict,
  busy, cancelled, random_failure, bad_period, Fates, World,
}
use uptime.Store.Accounts.{find_session, find_token, used_row}
use uptime.Http.Reply.{Reply, json, fault, bare}
use uptime.Auth.Crypto.{Primitives, refresh_hash}
use uptime.Auth.Service.{Grant, Draws, dead, token_for, refresh}
use uptime.Auth.Service.Rotation.{Rotated}
use uptime.Auth.Service.Reuse.{refresh-Rotated}
use uptime.Auth.Controller.{
  Cookie, Answer, AuthResponse, handle_refresh, refresh_cookie, cleared, with_cookie, handle_error,
  answer_refresh,
}

module _ (p : Primitives) (secure : Bool) where
  -- A cookie with an unused token of a session that is open at a time, and the expiry of the
  -- session.
  pub record Good (now : ℕ) (c : Cookie) (db : Db) : Type 0 where
    pub token : RefreshToken
    pub session : Session
    pub found : find_token (refresh_hash p c.value) db ≡ some token
    pub unused : token.used_at ≡ none
    pub session_found : find_session token.session_id db ≡ some session
    pub alive : dead p session now ≡ false
    pub same_expiry : c.expires ≡ session.expires_at
    pub hidden : c.http_only ≡ true

  -- The three ways in which a refresh ends for the browser.
  abbrev pub Outcome : ℕ → Answer AuthResponse → Db → Type 0
  Outcome now a db =
      ((c : Cookie) × (body : AuthResponse) × (a.reply ≡ json 200 body)
        × (a.set_cookie ≡ some c)
        × Good now c db)
      ⊎ ((a ≡ with_cookie (cleared secure) (handle_error unauthorized))
          ⊎ ((a.set_cookie ≡ none)
              × ((body : AuthResponse) → a.reply ≢ json 200 body)
              × ((code message : Bytes) → a.reply ≢ fault 401 code message)))

  Rotated-Good :
      (at now hash : ℕ) (before d after : Db) (g : Grant)
      → Rotated p now hash before d g after
      → Outcome now (answer_refresh secure at (ok g)) after
  Rotated-Good at now hash before d after g r = rw r.changed (
      inl (
        _,
        _,
        refl,
        refl,
        record {
          token = token_for p r.session now g.refresh;
          session = r.session;
          found =
              find-append_new (λ (t : RefreshToken). t.hash) (refresh_hash p g.refresh)
                (used_row hash now d).tokens (token_for p r.session now g.refresh) refl r.new_hash;
          unused = refl;
          session_found = r.session_found;
          alive = r.alive;
          same_expiry = r.same_expiry;
          hidden = refl;
        },
      ))

  abbrev status_of : Reply AuthResponse → ℕ
  status_of (fault status code message) = status
  status_of (json status body) = status
  status_of (bare status) = status

  not_401 :
      (r : Reply AuthResponse)
      → (status_of r == 401) ≡ false
      → (code message : Bytes) → r ≢ fault 401 code message
  not_401 r h code message e =
      let same = ap (λ r. status_of r) e in absurd (ground (arith, same, h))

  answer-Outcome :
      (at now : ℕ) (r : Result Grant) (db : Db)
      → ((g : Grant) → r ≡ ok g → Outcome now (answer_refresh secure at (ok g)) db)
      → Outcome now (answer_refresh secure at r) db
  answer-Outcome at now (ok g) db h = h g refl
  answer-Outcome at now (err unauthorized) db h = inr (inl refl)
  answer-Outcome at now (err record_not_found) db h =
      inr (inr (refl, (λ body e. cc), not_401 _ refl))
  answer-Outcome at now (err duplicated_key) db h = inr (inr (refl, (λ body e. cc), not_401 _ refl))
  answer-Outcome at now (err database) db h = inr (inr (refl, (λ body e. cc), not_401 _ refl))
  answer-Outcome at now (err invalid) db h = inr (inr (refl, (λ body e. cc), not_401 _ refl))
  answer-Outcome at now (err conflict) db h = inr (inr (refl, (λ body e. cc), not_401 _ refl))
  answer-Outcome at now (err busy) db h = inr (inr (refl, (λ body e. cc), not_401 _ refl))
  answer-Outcome at now (err cancelled) db h = inr (inr (refl, (λ body e. cc), not_401 _ refl))
  answer-Outcome at now (err random_failure) db h = inr (inr (refl, (λ body e. cc), not_401 _ refl))
  answer-Outcome at now (err bad_period) db h = inr (inr (refl, (λ body e. cc), not_401 _ refl))

  -- whatever cookie is sent, whatever statements fail and whatever other transactions commit
  -- while the refresh waits for its lock, it ends in one of three ways: a 200 with an HttpOnly
  -- cookie whose token is unused in the database that is left, belongs to a session that is open
  -- then, and expires with it; a 401 that deletes the cookie; or another answer, neither a 200
  -- with tokens nor a 401, that leaves the cookie of the client alone.
  pub handle_refresh-Outcome :
      (at : ℕ) (others : Db → Db) (sent : Option Bytes) (d : Draws) (fs : Fates) (w : World)
      → Outcome d.now
          (handle_refresh p secure at others sent d fs w).0
          (handle_refresh p secure at others sent d fs w).1.db
  unfolding handle_refresh
  handle_refresh-Outcome at others sent d fs w =
      answer-Outcome at d.now (refresh p others (refresh_cookie sent) d fs w).0
        (refresh p others (refresh_cookie sent) d fs w).1.db
        (λ g e.
          Rotated-Good at d.now _ w.db (others w.db) _ g
            (refresh-Rotated p others (refresh_cookie sent) d fs w g e))
