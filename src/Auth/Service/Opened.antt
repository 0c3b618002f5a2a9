-- ===== src/Auth/Service/Opened.antt =====
-- What a sign-in of backend/internal/auth/service.go leaves: Login.
use uptime.Prelude.{
  ℕ, suc, ◌+◌, ◌≡◌, refl, subst, inl, inr, Bool, true, Option, none, some, [], ◌∷◌, ◌++◌, Bytes,
  arith, Bool-cases, Option-cases,
}
use uptime.Store.Rows.{Db, User, Session, RefreshToken}
use uptime.Store.Exec.{
  Result, ok, err, ok-injective, random_failure, Fate-cases, Fates, World, lift, pure, ◌>>=◌,
  transaction,
}
use uptime.Store.Exec.Rules.{Ends, Commits, write-Ends, transaction-Commits}
use uptime.Store.Accounts.{
  find_session, find_token, find_email, insert_session, insert_token, create_session, create_token,
  user_by_email,
}
use uptime.Auth.Gate.{PasswordGate, acquire}
use uptime.Auth.Crypto.{
  Primitives, refresh_hash, issue_access, session_ttl, credentials, check_password,
}
use uptime.Auth.Service.{
  Grant, Draws, grant_of, or_fail, token_for, session_for, issue, new_session, login, login_valid,
  login_admitted, login_password, gated, enter,
}

module _ (p : Primitives) (u : User) (d : Draws) (db : Db) where
  -- The user gets an access token of their own and the only token of a new session, and nothing
  -- else changes.
  pub record Opened (g : Grant) (after : Db) : Type 0 where
    pub own_user : g.user ≡ u
    pub signed : issue_access p u.id d.now ≡ some g.access
    pub expiry : g.expires_at ≡ d.now + session_ttl
    pub new_session : find_session d.session_id db ≡ none
    pub new_token : find_token (refresh_hash p g.refresh) db ≡ none
    pub changed : after ≡ record db {
      sessions = db.sessions ++ session_for p u d ∷ [];
      tokens = db.tokens ++ token_for p (session_for p u d) d.now g.refresh ∷ [];
    }

insert_session-eq_ok :
    (s : Session) (db : Db)
    → (insert_session s db).0 ≡ ok tt
    → (find_session s.id db ≡ none)
      × ((insert_session s db).1 ≡ record db { sessions = db.sessions ++ s ∷ [] })
unfolding insert_session
insert_session-eq_ok s db h = ground arith

insert_token-eq_ok :
    (t : RefreshToken) (db : Db)
    → (insert_token t db).0 ≡ ok tt
    → (find_token t.hash db ≡ none)
      × ((insert_token t db).1 ≡ record db { tokens = db.tokens ++ t ∷ [] })
unfolding insert_token
insert_token-eq_ok t db h = ground arith

module _ (p : Primitives) (u : User) (d : Draws) (B : Db → Type 0) (fs : Fates) where
  abbrev opened_db : Db → Db
  opened_db db = record db { sessions = db.sessions ++ session_for p u d ∷ [] }

  create_token-Opened :
      (db base : Db) (n : ℕ) (access refresh : Bytes)
      → B base
      → find_session d.session_id db ≡ none
      → issue_access p u.id d.now ≡ some access
      → Ends
          (Opened p u d db)
          B
          ((create_token (token_for p (session_for p u d) d.now refresh) >>= λ _.
              pure (grant_of p u access refresh (d.now + session_ttl)))
            fs
            (record { db = opened_db db; base = base; tick = n })).0
          ((create_token (token_for p (session_for p u d) d.now refresh) >>= λ _.
              pure (grant_of p u access refresh (d.now + session_ttl)))
            fs
            (record { db = opened_db db; base = base; tick = n })).1
  unfolding create_token
  create_token-Opened db base n access refresh b new signed =
      write-Ends (Opened p u d db) B _ fs (record { db = opened_db db; base = base; tick = n }) b
        (insert_token (token_for p (session_for p u d) d.now refresh))
        (λ c made.
          let i =
            insert_token-eq_ok (token_for p (session_for p u d) d.now refresh) (opened_db db)
              made in
          (
            record {
              own_user = refl;
              signed = signed;
              expiry = refl;
              new_session = new;
              new_token = i.0;
              changed = i.1;
            },
            b,
          ))

  issue-Opened :
      (db base : Db) (n : ℕ) (bytes access : Option Bytes)
      → B base
      → find_session d.session_id db ≡ none
      → issue_access p u.id d.now ≡ access
      → Ends
          (Opened p u d db)
          B
          ((lift (or_fail bytes random_failure) >>= λ x.
              lift (or_fail access random_failure) >>= λ y.
              create_token (token_for p (session_for p u d) d.now (p.encode_url x)) >>= λ _.
              pure (grant_of p u y (p.encode_url x) (d.now + session_ttl)))
            fs
            (record { db = opened_db db; base = base; tick = n })).0
          ((lift (or_fail bytes random_failure) >>= λ x.
              lift (or_fail access random_failure) >>= λ y.
              create_token (token_for p (session_for p u d) d.now (p.encode_url x)) >>= λ _.
              pure (grant_of p u y (p.encode_url x) (d.now + session_ttl)))
            fs
            (record { db = opened_db db; base = base; tick = n })).1
  issue-Opened db base n none access b new signed = b
  issue-Opened db base n (some x) none b new signed = b
  issue-Opened db base n (some x) (some y) b new signed =
      create_token-Opened db base n y (p.encode_url x) b new signed

  new_session-Opened :
      (w : World)
      → B w.base
      → Ends (Opened p u d w.db) B (new_session p u d fs w).0 (new_session p u d fs w).1
  unfolding new_session issue create_session
  new_session-Opened w b =
      write-Ends (Opened p u d w.db) B (λ _. issue p (session_for p u d) u d.now d) fs w b
        (insert_session (session_for p u d))
        (λ c made.
          let i = insert_session-eq_ok (session_for p u d) w.db made in
          rw i.1 (
            issue-Opened w.db w.base (suc w.tick) d.refresh (issue_access p u.id d.now) b i.0 refl))

Commits-eq_ok :
    {A : Type 0} (Q : A → Db → Type 0) (B : Db → Type 0) (r : Result A) (a : A) (db : Db)
    → Commits Q B r db
    → r ≡ ok a
    → Q a db
Commits-eq_ok Q B (ok b) a db c e = subst (λ x. Q x db) (ok-injective b a e) c
Commits-eq_ok Q B (err x) a db c e = cc

module _ (p : Primitives) (password : Bytes) (d : Draws) (fs : Fates) (w : World) (g : Grant) where
  -- A user with that email and password, for whom a session is opened.
  abbrev pub Signed : Bytes → Db → Type 0
  Signed email after =
      (u : User) × (find_email email w.db.users ≡ some u)
      × (check_password p u.password_hash password ≡ true)
      × Opened p u d w.db g after

  session-Opened :
      (u : User) (v : World)
      → (transaction (new_session p u d) fs v).0 ≡ ok g
      → Opened p u d v.db g (transaction (new_session p u d) fs v).1.db
  session-Opened u v e =
      Commits-eq_ok (Opened p u d v.db) (λ x. Unit {0}) (transaction (new_session p u d) fs v).0 g
        (transaction (new_session p u d) fs v).1.db
        (transaction-Commits (Opened p u d v.db) (λ x. Unit {0}) (new_session p u d) fs v
          (new_session-Opened p u d (λ x. Unit {0}) fs (record v { base = v.db }) tt))
        e

  admitted-Signed :
      (email : Bytes)
      → (login_admitted p email password d fs w).0 ≡ ok g
      → Signed email (login_admitted p email password d fs w).1.db
  unfolding login_admitted user_by_email login_password
  admitted-Signed email = elim (Fate-cases (fs w.tick)) [
    | inr f ↦ elim f [ inl e ↦ rw e (λ e. cc) | inr e ↦ rw e (λ e. cc) ]
    | inl f ↦ rw f (elim (Option-cases (find_email email w.db.users)) [
      | inl n ↦ rw n (λ e. cc)
      | inr (u, found) ↦ rw found (elim (Bool-cases (check_password p u.password_hash password)) [
        | inl c ↦ rw c (λ e. (u, refl, c, session-Opened u (record w { tick = suc w.tick }) e))
        | inr c ↦ rw c (λ e. cc)
      ])
    ])
  ]

  enter-Signed :
      (r : Result (Unit {0})) (gate : PasswordGate) (email : Bytes)
      → (enter p r (login_admitted p email password d) gate fs w).0.0 ≡ ok g
      → Signed email (enter p r (login_admitted p email password d) gate fs w).0.1.db
  unfolding enter
  enter-Signed (ok a) gate email e = admitted-Signed email e
  enter-Signed (err x) gate email e = cc

  login_valid-Signed :
      (r : Result Bytes) (done : Bool) (gate : PasswordGate)
      → (login_valid p r password done d gate fs w).0.0 ≡ ok g
      → (email : Bytes) × (r ≡ ok email)
        × Signed email (login_valid p r password done d gate fs w).0.1.db
  unfolding login_valid gated
  login_valid-Signed (ok email) done gate e =
      (email, refl, enter-Signed (acquire done d.now gate).0 (acquire done d.now gate).1 email e)
  login_valid-Signed (err x) done gate e = cc

  -- a sign-in that grants tokens had valid credentials and found a user with that email and
  -- password; the access token is that user's, the only changes are a new session of the user,
  -- which runs out after 30 days, and one unused refresh token of that session, whatever
  -- statements fail.
  pub login-Opened :
      (raw : Bytes) (done : Bool) (gate : PasswordGate)
      → (login p raw password done d gate fs w).0.0 ≡ ok g
      → (email : Bytes) × (credentials p raw password ≡ ok email)
        × Signed email (login p raw password done d gate fs w).0.1.db
  unfolding login
  login-Opened raw done gate = login_valid-Signed (credentials p raw password) done gate
