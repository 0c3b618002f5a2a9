-- ===== src/Auth/Service/Rotation.antt =====
-- What a refresh does to the database: the outcomes that can commit.
use uptime.Prelude.{
  ℕ, suc, ◌≡◌, refl, ap, ◌∙◌, ◌⊎◌, inl, inr, true, false, Option, none, some, [], ◌∷◌, ◌++◌, Bytes,
  arith, Bool-cases, find-key,
}
use uptime.Store.Rows.{Db, Session, RefreshToken}
use uptime.Store.Exec.{
  ok, random_failure, Fates, World, or_not_found, or_not_found-eq_ok, lift, pure, ◌>>=◌,
}
use uptime.Store.Exec.Rules.{
  Ends, Commits, query-Ends, lock-Ends, write-Ends, bind-Ends, transaction-Commits,
}
use uptime.Store.Accounts.{
  find_session, find_token, insert_token, token_row, lock_session, revoke, use_token, create_token,
  revoked_row, used_row, is_some,
}
use uptime.Auth.Crypto.{Primitives, refresh_hash, issue_access}
use uptime.Auth.Service.{
  Grant, Draws, grant_of, or_fail, no_user, token_for, issue, dead, rotate, rotate_live,
  refresh_locked, refresh_found, refresh_rows,
}

module _ (p : Primitives) (now : ℕ) (hash : ℕ) (before d : Db) where
  -- A grant: `before` is the database of the first read, `d` that behind the lock. The token of
  -- `hash` was unused and the session of its first reading alive; the token is used now,
  -- and one new unused token of that session stands beside it. Nothing else changes.
  pub record Rotated (g : Grant) (after : Db) : Type 0 where
    pub session : Session
    pub token : RefreshToken
    pub first : RefreshToken
    pub first_found : find_token hash before ≡ some first
    pub own : session.id ≡ first.session_id
    pub session_found : find_session session.id d ≡ some session
    pub token_found : find_token hash d ≡ some token
    pub unused : token.used_at ≡ none
    pub alive : dead p session now ≡ false
    pub new_hash : find_token (refresh_hash p g.refresh) (used_row hash now d) ≡ none
    pub changed : after ≡ record d {
      tokens = (used_row hash now d).tokens ++ token_for p session now g.refresh ∷ [];
    }
    pub same_expiry : g.expires_at ≡ session.expires_at

  -- A denial: the session is dead and nothing changes, or the token was used and the session is
  -- revoked.
  pub record Denied (after : Db) : Type 0 where
    pub session : Session
    pub token : RefreshToken
    pub first : RefreshToken
    pub first_found : find_token hash before ≡ some first
    pub own : session.id ≡ first.session_id
    pub session_found : find_session session.id d ≡ some session
    pub token_found : find_token hash d ≡ some token
    pub outcome :
        ((dead p session now ≡ true) × (after ≡ d))
        ⊎ ((dead p session now ≡ false)
            × (is_some token.used_at ≡ true)
            × (after ≡ revoked_row session.id now d))

  abbrev pub Refreshed : Option Grant → Db → Type 0
  Refreshed none after = Denied after
  Refreshed (some g) after = Rotated g after

insert_token-eq_ok :
    (t : RefreshToken) (db : Db)
    → (insert_token t db).0 ≡ ok tt
    → (find_token t.hash db ≡ none)
      × ((insert_token t db).1 ≡ record db { tokens = db.tokens ++ t ∷ [] })
unfolding insert_token
insert_token-eq_ok t db h = ground arith

module _ (p : Primitives) (B : Db → Type 0) (dr : Draws) (fs : Fates) where
  -- What `issue` grants, from the database `db`.
  abbrev Issued : Session → Db → Grant → Db → Type 0
  Issued s db g after =
      (find_token (refresh_hash p g.refresh) db ≡ none)
      × (after ≡ record db { tokens = db.tokens ++ token_for p s dr.now g.refresh ∷ [] })
      × (g.expires_at ≡ s.expires_at)

  create_token-Ends :
      (s : Session) (g : Grant) (w : World)
      → B w.base
      → g.expires_at ≡ s.expires_at
      → Ends
          (Issued s w.db)
          B
          ((create_token (token_for p s dr.now g.refresh) >>= λ _. pure g) fs w).0
          ((create_token (token_for p s dr.now g.refresh) >>= λ _. pure g) fs w).1
  unfolding create_token
  create_token-Ends s g w b e =
      write-Ends (Issued s w.db) B (λ _. pure g) fs w b
        (insert_token (token_for p s dr.now g.refresh))
        (λ c made.
          let i = insert_token-eq_ok (token_for p s dr.now g.refresh) w.db made in
          ((i.0, i.1, e), b))

  issue-Ends :
      (s : Session) (w : World)
      → B w.base
      → Ends
          (Issued s w.db)
          B
          (issue p s no_user dr.now dr fs w).0
          (issue p s no_user dr.now dr fs w).1
  unfolding issue
  issue-Ends s w b = at dr.refresh (issue_access p s.user_id dr.now)
    where
      at :
          (bytes access : Option Bytes)
          → Ends
              (Issued s w.db)
              B
              ((lift (or_fail bytes random_failure) >>= λ x.
                  lift (or_fail access random_failure) >>= λ y.
                  create_token (token_for p s dr.now (p.encode_url x)) >>= λ _.
                  pure (grant_of p no_user y (p.encode_url x) s.expires_at))
                fs w).0
              ((lift (or_fail bytes random_failure) >>= λ x.
                  lift (or_fail access random_failure) >>= λ y.
                  create_token (token_for p s dr.now (p.encode_url x)) >>= λ _.
                  pure (grant_of p no_user y (p.encode_url x) s.expires_at))
                fs w).1
      at none access = b
      at (some x) none = b
      at (some x) (some y) =
          create_token-Ends s (grant_of p no_user y (p.encode_url x) s.expires_at) w b refl

  module _ (hash : ℕ) (before d : Db) (b : B d) (s : Session) (t first : RefreshToken) (n : ℕ)
      (ff : find_token hash before ≡ some first) (own : s.id ≡ first.session_id)
      (sf : find_session s.id d ≡ some s) (tf : find_token hash d ≡ some t) where
    abbrev here : World
    here = record { db = d; base = d; tick = n }

    rotate_live-Ends :
        (at : Option ℕ)
        → t.used_at ≡ at
        → dead p s dr.now ≡ false
        → Ends
            (Refreshed p dr.now hash before d)
            B
            (rotate_live p s t dr at fs here).0
            (rotate_live p s t dr at fs here).1
    unfolding rotate_live revoke use_token
    rotate_live-Ends (some at) e alive =
        write-Ends (Refreshed p dr.now hash before d) B (λ _. pure none) fs here b _
          (λ c done. (
            record {
              session = s;
              token = t;
              first = first;
              first_found = ff;
              own = own;
              session_found = sf;
              token_found = tf;
              outcome = inr (alive, rw e refl, refl);
            },
            b,
          ))
    rotate_live-Ends none e alive =
        write-Ends (Refreshed p dr.now hash before d) B _ fs here b _ (λ c done.
          bind-Ends (Issued s (used_row t.hash dr.now d)) (Refreshed p dr.now hash before d) B
            (issue p s no_user dr.now dr) (λ g. pure (some g)) fs _
            (issue-Ends s (record { db = used_row t.hash dr.now d; base = d; tick = suc n }) b)
            (λ g v i c. (granted g v.db i, c)))
      where
        granted :
            (g : Grant) (after : Db)
            → Issued s (used_row t.hash dr.now d) g after
            → Rotated p dr.now hash before d g after
        granted g after i =
            let same = find-key (λ (t : RefreshToken). t.hash) hash d.tokens t tf in
            record {
              session = s;
              token = t;
              first = first;
              first_found = ff;
              own = own;
              session_found = sf;
              token_found = tf;
              unused = e;
              alive = alive;
              new_hash = rw (← same) i.0;
              changed = rw (← same) i.1;
              same_expiry = i.2;
            }

    rotate-Ends :
        Ends
          (Refreshed p dr.now hash before d)
          B
          (rotate p s t dr fs here).0
          (rotate p s t dr fs here).1
    unfolding rotate
    rotate-Ends = elim (Bool-cases (dead p s dr.now)) [
      | inl gone ↦ rw gone (
        record {
          session = s;
          token = t;
          first = first;
          first_found = ff;
          own = own;
          session_found = sf;
          token_found = tf;
          outcome = inl (gone, refl);
        },
        b,
      )
      | inr alive ↦ rw alive (rotate_live-Ends t.used_at refl alive)
    ]

-- The databases that a rollback may restore.
abbrev pub Unchanged : (Db → Db) → Db → Db → Type 0
Unchanged others before x = (x ≡ before) ⊎ (x ≡ others before)

module _ (p : Primitives) (others : Db → Db) (hash : ℕ) (dr : Draws) (fs : Fates) where
  refresh_locked-Ends :
      (B : Db → Type 0) (before db : Db) (s : Session) (first : RefreshToken) (n : ℕ)
      → B db
      → find_token hash before ≡ some first
      → s.id ≡ first.session_id
      → find_session s.id db ≡ some s
      → Ends
          (Refreshed p dr.now hash before db)
          B
          (refresh_locked p dr hash s fs (record { db = db; base = db; tick = n })).0
          (refresh_locked p dr hash s fs (record { db = db; base = db; tick = n })).1
  unfolding refresh_locked token_row
  refresh_locked-Ends B before db s first n b ff own sf =
      query-Ends (Refreshed p dr.now hash before db) B (λ t. rotate p s t dr) fs
        (record { db = db; base = db; tick = n }) b (λ x. or_not_found (find_token hash x))
        (λ t found.
          rotate-Ends p B dr fs hash before db b s t first (suc n) ff own sf
            (or_not_found-eq_ok _ t found))

  -- Whatever statements fail: the transaction of a refresh grants or denies on the database that
  -- the lock finds, or it returns an error and leaves the database to the other transactions,
  -- unless the lost acknowledgement of its commit is the error.
  pub refresh_rows-Commits :
      (w : World)
      → Commits
          (Refreshed p dr.now hash w.db (others w.db))
          (Unchanged others w.db)
          (refresh_rows p others hash dr fs w).0
          (refresh_rows p others hash dr fs w).1.db
  unfolding refresh_rows refresh_found token_row lock_session
  refresh_rows-Commits w =
      transaction-Commits (Refreshed p dr.now hash w.db (others w.db)) (Unchanged others w.db) _ fs
        w
        (query-Ends (Refreshed p dr.now hash w.db (others w.db)) (Unchanged others w.db) _ fs
          (record w { base = w.db }) (inl refl) (λ x. or_not_found (find_token hash x))
          (λ t found.
            lock-Ends (Refreshed p dr.now hash w.db (others w.db)) (Unchanged others w.db) _ fs
              (record w { base = w.db; tick = suc w.tick }) (inl refl) others
              (λ x. or_not_found (find_session t.session_id x)) (inr refl)
              (λ s locked.
                let kept = or_not_found-eq_ok _ s locked in
                let own =
                  find-key (λ (x : Session). x.id) t.session_id (others w.db).sessions s kept in
                let seen = or_not_found-eq_ok (find_token hash w.db) t found in
                let same = find-key (λ (x : RefreshToken). x.hash) hash w.db.tokens t seen in
                rw same (
                  refresh_locked-Ends (Unchanged others w.db) w.db (others w.db) s t
                    (suc (suc w.tick)) (inr refl) seen own
                    (ap (λ i. find_session i (others w.db)) own ∙ kept)))))
