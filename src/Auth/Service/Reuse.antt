-- ===== src/Auth/Service/Reuse.antt =====
-- A refresh token is good for one refresh.
use mathlib.Core.Option
use uptime.Prelude.{
  ℕ, ◌≡◌, ◌≢◌, refl, sym, ap, subst, ◌∙◌, Bool, true, false, ◌&&◌, Option, none, some, List, ◌++◌,
  Bytes, arith, ◌==◌, if◌then◌else◌, find-key, find-update, find-append_old,
}
use uptime.Store.Rows.{Db, Session, RefreshToken}
use uptime.Store.Exec.{
  Result, ok, err, unauthorized, ok-injective, Fates, World, all_fine, transaction,
}
use uptime.Store.Exec.Rules.{Commits}
use uptime.Store.Accounts.{
  find_session, find_token, revoked_row, used_row, is_some, token_row, lock_session, revoke,
}
use uptime.Auth.Crypto.{Primitives, refresh_hash, valid_refresh}
use uptime.Auth.Service.{Grant, Draws, denied, dead, rotate, refresh, refresh_rows}
use uptime.Auth.Service.Rotation.{Rotated, Refreshed, Unchanged, refresh_rows-Commits}

module _ (p : Primitives) (others : Db → Db) (raw : Bytes) (dr : Draws) (fs : Fates)
    (w : World) where
  abbrev rows : Result (Option Grant) × World
  rows = refresh_rows p others (refresh_hash p raw) dr fs w

  granted :
      (r : Result (Option Grant)) (after : Db) (g : Grant)
      → Commits
          (Refreshed p dr.now (refresh_hash p raw) w.db (others w.db))
          (Unchanged others w.db)
          r
          after
      → denied p r ≡ ok g
      → Rotated p dr.now (refresh_hash p raw) w.db (others w.db) g after
  granted (ok (some h)) after g c e =
      subst (λ x. Rotated p dr.now (refresh_hash p raw) w.db (others w.db) x after)
        (ok-injective h g e) c
  granted (ok none) after g c e = cc
  granted (err x) after g c e = cc

  -- a refresh that grants tokens found its token unused and its session alive and unexpired once
  -- it held the lock; it leaves that token used and one new unused token of the same session,
  -- keeps the expiry of the session, and changes nothing else, whatever other transactions commit
  -- while it waits for the lock and whatever statements fail.
  pub refresh-Rotated :
      (g : Grant)
      → (refresh p others raw dr fs w).0 ≡ ok g
      → Rotated p dr.now
          (refresh_hash p raw)
          w.db
          (others w.db)
          g
          (refresh p others raw dr fs w).1.db
  unfolding refresh
  refresh-Rotated g = at (valid_refresh p raw)
    where
      at :
          (b : Bool)
          → (if◌then◌else◌ {A = Result Grant × World} b
              (denied p rows.0, rows.1)
              (err unauthorized, w)).0
            ≡ ok g
          → Rotated p dr.now
              (refresh_hash p raw)
              w.db
              (others w.db)
              g
              (if◌then◌else◌ {A = Result Grant × World} b
                (denied p rows.0, rows.1)
                (err unauthorized, w)).1.db
      at true e =
          granted rows.0 rows.1.db g (refresh_rows-Commits p others (refresh_hash p raw) dr fs w) e
      at false e = cc

-- The row of a used token, after the change.
find_token-used :
    (hash now : ℕ) (d : Db) (t : RefreshToken) (more : List RefreshToken)
    → find_token hash d ≡ some t
    → find_token hash (record d { tokens = (used_row hash now d).tokens ++ more })
      ≡ some (record t { used_at = some now })
find_token-used hash now d t more h =
    find-append_old (λ (x : RefreshToken). x.hash) hash (used_row hash now d).tokens more _
      (rewritten
        (find-update (λ (x : RefreshToken). x.hash) hash (λ x. x.hash == hash)
          (λ x. record x { used_at = some now }) (λ x. refl) d.tokens)
        (find-key (λ (x : RefreshToken). x.hash) hash d.tokens t h))
  where
    rewritten :
        find_token hash (used_row hash now d)
          ≡ Option.map
              (λ (x : RefreshToken). if x.hash == hash then record x { used_at = some now } else x)
              (find_token hash d)
        → t.hash ≡ hash
        → find_token hash (used_row hash now d) ≡ some (record t { used_at = some now })
    rewritten e k = ground arith

used_differs :
    (t : RefreshToken) (now : ℕ) (u : RefreshToken)
    → some t ≡ some (record u { used_at = some now })
    → t.used_at ≢ none
used_differs t now u row unused = ground arith

-- once a refresh with a token has returned tokens, no later refresh with the same token that runs
-- on the database it left does, whatever it draws and whatever statements fail; in the earlier
-- call other transactions may commit anything while it waits for its lock.
pub refresh_once :
    (p : Primitives) (others : Db → Db) (raw : Bytes) (dr dr' : Draws) (fs fs' : Fates)
    (w v : World) (g : Grant)
    → (refresh p others raw dr fs w).0 ≡ ok g
    → v.db ≡ (refresh p others raw dr fs w).1.db
    → (h : Grant) → (refresh p (λ d. d) raw dr' fs' v).0 ≢ ok h
refresh_once p others raw dr dr' fs fs' w v g e same h e' =
    let one = refresh-Rotated p others raw dr fs w g e in
    let two = refresh-Rotated p (λ d. d) raw dr' fs' v h e' in
    let used =
      find_token-used (refresh_hash p raw) dr.now (others w.db) one.token _ one.token_found in
    let row =
      sym two.token_found ∙ ap (find_token (refresh_hash p raw)) (same ∙ one.changed) ∙ used in
    used_differs two.token dr.now one.token row two.unused

find_session-revoked :
    (id now : ℕ) (d : Db) (s : Session)
    → find_session id d ≡ some s
    → s.revoked_at ≡ none
    → find_session id (revoked_row id now d) ≡ some (record s { revoked_at = some now })
find_session-revoked id now d s h live = ground (
  arith,
  find-update (λ (x : Session). x.id) id
      (λ (x : Session). (x.id == id) && (if is_some x.revoked_at then false else true))
      (λ x. record x { revoked_at = some now }) (λ x. refl) d.sessions,
  find-key (λ (x : Session). x.id) id d.sessions s h,
)

-- where no statement fails, a refresh with a used token of a session that is alive returns the
-- error of an unauthorized caller and commits the revocation of that session, whatever others
-- committed before it held the lock.
pub replay_revokes :
    (p : Primitives) (others : Db → Db) (raw : Bytes) (dr : Draws) (w : World)
    (t again : RefreshToken) (s : Session)
    → valid_refresh p raw ≡ true
    → find_token (refresh_hash p raw) w.db ≡ some t
    → find_session t.session_id (others w.db) ≡ some s
    → dead p s dr.now ≡ false
    → find_token (refresh_hash p raw) (others w.db) ≡ some again
    → is_some again.used_at ≡ true
    → ((refresh p others raw dr all_fine w).0 ≡ err unauthorized)
      × (find_session t.session_id (refresh p others raw dr all_fine w).1.db
          ≡ some (record s { revoked_at = some dr.now }))
unfolding refresh refresh_rows token_row lock_session rotate revoke transaction
replay_revokes p others raw dr w t again s v tf sf alive af used = ground (
  arith,
  find-key (λ (x : RefreshToken). x.hash) (refresh_hash p raw) w.db.tokens t tf,
  find-key (λ (x : Session). x.id) t.session_id (others w.db).sessions s sf,
  find_session-revoked t.session_id dr.now (others w.db) s sf,
)
