-- ===== src/Auth/Service/Live.antt =====
-- How many refresh tokens of a session are good for a refresh.
use uptime.Prelude.{
  ℕ, ◌+◌, ◌≤◌, ◌≡◌, ◌∙◌, true, false, ◌&&◌, none, some, List, [], ◌∷◌, ◌++◌, Bytes, arith, sum_of,
  ◌==◌, if◌then◌else◌, find, update,
}
use uptime.Store.Rows.{Db, Session, RefreshToken}
use uptime.Store.Exec.{ok, Fates, World}
use uptime.Store.Accounts.{find_token, used_row, is_some}
use uptime.Auth.Crypto.{Primitives, refresh_hash}
use uptime.Auth.Service.{Grant, Draws, token_for, refresh}
use uptime.Auth.Service.Reuse.{refresh-Rotated}

abbrev pub is_live : ℕ → RefreshToken → ℕ
is_live sid t =
    if (t.session_id == sid) && (if is_some t.used_at then false else true) then 1 else 0

-- The unused tokens of a session.
abbrev pub live_tokens : ℕ → Db → ℕ
live_tokens sid db = sum_of (is_live sid) db.tokens

sum_of-append {ℓ} :
    {A : Type ℓ} (f : A → ℕ) (xs ys : List A) → sum_of f (xs ++ ys) ≡ sum_of f xs + sum_of f ys
sum_of-append f [] ys = omega arith
sum_of-append f (x ∷ xs) ys = omega (arith, sum_of-append f xs ys)

use_le :
    (sid hash now : ℕ) (ts : List RefreshToken)
    → sum_of (is_live sid) (update (λ t. t.hash == hash) (λ t. record t { used_at = some now }) ts)
      ≤ sum_of (is_live sid) ts
unfolding update
use_le sid hash now [] = omega arith
use_le sid hash now (t ∷ ts) = ground (arith, use_le sid hash now ts)

use_lt :
    (sid hash now : ℕ) (ts : List RefreshToken) (t : RefreshToken)
    → find (λ (x : RefreshToken). x.hash) hash ts ≡ some t
    → is_live sid t ≡ 1
    → sum_of (is_live sid) (update (λ t. t.hash == hash) (λ t. record t { used_at = some now }) ts)
        + 1
      ≤ sum_of (is_live sid) ts
unfolding update find
use_lt sid hash now [] t h l = cc
use_lt sid hash now (x ∷ xs) t h l =
    ground (arith, use_lt sid hash now xs t, use_le sid hash now xs)

-- where other transactions leave a token with its session, a successful refresh leaves no session
-- with more unused tokens than it had behind the lock, so that a session with one never gets a
-- second.
pub refresh-live_tokens :
    (p : Primitives) (others : Db → Db) (raw : Bytes) (dr : Draws) (fs : Fates) (w : World)
    (g : Grant)
    → ((t u : RefreshToken)
        → find_token (refresh_hash p raw) w.db ≡ some t
        → find_token (refresh_hash p raw) (others w.db) ≡ some u
        → t.session_id ≡ u.session_id)
    → (refresh p others raw dr fs w).0 ≡ ok g
    → (sid : ℕ)
    → live_tokens sid (refresh p others raw dr fs w).1.db ≤ live_tokens sid (others w.db)
refresh-live_tokens p others raw dr fs w g keep e sid =
    let r = refresh-Rotated p others raw dr fs w g e in
    rw r.changed (
      bounded r.token r.session r.token_found r.unused
        (r.own ∙ keep r.first r.token r.first_found r.token_found))
  where
    hash : ℕ
    hash = refresh_hash p raw

    bounded :
        (t : RefreshToken) (s : Session)
        → find_token hash (others w.db) ≡ some t
        → t.used_at ≡ none
        → s.id ≡ t.session_id
        → sum_of
            (is_live sid)
            ((used_row hash dr.now (others w.db)).tokens ++ token_for p s dr.now g.refresh ∷ [])
          ≤ live_tokens sid (others w.db)
    bounded t s h u own = ground (
      arith,
      sum_of-append (is_live sid) (used_row hash dr.now (others w.db)).tokens
          (token_for p s dr.now g.refresh ∷ []),
      use_le sid hash dr.now (others w.db).tokens,
      use_lt sid hash dr.now (others w.db).tokens t h,
    )
