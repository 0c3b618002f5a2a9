-- ===== src/Auth/Controller/Stays.antt =====
-- A client that refreshes again and again with the cookie it was given last:
-- backend/internal/auth/controller.go over service.go.
use uptime.Prelude.{
  ℕ, ◌<◌, ◌≡◌, refl, ap, Bool, true, false, Option, none, some, List, [], ◌∷◌, ◌++◌, Bytes, arith,
  length, bytes_eq_iff, leb, ◌==◌, find, update, find-key, find-append_new, map, All,
}
use uptime.Store.Rows.{Db, Session, RefreshToken}
use uptime.Store.Exec.{ok, World, all_fine, transaction}
use uptime.Store.Accounts.{
  find_session, find_token, used_row, token_row, lock_session, use_token, create_token,
  insert_token,
}
use uptime.Auth.Crypto.{Primitives, refresh_hash, valid_refresh, issue_access}
use uptime.Http.Reply.{json}
use uptime.Auth.Controller.{Age, seconds, deleted, Cookie, Answer, AuthResponse, handle_refresh}
use uptime.Auth.Service.{Draws, grant_of, no_user, token_for, refresh, rotate, issue}

not_yet : (now expires : ℕ) → now < expires → leb expires now ≡ false
not_yet now expires h = ground arith

module _ (p : Primitives) where
  -- A refresh token of the session `s` that is unused.
  pub record Holds (s : Session) (value : Bytes) (db : Db) : Type 0 where
    pub valid : valid_refresh p value ≡ true
    pub token : RefreshToken
    pub found : find_token (refresh_hash p value) db ≡ some token
    pub unused : token.used_at ≡ none
    pub own : token.session_id ≡ s.id
    pub session_found : find_session s.id db ≡ some s
    pub alive : s.revoked_at ≡ none

  abbrev after_refresh : Session → Bytes → ℕ → Bytes → Db → Db
  after_refresh s value now fresh db = record db {
    tokens = (used_row (refresh_hash p value) now db).tokens ++ token_for p s now fresh ∷ [];
  }

  refresh-Holds :
      (s : Session) (value : Bytes) (d : Draws) (w : World) (b access : Bytes)
      → Holds s value w.db
      → d.refresh ≡ some b
      → d.now < s.expires_at
      → issue_access p s.user_id d.now ≡ some access
      → find_token (refresh_hash p (p.encode_url b)) (used_row (refresh_hash p value) d.now w.db)
        ≡ none
      → ((refresh p (λ x. x) value d all_fine w).0
          ≡ ok (grant_of p no_user access (p.encode_url b) s.expires_at))
        × ((refresh p (λ x. x) value d all_fine w).1.db
            ≡ after_refresh s value d.now (p.encode_url b) w.db)
  unfolding refresh rotate issue transaction token_row lock_session use_token create_token
      insert_token
  refresh-Holds s value d w b access h drawn early issued fresh =
      let same =
        find-key (λ (t : RefreshToken). t.hash) (refresh_hash p value) w.db.tokens h.token
          h.found in
      rw h.valid (
        rw h.found (
          rw h.own (
            rw h.session_found (
              rw same (
                rw h.found (
                  rw h.unused (
                    rw h.alive (
                      rw (not_yet d.now s.expires_at early) (
                        rw drawn (
                          rw issued (rw same (rw fresh (rw h.session_found (refl, refl))))))))))))))

  -- Of the rows with their hashes.
  abbrev hashes : List RefreshToken → List ℕ
  hashes ts = map (λ (t : RefreshToken). t.hash) ts

  used-hashes :
      (h now : ℕ) (ts : List RefreshToken)
      → hashes
          (update (λ (t : RefreshToken). t.hash == h) (λ t. record t { used_at = some now }) ts)
        ≡ hashes ts
  unfolding update
  used-hashes h now [] = refl
  used-hashes h now (t ∷ ts) = rw (used-hashes h now ts) (ground arith)

  append-hashes :
      (ts : List RefreshToken) (t : RefreshToken) → hashes (ts ++ t ∷ []) ≡ hashes ts ++ t.hash ∷ []
  append-hashes [] t = refl
  append-hashes (x ∷ xs) t = ap (◌∷◌ x.hash) (append-hashes xs t)

  find-hashes :
      (h : ℕ) (ts : List RefreshToken)
      → find (λ (n : ℕ). n) h (hashes ts) ≡ none
      → find (λ (t : RefreshToken). t.hash) h ts ≡ none
  unfolding find
  find-hashes h [] e = refl
  find-hashes h (t ∷ ts) e = ground (arith, find-hashes h ts)

  -- What one refresh of the client draws, and when it is answered.
  pub record Round : Type 0 where
    pub draws : Draws
    pub at : ℕ

  -- The rounds draw 32 random bytes each, whose hashes are not among those seen, before the session
  -- expires.
  abbrev pub Fresh : ℕ → List ℕ → List Round → Type 0
  Fresh expires seen [] = Unit {0}
  Fresh expires seen (r ∷ rs) =
      ((b : Bytes) × (r.draws.refresh ≡ some b)
        × (length b ≡ 32)
        × (r.draws.now < expires)
        × (find (λ (n : ℕ). n) (refresh_hash p (p.encode_url b)) seen ≡ none)
        × Fresh expires (seen ++ refresh_hash p (p.encode_url b) ∷ []) rs)

  -- The value a client holds after an answer: a cookie with an age replaces it.
  abbrev pub aged : Age → Bytes → Option Bytes
  aged deleted value = none
  aged (seconds n) value = some value

  abbrev pub keep : Option Bytes → Option Cookie → Option Bytes
  keep held none = held
  keep held (some c) = aged c.max_age c.value

  module _ (secure : Bool) where
    -- The answers to a client that refreshes once a round.
    unfoldable pub client : List Round → Option Bytes → World → List (Answer AuthResponse)
    client [] held w = []
    client (r ∷ rs) held w =
        let (a, w') = handle_refresh p secure r.at (λ x. x) held r.draws all_fine w in
        a ∷ client rs (keep held a.set_cookie) w'

    abbrev pub SignedIn : Answer AuthResponse → Type 0
    SignedIn a = (body : AuthResponse) × (a.reply ≡ json 200 body)

    encoded-valid :
        (b : Bytes)
        → length b ≡ 32
        → p.decode_url (p.encode_url b) ≡ some b
        → valid_refresh p (p.encode_url b) ≡ true
    unfolding valid_refresh
    encoded-valid b size back =
        rw back (rw ((bytes_eq_iff (p.encode_url b) (p.encode_url b)).1 refl) (rw size refl))

    module _ (s : Session)
        (decodes : (b : Bytes) → length b ≡ 32 → p.decode_url (p.encode_url b) ≡ some b)
        (signs : (user now : ℕ) → (access : Bytes) × (issue_access p user now ≡ some access)) where
      next-Holds :
          (value : Bytes) (d : Draws) (db : Db) (b : Bytes)
          → Holds s value db
          → length b ≡ 32
          → find_token (refresh_hash p (p.encode_url b)) (used_row (refresh_hash p value) d.now db)
            ≡ none
          → Holds s (p.encode_url b) (after_refresh s value d.now (p.encode_url b) db)
      next-Holds value d db b h size fresh = record {
        valid = encoded-valid b size (decodes b size);
        token = token_for p s d.now (p.encode_url b);
        found =
            find-append_new (λ (t : RefreshToken). t.hash) (refresh_hash p (p.encode_url b))
              (used_row (refresh_hash p value) d.now db).tokens
              (token_for p s d.now (p.encode_url b)) refl fresh;
        unused = refl;
        own = refl;
        session_found = h.session_found;
        alive = h.alive;
      }

      -- where base64 decodes what it encodes and tokens can be signed, and no statement fails and
      -- no other call intervenes, a client that refreshes again and again with the cookie it was
      -- given last is answered with 200 every time, as long as its first cookie has an unused
      -- token of an open session, each refresh comes before the session expires and each draws 32
      -- bytes whose hash is new.
      pub client-SignedIn :
          (rs : List Round) (value : Bytes) (w : World)
          → Holds s value w.db
          → Fresh s.expires_at (hashes w.db.tokens) rs
          → All SignedIn (client rs (some value) w)
      unfolding client handle_refresh
      client-SignedIn [] value w h f = tt
      client-SignedIn (r ∷ rs) value w h (b, drawn, size, early, new, rest) =
          let (access, issued) = signs s.user_id r.draws.now in
          let fresh =
            find-hashes _ _ (rw (used-hashes (refresh_hash p value) r.draws.now w.db.tokens) new) in
          let (granted, left) =
            refresh-Holds s value r.draws w b access h drawn early issued fresh in
          rw granted (
            (_, refl),
            client-SignedIn rs (p.encode_url b) _
                (rw left (next-Holds value r.draws w.db b h size fresh))
                (rw left (
                  rw
                    (append-hashes (used_row (refresh_hash p value) r.draws.now w.db).tokens
                      (token_for p s r.draws.now (p.encode_url b)))
                    (rw (used-hashes (refresh_hash p value) r.draws.now w.db.tokens) rest))),
          )
