-- ===== src/Api/Isolation.antt =====
-- The monitors of a user and the requests of others: every endpoint of backend/cmd/api/main.go.
use uptime.Prelude.{
  ℕ, ◌≡◌, ◌≢◌, refl, ap, subst, true, Option, some, List, [], ◌∷◌, All, Bytes, inl, inr,
}
use uptime.Store.Rows.{Db, Monitor}
use uptime.Store.Exec.{Fates, start}
use uptime.Store.Exec.Keeps.{Safe}
use uptime.Store.Statuses.Complete.{distinct}
use uptime.Store.Monitors.Owners.{ids, theirs, Has}
use uptime.Auth.Crypto.{Primitives}
use uptime.Auth.Controller.Elsewhere.{
  handle_me-Keeps, handle_register-Keeps, handle_login-Keeps, handle_refresh-Keeps,
  handle_logout-Keeps,
}
use uptime.Auth.Controller.{authenticate}
use uptime.Auth.Controller.Tokens.{Carries, Carries-passes, refused_or_Carries}
use uptime.Http.Protect.{Header, Handled, refused, answered, passed, protect}
use uptime.Monitor.Validation.{valid_url}
use uptime.Monitor.Controller.Statistics.Reads.{statuses-Keeps, history-Keeps}
use uptime.Monitor.Controller.Handlers.Reads.{list-Keeps}
use uptime.Monitor.Controller.Handlers.Theirs.{create-Has, update-Has, delete-Has}
use uptime.Profile.Elsewhere.{get_profile-Keeps, update_profile-Keeps}
use uptime.Profile.Avatar.Elsewhere.{upload_avatar-Keeps}
use uptime.Api.{
  Server, Shared, Visit, Endpoint, auth, profiles, websites, register_user, login_user,
  refresh_tokens, log_out, show_me, save_avatar, show_avatar, show_profile, save_profile,
  show_statuses, show_history, list_monitors, create_monitor, update_monitor, delete_monitor,
  no_endpoint, Serve, guarded, serve, behind, api, Arrival, api_all,
}

-- A guarded handler runs with an identity that the header carries, or not at all.
pub guard-Keeps :
    (p : Primitives) (next : Option ℕ → Serve) (at : ℕ) (header : Bytes) (fs : Fates) (s : Shared)
    (K : Shared → Type 0)
    → K s
    → ((id : ℕ) → Carries p at header id → K (next (some id) fs s).1)
    → K (authenticate p next at header fs s).1
guard-Keeps p next at header fs s K k h = elim (refused_or_Carries p next at header fs s) [
  | inl stopped ↦ rw stopped k
  | inr (id, c) ↦ rw (Carries-passes p next at header fs s id c) (h id c)
]

module _ (sv : Server) (user : ℕ) where
  -- What other transactions commit leaves the monitors of the user alone.
  abbrev pub Leaves : (Db → Db) → Type 0
  Leaves others =
      (db : Db)
      → distinct (ids db.monitors) ≡ true
      → (distinct (ids (others db).monitors) ≡ true)
        × (theirs user (others db).monitors ≡ theirs user db.monitors)

  -- A request that passes Protect and carries a token of the user.
  abbrev pub Acts : Arrival → Type 0
  Acts a =
      Carries sv.primitives a.visit.verified_at a.authorization user
      × ((timeout : ℕ) × ((protect sv.text.trim_space sv.to_lower sv.origin a.request).1
            ≡ passed timeout))

  module _ (rows : List Monitor) (v : Visit) (header : Bytes) (others_leave : Leaves v.others)
      (foreign : ¬ Carries sv.primitives v.verified_at header user) (s : Shared) where
    abbrev Kept : Shared → Type 0
    Kept s = Safe (Has user rows) s.world

    another : (id : ℕ) → Carries sv.primitives v.verified_at header id → id ≢ user
    another id c e = foreign (subst (λ i. Carries sv.primitives v.verified_at header i) e c)

    others-Has : (db : Db) → Has user rows db → Has user rows (v.others db)
    others-Has db h = let (d, same) = others_leave db h.0 in (d, rw same h.1)

    only : (id : ℕ) → id ≢ user → (other : ℕ) → some id ≡ some other → other ≢ user
    only id n other e = λ q. n (same q)
      where
        same : other ≡ user → id ≡ user
        same q = cc

    abbrev OfMonitors : List Monitor → Type 0
    OfMonitors ms = (distinct (ids ms) ≡ true) × (theirs user ms ≡ rows)

    -- Behind Authenticate, with whatever another user is given.
    guarded-Kept :
        (next : Option ℕ → Serve)
        → Kept s
        → ((id : ℕ) → id ≢ user → Kept (next (some id) v.fates s).1)
        → Kept (guarded sv v next header v.fates s).1
    unfolding guarded
    guarded-Kept next k h =
        guard-Keeps sv.primitives next v.verified_at header v.fates s Kept k
          (λ id c. h id (another id c))

    serve-Kept : (e : Endpoint) → Kept s → Kept (serve sv v e header v.fates s).1
    unfolding serve
    serve-Kept (auth (register_user r)) k =
        handle_register-Keeps OfMonitors sv.primitives sv.secure v.at r v.ended v.draws s.gate
          v.fates s.world k
    serve-Kept (auth (login_user r)) k =
        handle_login-Keeps OfMonitors sv.primitives sv.secure v.at r v.ended v.draws s.gate v.fates
          s.world k
    serve-Kept (auth (refresh_tokens sent)) k =
        handle_refresh-Keeps OfMonitors sv.primitives sv.secure v.at v.others others-Has sent
          v.draws v.fates s.world k
    serve-Kept (auth (log_out sent)) k =
        handle_logout-Keeps OfMonitors sv.primitives sv.secure v.at v.others others-Has sent v.draws
          v.fates s.world k
    serve-Kept (auth show_me) k =
        guarded-Kept _ k (λ id n. handle_me-Keeps (Has user rows) (some id) v.fates s.world k)
    serve-Kept (profiles (save_avatar upload)) k = guarded-Kept _ k (λ id n.
        upload_avatar-Keeps OfMonitors sv.text sv.images v.disk v.fates s.world k (some id) upload
          s.files)
    serve-Kept (profiles (show_avatar name)) k = k
    serve-Kept (profiles show_profile) k =
        guarded-Kept _ k
          (λ id n. get_profile-Keeps (Has user rows) sv.text (some id) v.fates s.world k)
    serve-Kept (profiles (save_profile r)) k =
        guarded-Kept _ k
          (λ id n. update_profile-Keeps OfMonitors sv.text (some id) r v.fates s.world k)
    serve-Kept (websites (show_statuses is)) k = guarded-Kept _ k (λ id n.
        statuses-Keeps (Has user rows) sv.codec.parse_uuid v.surroundings.now (some id) is v.fates
          s.world k)
    serve-Kept (websites (show_history number period)) k = guarded-Kept _ k (λ id n.
        history-Keeps (Has user rows) sv.codec.parse_uuid v.surroundings.now (some id) number period
          v.fates s.world k)
    serve-Kept (websites (list_monitors cursor)) k = guarded-Kept _ k (λ id n.
        list-Keeps (Has user rows) sv.codec sv.text.trim_space (valid_url sv.outside) v.surroundings
          (some id) cursor v.fates s.world k)
    serve-Kept (websites (create_monitor r)) k = guarded-Kept _ k (λ id n.
        create-Has sv.codec sv.text.trim_space (valid_url sv.outside) v.surroundings user rows
          (some id) r (only id n) v.fates s.world k)
    serve-Kept (websites (update_monitor number r)) k = guarded-Kept _ k (λ id n.
        update-Has sv.codec sv.text.trim_space (valid_url sv.outside) v.surroundings user rows
          (some id) number r (only id n) v.fates s.world k)
    serve-Kept (websites (delete_monitor number)) k = guarded-Kept _ k (λ id n.
        delete-Has sv.codec sv.text.trim_space (valid_url sv.outside) v.surroundings user rows
          (some id) number (only id n) v.fates s.world k)
    serve-Kept (no_endpoint status) k = k

  module _ (rows : List Monitor) (a : Arrival) (others_leave : Leaves a.visit.others)
      (foreign : ¬ Acts a) (s : Shared) where
    behind-Kept :
        (h : List Header × Handled)
        → protect sv.text.trim_space sv.to_lower sv.origin a.request ≡ h
        → Safe (Has user rows) s.world
        → Safe (Has user rows) (behind sv a.visit a.endpoint a.authorization h s).1.world
    behind-Kept (hs, refused status code message) q k = k
    behind-Kept (hs, answered status) q k = k
    behind-Kept (hs, passed timeout) q k =
        serve-Kept rows a.visit a.authorization others_leave
          (λ c. foreign (c, (timeout, ap (λ h. h.1) q))) s a.endpoint k

    api-Kept :
        Safe (Has user rows) s.world
        → Safe (Has user rows) (api sv a.visit a.request a.authorization a.endpoint s).1.world
    unfolding api
    api-Kept k = behind-Kept (protect sv.text.trim_space sv.to_lower sv.origin a.request) refl k

  -- over any sequence of requests to the API, whatever endpoints they ask for, whatever
  -- statements fail and whatever they draw, none of which passes the middleware with a token of a
  -- user, the monitors of that user stay as they are, where identities are keys at the start and
  -- what other transactions commit while a request waits for a row keeps them keys and the
  -- monitors of the user.
  pub api_all_isolated :
      (arrivals : List Arrival) (s : Shared) (db : Db)
      → s.world ≡ start db
      → distinct (ids db.monitors) ≡ true
      → All (λ a. Leaves a.visit.others × ¬ Acts a) arrivals
      → theirs user (api_all sv arrivals s).world.db.monitors ≡ theirs user db.monitors
  unfolding api_all
  api_all_isolated arrivals s db begins d foreign =
      (from arrivals s foreign (rw begins ((d, refl), (d, refl)))).0.1
    where
      from :
          (arrivals : List Arrival) (s : Shared)
          → All (λ a. Leaves a.visit.others × ¬ Acts a) arrivals
          → Safe (Has user (theirs user db.monitors)) s.world
          → Safe (Has user (theirs user db.monitors)) (api_all sv arrivals s).world
      from [] s foreign k = k
      from (a ∷ arrivals) s foreign k =
          from arrivals (api sv a.visit a.request a.authorization a.endpoint s).1 foreign.1
            (api-Kept (theirs user db.monitors) a foreign.0.0 foreign.0.1 s k)
