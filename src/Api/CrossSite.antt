-- ===== src/Api/CrossSite.antt =====
-- Requests that another website can make a browser send, through Protect and every endpoint of
-- backend/cmd/api/main.go.
use uptime.Prelude.{
  ℕ, ◌≡◌, ◌≢◌, ◌⊎◌, refl, sym, ap, ◌∙◌, bytes_eq_iff, Bool, true, false, Option, some, List, [],
  Bytes, codes, bytes_eq, inl, inr,
}
use uptime.Store.Rows.{Db}
use uptime.Store.Exec.{World, start}
use uptime.Store.Exec.Keeps.{Safe}
use uptime.Auth.Controller.Elsewhere.{handle_me-Keeps}
use uptime.Http.Protect.{Request, Header, Handled, refused, answered, passed, protect}
use uptime.Http.Protect.Gates.{protect-passed, passed_timeout}
use uptime.Monitor.Validation.{valid_url}
use uptime.Monitor.Controller.Statistics.Reads.{statuses-Keeps, history-Keeps}
use uptime.Monitor.Controller.Handlers.Reads.{list-Keeps}
use uptime.Profile.Elsewhere.{get_profile-Keeps}
use uptime.Api.{
  Server, Shared, Visit, Endpoint, auth, profiles, websites, register_user, login_user,
  refresh_tokens, log_out, show_me, save_avatar, show_avatar, show_profile, save_profile,
  show_statuses, show_history, list_monitors, create_monitor, update_monitor, delete_monitor,
  no_endpoint, Serve, guarded, serve, behind, api,
}
use uptime.Api.Isolation.{guard-Keeps}

pub data Method : Type 0 where
  get post patch put delete : Method

abbrev pub method_name : Method → Bytes
method_name get = codes "GET"
method_name post = codes "POST"
method_name patch = codes "PATCH"
method_name put = codes "PUT"
method_name delete = codes "DELETE"

-- The method in the pattern of an endpoint; any request may find none.
abbrev pub pattern_method : Endpoint → Method
pattern_method (auth (register_user r)) = post
pattern_method (auth (login_user r)) = post
pattern_method (auth (refresh_tokens sent)) = post
pattern_method (auth (log_out sent)) = post
pattern_method (profiles (save_avatar upload)) = post
pattern_method (websites (create_monitor r)) = post
pattern_method (profiles (save_profile r)) = patch
pattern_method (websites (update_monitor number r)) = put
pattern_method (websites (delete_monitor number)) = delete
pattern_method _ = get

-- The endpoints that net/http may choose for a method: those whose pattern has it, the patterns of
-- GET for HEAD, and none.
abbrev pub Fits : Bytes → Endpoint → Type 0
Fits method (no_endpoint status) = Unit {0}
Fits method e =
    (method ≡ method_name (pattern_method e)) ⊎ ((method ≡ codes "HEAD") × (pattern_method e ≡ get))

-- The origin is neither that of the application nor missing, or it is missing without the header
-- that a form cannot set.
abbrev pub CrossSite : Server → Request → Type 0
CrossSite sv r =
    ((r.origin ≢ []) × (r.origin ≢ sv.origin)) ⊎ ((r.origin ≡ []) × (r.csrf_protection ≢ codes "1"))

-- Such a request reaches a handler only to read.
reads_only :
    (sv : Server) (r : Request) (timeout : ℕ)
    → CrossSite sv r
    → (protect sv.text.trim_space sv.to_lower sv.origin r).1 ≡ passed timeout
    → (r.method ≡ codes "GET") ⊎ (r.method ≡ codes "HEAD")
reads_only sv r timeout c h =
    let (not_options, origin, safe) =
      (protect-passed sv.text.trim_space sv.to_lower sv.origin r).0
        (passed_timeout sv.text.trim_space sv.to_lower sv.origin r timeout h) in
    by_site c origin safe
  where
    by_site :
        CrossSite sv r
        → (r.origin ≡ []) ⊎ (r.origin ≡ sv.origin)
        → (r.origin ≢ [])
          ⊎ ((r.method ≡ codes "GET")
              ⊎ ((r.method ≡ codes "HEAD") ⊎ (r.csrf_protection ≡ codes "1")))
        → (r.method ≡ codes "GET") ⊎ (r.method ≡ codes "HEAD")
    by_site (inl (some_origin, foreign)) (inl e) safe = absurd (some_origin e)
    by_site (inl (some_origin, foreign)) (inr e) safe = absurd (foreign e)
    by_site (inr (no_origin, bare)) o (inl n) = absurd (n no_origin)
    by_site (inr (no_origin, bare)) o (inr (inl g)) = inl g
    by_site (inr (no_origin, bare)) o (inr (inr (inl g))) = inr g
    by_site (inr (no_origin, bare)) o (inr (inr (inr e))) = absurd (bare e)

differs : (x y : Bytes) → bytes_eq x y ≡ false → x ≢ y
differs x y h e = both_ways (bytes_eq x y) ((bytes_eq_iff x y).1 e) h
  where
    both_ways : (b : Bool) → b ≡ true → b ≡ false → ⊥
    both_ways b t f = cc

neither :
    (x method : Bytes)
    → bytes_eq x (codes "GET") ≡ false
    → bytes_eq x (codes "HEAD") ≡ false
    → method ≡ x
    → (method ≡ codes "GET") ⊎ (method ≡ codes "HEAD")
    → ⊥
neither x method g h e (inl q) = differs x (codes "GET") g (sym e ∙ q)
neither x method g h e (inr q) = differs x (codes "HEAD") h (sym e ∙ q)

only_get :
    (m : Method) (method : Bytes)
    → (method ≡ codes "GET") ⊎ (method ≡ codes "HEAD")
    → (method ≡ method_name m) ⊎ ((method ≡ codes "HEAD") × (m ≡ get))
    → m ≡ get
unfolding bytes_eq
only_get m method r (inr (head, e)) = e
only_get get method r (inl e) = refl
only_get post method r (inl e) = absurd (neither (codes "POST") method refl refl e r)
only_get patch method r (inl e) = absurd (neither (codes "PATCH") method refl refl e r)
only_get put method r (inl e) = absurd (neither (codes "PUT") method refl refl e r)
only_get delete method r (inl e) = absurd (neither (codes "DELETE") method refl refl e r)

Fits-get :
    (e : Endpoint) (method : Bytes)
    → (method ≡ codes "GET") ⊎ (method ≡ codes "HEAD")
    → Fits method e
    → pattern_method e ≡ get
Fits-get (auth (register_user x)) method r f = only_get post method r f
Fits-get (auth (login_user x)) method r f = only_get post method r f
Fits-get (auth (refresh_tokens x)) method r f = only_get post method r f
Fits-get (auth (log_out x)) method r f = only_get post method r f
Fits-get (profiles (save_avatar x)) method r f = only_get post method r f
Fits-get (websites (create_monitor x)) method r f = only_get post method r f
Fits-get (profiles (save_profile x)) method r f = only_get patch method r f
Fits-get (websites (update_monitor x y)) method r f = only_get put method r f
Fits-get (websites (delete_monitor x)) method r f = only_get delete method r f
Fits-get (auth show_me) method r f = refl
Fits-get (profiles (show_avatar x)) method r f = refl
Fits-get (profiles show_profile) method r f = refl
Fits-get (websites (show_statuses x)) method r f = refl
Fits-get (websites (show_history x y)) method r f = refl
Fits-get (websites (list_monitors x)) method r f = refl
Fits-get (no_endpoint x) method r f = refl

module _ (sv : Server) (v : Visit) (header : Bytes) (s : Shared) (I : Db → Type 0) where
  -- The gate and the files are those before, and the database keeps what held of it.
  abbrev Same : Shared → Type 0
  Same s' = Safe I s'.world × (s'.gate ≡ s.gate) × (s'.files ≡ s.files)

  guarded-Same :
      (next : Option ℕ → Serve)
      → Safe I s.world
      → ((id : ℕ) → Same (next (some id) v.fates s).1)
      → Same (guarded sv v next header v.fates s).1
  unfolding guarded
  guarded-Same next k h =
      guard-Keeps sv.primitives next v.verified_at header v.fates s Same (k, refl, refl)
        (λ id c. h id)

  serve-Same :
      (e : Endpoint)
      → pattern_method e ≡ get
      → Safe I s.world
      → Same (serve sv v e header v.fates s).1
  unfolding serve
  serve-Same (auth show_me) q k =
      guarded-Same _ k (λ id. (handle_me-Keeps I (some id) v.fates s.world k, refl, refl))
  serve-Same (profiles (show_avatar name)) q k = (k, refl, refl)
  serve-Same (profiles show_profile) q k =
      guarded-Same _ k (λ id. (get_profile-Keeps I sv.text (some id) v.fates s.world k, refl, refl))
  serve-Same (websites (show_statuses is)) q k = guarded-Same _ k (λ id. (
    statuses-Keeps I sv.codec.parse_uuid v.surroundings.now (some id) is v.fates s.world k,
    refl,
    refl,
  ))
  serve-Same (websites (show_history number period)) q k = guarded-Same _ k (λ id. (
    history-Keeps I sv.codec.parse_uuid v.surroundings.now (some id) number period v.fates s.world
        k,
    refl,
    refl,
  ))
  serve-Same (websites (list_monitors cursor)) q k = guarded-Same _ k (λ id. (
    list-Keeps I sv.codec sv.text.trim_space (valid_url sv.outside) v.surroundings (some id) cursor
        v.fates s.world k,
    refl,
    refl,
  ))
  serve-Same (no_endpoint status) q k = (k, refl, refl)
  serve-Same (auth (register_user r)) q k = cc
  serve-Same (auth (login_user r)) q k = cc
  serve-Same (auth (refresh_tokens sent)) q k = cc
  serve-Same (auth (log_out sent)) q k = cc
  serve-Same (profiles (save_avatar upload)) q k = cc
  serve-Same (profiles (save_profile r)) q k = cc
  serve-Same (websites (create_monitor r)) q k = cc
  serve-Same (websites (update_monitor number r)) q k = cc
  serve-Same (websites (delete_monitor number)) q k = cc

  behind-Same :
      (r : Request) (e : Endpoint) (h : List Header × Handled)
      → CrossSite sv r
      → Fits r.method e
      → protect sv.text.trim_space sv.to_lower sv.origin r ≡ h
      → Safe I s.world
      → Same (behind sv v e header h s).1
  behind-Same r e (hs, refused status code message) c f q k = (k, refl, refl)
  behind-Same r e (hs, answered status) c f q k = (k, refl, refl)
  behind-Same r e (hs, passed timeout) c f q k =
      serve-Same e (Fits-get e r.method (reads_only sv r timeout c (ap (λ h. h.1) q)) f) k

-- a request from a foreign origin, or without an origin and without the header against forgery,
-- to whatever endpoint fits its method, with whatever token, leaves the database, the gate of
-- passwords and the files of avatars as they are, where no transaction is open.
pub api-CrossSite :
    (sv : Server) (v : Visit) (r : Request) (header : Bytes) (e : Endpoint) (s : Shared)
    → CrossSite sv r
    → Fits r.method e
    → s.world ≡ start s.world.db
    → ((api sv v r header e s).1.world.db ≡ s.world.db)
      × ((api sv v r header e s).1.gate ≡ s.gate)
      × ((api sv v r header e s).1.files ≡ s.files)
unfolding api
api-CrossSite sv v r header e s c f begins =
    let (kept, gate, files) =
      behind-Same sv v header s (λ db. db ≡ s.world.db) r e
        (protect sv.text.trim_space sv.to_lower sv.origin r) c f refl
        (refl, ap World.base begins) in
    (kept.0, gate, files)
