-- ===== src/Http/Protect/Gates.antt =====
-- Which requests reach a handler, and which responses a browser may read.
use uptime.Prelude.{
  ℕ, ◌*◌, ◌^◌, ◌≡◌, ◌≢◌, ◌↔◌, ◌⊎◌, refl, true, not, ◌&&◌, none, some, List, [], ◌∷◌, ◌++◌, Bytes,
  codes, bytes_eq, bytes_eq_iff, split, arith, if◌then◌else◌,
}
use uptime.Http.Protect.{
  common, preflight_headers, Request, answered, passed, Header, header, allow_origin, protect,
  dispatch, preflight, credentialed, is_one_of, methods, all_allowed,
}

module _ (trim_space to_lower : Bytes → Bytes) where
  preflight_lem :
      (hs : List Header) (r : Request)
      → (preflight trim_space to_lower hs r).1 ≢ passed (10 * 10 ^ 9)
  unfolding preflight
  preflight_lem hs r = ground arith

  -- a request reaches a handler, and then with a timeout of ten seconds, exactly when it is no
  -- preflight, its origin is absent or the allowed one, and it has an origin, reads only, or
  -- carries the header against forgery.
  pub protect-passed :
      (allowed : Bytes) (r : Request)
      → ((protect trim_space to_lower allowed r).1 ≡ passed (10 * 10 ^ 9)) ↔ (
          r.method ≢ codes "OPTIONS"
          × ((r.origin ≡ []) ⊎ (r.origin ≡ allowed))
          × ((r.origin ≢ [])
              ⊎ ((r.method ≡ codes "GET")
                  ⊎ ((r.method ≡ codes "HEAD") ⊎ (r.csrf_protection ≡ codes "1")))))
  unfolding protect dispatch preflight
  protect-passed allowed r = ground (
    arith,
    preflight_lem (if bytes_eq r.origin [] then common else common ++ credentialed r.origin) r,
    bytes_eq_iff r.origin [],
    bytes_eq_iff r.origin allowed,
    bytes_eq_iff r.method (codes "OPTIONS"),
    bytes_eq_iff r.method (codes "GET"),
    bytes_eq_iff r.method (codes "HEAD"),
    bytes_eq_iff r.csrf_protection (codes "1"),
  )

  -- There is one timeout.
  pub passed_timeout :
      (allowed : Bytes) (r : Request) (timeout : ℕ)
      → (protect trim_space to_lower allowed r).1 ≡ passed timeout
      → (protect trim_space to_lower allowed r).1 ≡ passed (10 * 10 ^ 9)
  unfolding protect dispatch preflight
  passed_timeout allowed r timeout h = ground arith

  -- Where the headers that follow do not set a value, the value is that of the headers before.
  header-append :
      (name : Bytes) (hs gs : List Header)
      → header name gs ≡ none
      → header name (hs ++ gs) ≡ header name hs
  unfolding header
  header-append name [] gs e = e
  header-append name ((n, v) ∷ hs) gs e = ground (arith, header-append name hs gs e)

  json_none : header allow_origin ((codes "Content-Type", codes "application/json") ∷ []) ≡ none
  unfolding header bytes_eq
  json_none = refl

  preflight_none : header allow_origin preflight_headers ≡ none
  unfolding header bytes_eq
  preflight_none = refl

  common-none : header allow_origin common ≡ none
  unfolding header bytes_eq
  common-none = refl

  credentialed-some :
      (origin : Bytes) → header allow_origin (common ++ credentialed origin) ≡ some origin
  unfolding header bytes_eq
  credentialed-some origin = refl

  -- The headers of a response do not change the value of the header of an allowed origin.
  kept :
      (hs : List Header) (r : Request)
      → header allow_origin (dispatch trim_space to_lower hs r).0 ≡ header allow_origin hs
  unfolding dispatch preflight
  kept hs r = ground (
    arith,
    header-append allow_origin hs ((codes "Content-Type", codes "application/json") ∷ []) json_none,
    header-append allow_origin hs preflight_headers preflight_none,
  )

  -- a response names an allowed origin exactly when the request has an origin that is not empty
  -- and is the allowed one, and names that, whatever else becomes of the request.
  pub protect-allow_origin :
      (allowed : Bytes) (r : Request)
      → header allow_origin (protect trim_space to_lower allowed r).0
        ≡ (if not (bytes_eq r.origin []) && bytes_eq r.origin allowed then some r.origin else none)
  unfolding protect
  protect-allow_origin allowed r = ground (
    arith,
    kept common r,
    kept (common ++ credentialed r.origin) r,
    common-none,
    credentialed-some r.origin,
    header-append allow_origin common ((codes "Content-Type", codes "application/json") ∷ [])
        json_none,
  )

  -- a preflight is answered with 204 exactly when it comes from the allowed origin, which is not
  -- empty, asks for one of the methods of the API and for no header but the three that the API
  -- reads.
  pub protect-preflight :
      (allowed : Bytes) (r : Request)
      → ((protect trim_space to_lower allowed r).1 ≡ answered 204) ↔ (
          (r.method ≡ codes "OPTIONS")
          × (r.origin ≢ [])
          × (r.origin ≡ allowed)
          × (is_one_of methods r.request_method ≡ true)
          × (all_allowed trim_space to_lower (split 44 r.request_headers) ≡ true))
  unfolding protect dispatch preflight
  protect-preflight allowed r = ground (
    arith,
    bytes_eq_iff r.origin [],
    bytes_eq_iff r.origin allowed,
    bytes_eq_iff r.method (codes "OPTIONS"),
  )
