-- ===== src/Http/Protect.antt =====
-- backend/internal/httpx/middleware.go, with WriteError of response.go. A handler returns the
-- headers that the middleware has set so far and what becomes of the request.
pub mod Gates
mod Tests
use uptime.Prelude.{
  ℕ, ◌*◌, ◌^◌, Bool, true, false, not, ◌&&◌, ◌||◌, Option, none, some, List, [], ◌∷◌, ◌++◌, map,
  Bytes, codes, bytes_eq, split, if◌then◌else◌,
}

-- What the middleware reads of a request; a header that is missing is empty.
pub record Request : Type 0 where
  pub method : Bytes
  pub origin : Bytes
  pub request_method : Bytes
  pub request_headers : Bytes
  pub csrf_protection : Bytes

-- The body of an error has a code and a message; a request that passes has a context with a
-- timeout.
pub data Handled : Type 0 where
  refused : ℕ → Bytes → Bytes → Handled
  answered : ℕ → Handled
  passed : ℕ → Handled

abbrev pub Header : Type 0
Header = Bytes × Bytes

abbrev pub allow_origin : Bytes
allow_origin = codes "Access-Control-Allow-Origin"

abbrev pub is_one_of : List Bytes → Bytes → Bool
is_one_of [] b = false
is_one_of (x ∷ xs) b = bytes_eq x b || is_one_of xs b

-- The value of a header that is set once.
unfoldable pub header : Bytes → List Header → Option Bytes
header name [] = none
header name ((n, v) ∷ hs) = if bytes_eq n name then some v else header name hs

abbrev pub write_error : List Header → Bytes → List Header × Handled
write_error hs message = (
  hs ++ (codes "Content-Type", codes "application/json") ∷ [],
  refused 403 (codes "forbidden") message,
)

abbrev common : List Header
common =
    (codes "Cache-Control", codes "no-store")
    ∷ (codes "X-Content-Type-Options", codes "nosniff")
    ∷ (codes "Vary", codes "Origin")
    ∷ []

abbrev pub credentialed : Bytes → List Header
credentialed origin =
    (allow_origin, origin) ∷ (codes "Access-Control-Allow-Credentials", codes "true") ∷ []

abbrev pub methods : List Bytes
methods = codes "GET" ∷ codes "POST" ∷ codes "PATCH" ∷ codes "PUT" ∷ codes "DELETE" ∷ []

abbrev pub request_headers_allowed : List Bytes
request_headers_allowed =
    [] ∷ codes "content-type" ∷ codes "authorization" ∷ codes "x-csrf-protection" ∷ []

abbrev preflight_headers : List Header
preflight_headers =
    (codes "Access-Control-Allow-Methods", codes "GET, POST, PATCH, PUT, DELETE")
    ∷ (codes "Access-Control-Allow-Headers", codes "Content-Type, Authorization, X-CSRF-Protection")
    ∷ []

-- strings.TrimSpace and strings.ToLower, which are Unicode's.
module _ (trim_space to_lower : Bytes → Bytes) where
  abbrev pub all_allowed : List Bytes → Bool
  all_allowed [] = true
  all_allowed (h ∷ hs) =
      is_one_of request_headers_allowed (to_lower (trim_space h)) && all_allowed hs

  preflight : List Header → Request → List Header × Handled
  preflight hs r =
      if bytes_eq r.origin []
      then write_error hs (codes "Origin is required")
      else if not (is_one_of methods r.request_method)
      then write_error hs (codes "Method is not allowed")
      else if not (all_allowed (split 44 r.request_headers))
      then write_error hs (codes "Header is not allowed")
      else (hs ++ preflight_headers, answered 204)

  abbrev pub needs_csrf : Request → Bool
  needs_csrf r =
      not (bytes_eq r.method (codes "GET"))
      && not (bytes_eq r.method (codes "HEAD"))
      && bytes_eq r.origin []
      && not (bytes_eq r.csrf_protection (codes "1"))

  -- The request once its origin is known to be absent or allowed.
  dispatch : List Header → Request → List Header × Handled
  unfolding preflight
  dispatch hs r =
      if bytes_eq r.method (codes "OPTIONS")
      then preflight hs r
      else if needs_csrf r
      then write_error hs (codes "CSRF protection header is required")
      else (hs, passed (10 * 10 ^ 9))

  unfoldable pub protect : Bytes → Request → List Header × Handled
  unfolding dispatch
  protect allowed r =
      if not (bytes_eq r.origin []) && not (bytes_eq r.origin allowed)
      then write_error common (codes "Origin is not allowed")
      else dispatch (if bytes_eq r.origin [] then common else common ++ credentialed r.origin) r
