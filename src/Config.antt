-- ===== src/Config.antt =====
-- backend/internal/config/config.go. The environment is a function, where a variable that is not
-- set is empty; net/url is a parameter.
mod Tests
use uptime.Prelude.{
  ℕ, ◌≤◌, ◌≡◌, ◌≢◌, subst, bytes_eq_iff, inl, inr, Bool, true, false, not, ◌&&◌, ◌||◌, Option, none,
  some, List, [], ◌∷◌, Bytes, codes, bytes_eq, length, ltb, arith, Option-cases, Bool-cases,
  if◌then◌else◌, ◌==◌,
}

pub record Config : Type 0 where
  pub database_url : Bytes
  pub http_addr : Bytes
  pub jwt_secret : Bytes
  pub issuer : Bytes
  pub audience : Bytes
  pub origin : Bytes
  pub avatar_dir : Bytes
  pub cookie_secure : Bool

-- What Load refuses: COOKIE_SECURE, DATABASE_URL, JWT_SECRET or ALLOWED_ORIGIN.
pub data Loaded : Type 0 where
  loaded : Config → Loaded
  bad_cookie_secure no_database_url weak_secret bad_origin : Loaded

-- A parsed URL.
pub record Url : Type 0 where
  pub scheme : Bytes
  pub host : Bytes
  pub path : Bytes
  pub raw_query : Bytes
  pub fragment : Bytes
  pub has_user : Bool

abbrev is_one_of : Bytes → List Bytes → Bool
is_one_of s [] = false
is_one_of s (t ∷ ts) = bytes_eq s t || is_one_of s ts

-- strconv.ParseBool
unfoldable pub parse_bool : Bytes → Option Bool
parse_bool s =
    if is_one_of s
      (codes "1" ∷ codes "t" ∷ codes "T" ∷ codes "true" ∷ codes "TRUE" ∷ codes "True" ∷ [])
    then some true
    else if is_one_of s
        (codes "0" ∷ codes "f" ∷ codes "F" ∷ codes "false" ∷ codes "FALSE" ∷ codes "False" ∷ [])
    then some false
    else none

unfoldable pub good_origin : Option Url → Bool
good_origin none = false
good_origin (some u) = not (
    bytes_eq u.host []
    || not (bytes_eq u.scheme (codes "http")) && not (bytes_eq u.scheme (codes "https"))
    || not (bytes_eq u.path [])
    || not (bytes_eq u.raw_query [])
    || not (bytes_eq u.fragment [])
    || u.has_user)

-- strings.HasPrefix
unfoldable pub has_prefix : Bytes → Bytes → Bool
has_prefix s [] = true
has_prefix [] (p ∷ ps) = false
has_prefix (b ∷ bs) (p ∷ ps) = (b == p) && has_prefix bs ps

module _ (getenv : Bytes → Bytes) (parse_url : Bytes → Option Url) where
  unfoldable pub env : Bytes → Bytes → Bytes
  env key fallback = if bytes_eq (getenv key) [] then fallback else getenv key

  abbrev config_of : Bool → Config
  config_of secure = record {
    database_url = getenv (codes "DATABASE_URL");
    http_addr = env (codes "HTTP_ADDR") (codes "127.0.0.1:8080");
    jwt_secret = getenv (codes "JWT_SECRET");
    issuer = env (codes "JWT_ISSUER") (codes "uptime-api");
    audience = env (codes "JWT_AUDIENCE") (codes "uptime-web");
    origin = env (codes "ALLOWED_ORIGIN") (codes "http://localhost:3000");
    avatar_dir = env (codes "AVATAR_DIR") (codes "var/avatars");
    cookie_secure = secure;
  }

  unfoldable pub checked : Config → Loaded
  unfolding good_origin has_prefix
  checked c =
      if bytes_eq c.database_url []
      then no_database_url
      else if ltb (length c.jwt_secret) 32 || has_prefix c.jwt_secret (codes "replace-")
      then weak_secret
      else if not (good_origin (parse_url c.origin))
      then bad_origin
      else loaded c

  unfoldable pub load : Loaded
  unfolding parse_bool env checked
  load = elim (parse_bool (env (codes "COOKIE_SECURE") (codes "true"))) [
    | none ↦ bad_cookie_secure
    | some secure ↦ checked (config_of secure)
  ]

  loaded-injective : (c d : Config) → loaded c ≡ loaded d → c ≡ d
  loaded-injective c d e = cc

  -- A configuration that Load accepts.
  abbrev Usable : Config → Type 0
  Usable c =
      (c.database_url ≢ [])
      × (32 ≤ length c.jwt_secret)
      × (has_prefix c.jwt_secret (codes "replace-") ≡ false)
      × (good_origin (parse_url c.origin) ≡ true)

  -- What is loaded names a database, has a secret of at least 32 bytes that is no placeholder, and
  -- an origin.
  checked-Usable : (c d : Config) → checked c ≡ loaded d → Usable d
  unfolding checked
  checked-Usable c d = elim (Bool-cases (bytes_eq c.database_url [])) [
    | inl f ↦ rw f (λ e. cc)
    | inr f ↦ rw f (elim (Bool-cases weak) [
      | inl g ↦ rw g (λ e. cc)
      | inr g ↦ rw g (elim (Bool-cases (good_origin (parse_url c.origin))) [
        | inr h ↦ rw h (λ e. cc)
        | inl h ↦ rw h (λ e. subst Usable (loaded-injective c d e) (
          (λ n. ground (arith, bytes_eq_iff c.database_url [], n, f)),
          ground arith,
          ground arith,
          h,
        ))
      ])
    ])
  ]
    where
      weak : Bool
      weak = ltb (length c.jwt_secret) 32 || has_prefix c.jwt_secret (codes "replace-")
