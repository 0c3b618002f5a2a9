-- ===== src/Auth/Controller.antt =====
-- The HTTP handlers of backend/internal/auth/controller.go over the service. The JSON decoder and
-- the parser of the header Cookie are those of net/http and encoding/json.
pub mod Bearer
pub mod Tokens
pub mod Stays
pub mod Cookies
pub mod SignedOut
pub mod Elsewhere
mod Tests
use uptime.Prelude.{
  ℕ, ◌-◌, ◌/◌, max, Bool, true, false, not, Option, none, some, List, [], ◌∷◌, ◌++◌, Bytes, codes,
  bytes_eq, split, if◌then◌else◌,
}
use uptime.Store.Rows.{second, Db, User}
use uptime.Store.Exec.{
  Error, Result, ok, err, record_not_found, duplicated_key, database, invalid, unauthorized,
  conflict, busy, cancelled, random_failure, bad_period, Exec, Fates, World,
}
use uptime.Store.Accounts.{avatar_url}
use uptime.Auth.Gate.{PasswordGate}
use uptime.Auth.Crypto.{Primitives, access_ttl, verify}
use uptime.Auth.Service.{Grant, Draws, register, login, refresh, logout, me}
use uptime.Auth.Controller.Bearer.{bearer_token}
use uptime.Http.Reply.{Reply, fault, json, bare}

abbrev pub cookie_name : Bytes
cookie_name = codes "refresh_token"

abbrev pub cookie_path : Bytes
cookie_path = codes "/api/v1/auth"

-- MaxAge of a cookie: a number of seconds, or below zero for a deletion.
pub data Age : Type 0 where
  seconds : ℕ → Age
  deleted : Age

-- `expires` in nanoseconds.
pub record Cookie : Type 0 where
  pub name : Bytes
  pub value : Bytes
  pub path : Bytes
  pub http_only : Bool
  pub secure : Bool
  pub same_site : Bytes
  pub max_age : Age
  pub expires : ℕ

pub record UserResponse : Type 0 where
  pub id : ℕ
  pub email : Bytes
  pub name : Bytes
  pub avatar_url : Bytes
  pub created_at : ℕ

pub record TokenResponse : Type 0 where
  pub access_token : Bytes
  pub token_type : Bytes
  pub expires_in : ℕ

-- `authResponse`, or a `tokenResponse` where there is no user.
pub record AuthResponse : Type 0 where
  pub token : TokenResponse
  pub user : Option UserResponse

-- A reply with its header Set-Cookie and one more header.
pub record Answer (A : Type 0) : Type 0 where
  pub reply : Reply A
  pub set_cookie : Option Cookie
  pub header : Option (Bytes × Bytes)

-- The header Content-Type, and the email and the password in the body: nothing where it is longer
-- than 4096 bytes, has other fields, or more than one value.
pub record CredentialsUpload : Type 0 where
  pub content_type : Bytes
  pub body : Option (Bytes × Bytes)

abbrev pub user_dto : User → UserResponse
user_dto u = record {
  id = u.id;
  email = u.email;
  name = u.name;
  avatar_url = avatar_url u;
  created_at = u.created_at;
}

abbrev first_piece : List Bytes → Bytes
first_piece [] = []
first_piece (p ∷ ps) = p

abbrev decoded : Option (Bytes × Bytes) → Result (Bytes × Bytes)
decoded none = err invalid
decoded (some b) = ok b

unfoldable pub decode_credentials : CredentialsUpload → Result (Bytes × Bytes)
decode_credentials r =
    if bytes_eq (first_piece (split b';' r.content_type)) (codes "application/json")
    then decoded r.body
    else err invalid

abbrev pub plainly : {A : Type 0} → Reply A → Answer A
plainly r = record { reply = r; set_cookie = none; header = none }

abbrev internal : {A : Type 0} → Answer A
internal = plainly (fault 500 (codes "internal_error") (codes "Internal server error"))

-- The dash of the message is three bytes of UTF-8.
abbrev pub handle_error : {A : Type 0} → Error → Answer A
handle_error invalid = plainly (
    fault 400 (codes "invalid_request") (
      codes "Valid email and a password of 12"
      ++ 226 ∷ 128 ∷ 147 ∷ codes "128 characters are required"))
handle_error unauthorized = record {
  reply = fault 401 (codes "unauthorized") (codes "Invalid credentials or token");
  set_cookie = none;
  header = some (codes "WWW-Authenticate", codes "Bearer");
}
handle_error conflict =
    plainly (fault 409 (codes "email_exists") (codes "Email already registered"))
handle_error busy = record {
  reply =
      fault 429 (codes "auth_busy")
        (codes "Too many sign-in attempts. Please wait a moment and try again");
  set_cookie = none;
  header = some (codes "Retry-After", codes "1");
}
handle_error record_not_found = internal
handle_error duplicated_key = internal
handle_error database = internal
handle_error cancelled = internal
handle_error random_failure = internal
handle_error bad_period = internal

abbrev pub with_cookie : {A : Type 0} → Cookie → Answer A → Answer A
with_cookie c a = record a { set_cookie = some c }

module _ (secure : Bool) where
  abbrev pub cookie : Bytes → Age → ℕ → Cookie
  cookie value max_age expires = record {
    name = cookie_name;
    value = value;
    path = cookie_path;
    http_only = true;
    secure = secure;
    same_site = codes "Lax";
    max_age = max_age;
    expires = expires;
  }

  -- The cookie of clearCookie.
  abbrev pub cleared : Cookie
  cleared = cookie [] deleted second

  -- `at` is the time of the answer; a session that has run out is left one second.
  abbrev pub token_cookie : Grant → ℕ → Cookie
  token_cookie g at = cookie g.refresh (seconds (max 1 ((g.expires_at - at) / second))) g.expires_at

  abbrev pub respond_tokens : Grant → ℕ → Bool → ℕ → Answer AuthResponse
  respond_tokens g status include_user at = with_cookie (token_cookie g at) (
      plainly (
        json status (record {
          token = record {
            access_token = g.access;
            token_type = codes "Bearer";
            expires_in = access_ttl / second;
          };
          user = if include_user then some (user_dto g.user) else none;
        })))

  abbrev pub answer_tokens : ℕ → ℕ → Result Grant → Answer AuthResponse
  answer_tokens status at (err e) = handle_error e
  answer_tokens status at (ok g) = respond_tokens g status true at

  abbrev pub answer_refresh : ℕ → Result Grant → Answer AuthResponse
  answer_refresh at (err unauthorized) = with_cookie cleared (handle_error unauthorized)
  answer_refresh at (err e) = handle_error e
  answer_refresh at (ok g) = respond_tokens g 200 false at

  abbrev pub answer_logout : Result (Unit {0}) → Answer (Unit {0})
  answer_logout (err e) = handle_error e
  answer_logout (ok _) = with_cookie cleared (plainly (bare 204))

-- The value of the request's cookie, empty where it has none.
abbrev pub refresh_cookie : Option Bytes → Bytes
refresh_cookie none = []
refresh_cookie (some value) = value

-- A handler that holds the gate.
abbrev pub Gated : Type 0
Gated = PasswordGate → Fates → World → (Answer AuthResponse × World) × PasswordGate

abbrev pub answered :
    (Result Grant → Answer AuthResponse)
    → (Result Grant × World) × PasswordGate
    → (Answer AuthResponse × World) × PasswordGate
answered f ((r, w), g) = ((f r, w), g)

module _ (p : Primitives) (secure : Bool) (at : ℕ) where
  abbrev register_decoded : Result (Bytes × Bytes) → Bool → Draws → Gated
  register_decoded (err e) done d g fs w = ((handle_error e, w), g)
  register_decoded (ok (email, password)) done d g fs w =
      answered (answer_tokens secure 201 at) (register p email password done d g fs w)

  unfoldable pub handle_register : CredentialsUpload → Bool → Draws → Gated
  unfolding decode_credentials
  handle_register r = register_decoded (decode_credentials r)

  abbrev login_decoded : Result (Bytes × Bytes) → Bool → Draws → Gated
  login_decoded (err e) done d g fs w = ((handle_error e, w), g)
  login_decoded (ok (email, password)) done d g fs w =
      answered (answer_tokens secure 200 at) (login p email password done d g fs w)

  unfoldable pub handle_login : CredentialsUpload → Bool → Draws → Gated
  unfolding decode_credentials
  handle_login r = login_decoded (decode_credentials r)

  unfoldable pub handle_refresh :
      (Db → Db) → Option Bytes → Draws → Fates → World → Answer AuthResponse × World
  handle_refresh others sent d fs w =
      let (r, w') = refresh p others (refresh_cookie sent) d fs w in
      (answer_refresh secure at r, w')

  unfoldable pub handle_logout :
      (Db → Db) → Option Bytes → Draws → Fates → World → Answer (Unit {0}) × World
  handle_logout others sent d fs w =
      let (r, w') = logout p others (refresh_cookie sent) d fs w in (answer_logout secure r, w')

-- The handler that the middleware guards gets the identity; `S` is the state that it works on.
abbrev pub Next : Type 0 → Type 0 → Type 0
Next A S = Option ℕ → Fates → S → Answer A × S

-- `at` is the time at which the token is verified.
module _ {A S : Type 0} (p : Primitives) (next : Next A S) (at : ℕ) where
  abbrev pass_on : Result ℕ → Fates → S → Answer A × S
  pass_on (err e) fs w = (handle_error e, w)
  pass_on (ok id) fs w = next (some id) fs w

  abbrev pass_token : Option Bytes → Fates → S → Answer A × S
  pass_token none fs w = (handle_error unauthorized, w)
  pass_token (some token) fs w = pass_on (verify p at token) fs w

  unfoldable pub authenticate : Bytes → Fates → S → Answer A × S
  unfolding bearer_token
  authenticate header = pass_token (bearer_token header)

abbrev answer_me : Result User → Answer UserResponse
answer_me (err e) = handle_error e
answer_me (ok u) = plainly (json 200 (user_dto u))

unfoldable pub handle_me : Next UserResponse World
handle_me none fs w = (handle_error unauthorized, w)
handle_me (some id) fs w = let (r, w') = me id fs w in (answer_me r, w')
