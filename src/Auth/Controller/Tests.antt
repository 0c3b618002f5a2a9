-- ===== src/Auth/Controller/Tests.antt =====
-- Cookies and tokens on the sample database.
use uptime.Prelude.{
  ℕ, ◌+◌, ◌*◌, ◌/◌, ltb, ◌≡◌, ◌≢◌, refl, true, false, ◌&&◌, none, some, List, [], ◌∷◌, Bytes, codes,
  arith, bytes_eq, All, Bool-cases, inl, inr, ◌==◌, if◌then◌else◌, find, split, update,
}
use uptime.Store.Rows.{second, User, RefreshToken}
use uptime.Store.Exec.{unauthorized, ok, start, all_fine, World, transaction}
use uptime.Store.Accounts.{
  find_token, find_email, token_row, lock_session, revoke, create_session, create_token,
  insert_session, insert_token, user_by_email,
}
use uptime.Auth.Gate.{new_password_gate, acquire, refill, admit}
use uptime.Auth.Crypto.{
  Primitives, Claims, access_ttl, issue_access, refresh_hash, valid_refresh, credentials,
  check_password,
}
use uptime.Auth.Service.{Grant, grant_of, login, logout, issue, new_session}
use uptime.Auth.Service.Opened.{Signed, login-Opened}
use uptime.Auth.Controller.{
  AuthResponse, authenticate, handle_me, handle_refresh, handle_logout, handle_error,
}
use uptime.Auth.Controller.Tokens.{Parses, Visible, SignsAndParses, issued_token_passes}
use uptime.Auth.Controller.Stays.{Round, Fresh, Holds, SignedIn, client, client-SignedIn}
use uptime.Auth.Controller.Cookies.{Outcome, handle_refresh-Outcome}
use uptime.Auth.Controller.SignedOut.{logout_ends}
use uptime.Http.Reply.{json, bare}
use uptime.Samples.{sample, plain, raw_token, draws, unused_token, open_session}

abbrev claims : Claims
claims = record { subject = []; issued_at = some 0; expires_at = some access_ttl }

-- Primitives with one token, of user 1 at the time 200, which is valid until `access_ttl`.
abbrev one_token : Primitives
one_token = record plain {
  sign = λ user now expires.
      if (user == 1) && (now == 200) && (expires == 200 + access_ttl)
      then some (codes "tok")
      else none;
  parse_jwt = λ at t. if bytes_eq t (codes "tok") && ltb at access_ttl then some claims else none;
  parse_uuid = λ b. some 1;
}

tok_law :
    (i n e : ℕ) (t : Bytes)
    → i ≡ 1
    → n ≡ 200
    → e ≡ 200 + access_ttl
    → codes "tok" ≡ t
    → Parses one_token i n e t × Visible t
unfolding bytes_eq
tok_law i n e t ei en ee et =
    rw ei (rw en (rw ee (rw (← et) ((claims, refl, refl, refl, λ at later. refl), ground arith))))

one_token_law : SignsAndParses one_token
one_token_law i n e t nz wide le fits =
    elim (Bool-cases ((i == 1) && (n == 200) && (e == 200 + access_ttl))) [
      | inl h ↦
          rw h (λ q. tok_law i n e t (ground arith) (ground arith) (ground arith) (ground arith))
      | inr h ↦ rw h (λ q. cc)
    ]

issued_token_passes_example :
    authenticate one_token handle_me 250 (codes "Bearer tok") all_fine (start sample) ≡ (
      if ltb 250 ((200 + 900 * second) / second * second)
      then handle_me (some 1) all_fine (start sample)
      else (handle_error unauthorized, start sample))
unfolding issue_access
issued_token_passes_example =
    issued_token_passes one_token handle_me 1 200 250 b't' (codes "ok") one_token_law (ground arith)
      (omega arith) (omega arith) refl (omega arith) all_fine (start sample)

held : Holds plain open_session (raw_token 1) sample
unfolding valid_refresh find refresh_hash bytes_eq
held = record {
  valid = refl;
  token = unused_token;
  found = refl;
  unused = refl;
  own = refl;
  session_found = refl;
  alive = refl;
}

abbrev two_rounds : List (Round plain)
two_rounds =
    record { draws = draws 3 200; at = 200 } ∷ record { draws = draws 4 300; at = 300 } ∷ []

two_rounds-Fresh : Fresh plain 9_000 (2 ∷ 1 ∷ []) two_rounds
unfolding find refresh_hash
two_rounds-Fresh =
    (raw_token 3, refl, refl, ground arith, refl, (raw_token 4, refl, refl, ground arith, refl, tt))

plain_signs : (user now : ℕ) → (access : Bytes) × (issue_access plain user now ≡ some access)
unfolding issue_access
plain_signs user now = ([], refl)

client-SignedIn_example :
    All (SignedIn plain true) (client plain true two_rounds (some (raw_token 1)) (start sample))
client-SignedIn_example =
    client-SignedIn plain true open_session (λ b size. refl) plain_signs two_rounds (raw_token 1)
      (start sample) held two_rounds-Fresh

handle_refresh-Outcome_example :
    Outcome plain true 200
      (handle_refresh plain true 250
        (λ x. x)
        (some (raw_token 1))
        (draws 3 200)
        all_fine
        (start sample)).0
      (handle_refresh plain true 250
        (λ x. x)
        (some (raw_token 1))
        (draws 3 200)
        all_fine
        (start sample)).1.db
handle_refresh-Outcome_example =
    handle_refresh-Outcome plain true 250 (λ x. x) (some (raw_token 1)) (draws 3 200) all_fine
      (start sample)

same_owner :
    (t u : RefreshToken)
    → find_token (refresh_hash plain (raw_token 1)) sample ≡ some t
    → find_token (refresh_hash plain (raw_token 1)) sample ≡ some u
    → t.session_id ≡ u.session_id
same_owner t u p q = cc (p, q)

logged_out :
    (handle_logout plain true 200
      (λ x. x)
      (some (raw_token 1))
      (draws 3 200)
      all_fine
      (start sample)).0.reply
    ≡ bare 204
unfolding handle_logout logout valid_refresh refresh_hash transaction token_row lock_session revoke
    find bytes_eq update
logged_out = refl

abbrev second_body : AuthResponse
second_body = record {
  token = record { access_token = []; token_type = codes "Bearer"; expires_in = 900 };
  user = none;
}

logout_ends_example :
    (handle_refresh plain true 200
      (λ x. x)
      (some (raw_token 1))
      (draws 4 300)
      all_fine
      (handle_logout plain true 200
        (λ x. x)
        (some (raw_token 1))
        (draws 3 200)
        all_fine
        (start sample)).1).0.reply
    ≢ json 200 second_body
logout_ends_example =
    logout_ends plain true 200 (λ x. x) (some (raw_token 1)) (draws 3 200) (draws 4 300) all_fine
      all_fine (start sample) same_owner logged_out second_body

-- A user whose password is 32 letters b, under a salt of 16 letters a.
abbrev bob : User
bob = record {
  id = 1;
  avatar_file = [];
  name = [];
  email = codes "b@c.d";
  password_hash =
      codes "$argon2id$v=19$m=65536,t=3,p=1$aaaaaaaaaaaaaaaa$bbbbbbbbbbbbbbbbbbbbbbbbbbbbbbbb";
  created_at = 0;
}

abbrev with_bob : World
with_bob = start (record sample { users = bob ∷ [] })

abbrev bob_granted : Grant
bob_granted = grant_of plain bob [] (raw_token 3) 2_592_000_000_000_200

bob_signs_in :
    (login plain
      (codes "b@c.d")
      (raw_token b'b')
      false
      (draws 3 200)
      (new_password_gate 0)
      all_fine
      with_bob).0.0
    ≡ ok bob_granted
unfolding login credentials acquire check_password find_email find bytes_eq split user_by_email
    transaction create_session insert_session create_token insert_token new_session issue
    issue_access refresh_hash new_password_gate refill admit
bob_signs_in = refl

login-Opened_example :
    (email : Bytes) × (credentials plain (codes "b@c.d") (raw_token b'b') ≡ ok email)
    × Signed plain
        (raw_token b'b')
        (draws 3 200)
        all_fine
        with_bob
        bob_granted
        email
        (login plain
          (codes "b@c.d")
          (raw_token b'b')
          false
          (draws 3 200)
          (new_password_gate 0)
          all_fine
          with_bob).0.1.db
login-Opened_example =
    login-Opened plain (raw_token b'b') (draws 3 200) all_fine with_bob bob_granted (codes "b@c.d")
      false (new_password_gate 0) bob_signs_in
