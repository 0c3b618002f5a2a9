-- ===== src/Auth/Crypto.antt =====
-- backend/internal/auth/crypto.go. The primitives of other packages are a parameter: base64,
-- SHA-256, Argon2id, the mail parser, Unicode, and the JWT library.
use uptime.Prelude.{
  ℕ, ◌+◌, ◌*◌, Bool, false, ◌&&◌, ◌||◌, Option, none, some, List, [], ◌∷◌, ◌++◌, Bytes, codes,
  bytes_eq, length, ltb, leb, ◌==◌, if◌then◌else◌, split,
}
use uptime.Store.Rows.{minute, hour}
use uptime.Store.Exec.{Result, ok, err, invalid, unauthorized}

-- The claims of a parsed and verified JWT, times in nanoseconds.
pub record Claims : Type 0 where
  pub subject : Bytes
  pub issued_at : Option ℕ
  pub expires_at : Option ℕ

pub record Primitives : Type 0 where
  -- base64.RawURLEncoding and base64.RawStdEncoding
  pub encode_url : Bytes → Bytes
  pub decode_url : Bytes → Option Bytes
  pub encode_std : Bytes → Bytes
  pub decode_std : Bytes → Option Bytes
  -- hex of sha256.Sum256, as a number
  pub sha256 : Bytes → ℕ
  -- argon2.IDKey at the fixed cost: the password and the salt
  pub argon : Bytes → Bytes → Bytes
  -- mail.ParseAddress: the address
  pub parse_address : Bytes → Option Bytes
  pub trim_space : Bytes → Bytes
  pub to_lower : Bytes → Bytes
  pub valid_utf8 : Bytes → Bool
  pub rune_count : Bytes → ℕ
  -- a signed access token for a user, issued and expiring at these times
  pub sign : ℕ → ℕ → ℕ → Option Bytes
  -- signature, method, issuer and audience are in order, and the times at the time given first
  pub parse_jwt : ℕ → Bytes → Option Claims
  pub parse_uuid : Bytes → Option ℕ

abbrev pub access_ttl : ℕ
access_ttl = 15 * minute

abbrev pub session_ttl : ℕ
session_ttl = 30 * (24 * hour)

abbrev has_at : Bytes → Bool
has_at [] = false
has_at (c ∷ cs) = (c == b'@') || has_at cs

abbrev same_address : Option Bytes → Bytes → Bool
same_address none email = false
same_address (some a) email = bytes_eq a email

abbrev pub cost : Bytes
cost = codes "m=65536,t=3,p=1"

abbrev sized : ℕ → Option Bytes → Option Bytes
sized n none = none
sized n (some b) = if length b == n then some b else none

module _ (p : Primitives) where
  open p use {
    encode_url, decode_url, encode_std, decode_std, sha256, argon, parse_address, trim_space,
    to_lower, valid_utf8, rune_count, sign, parse_jwt, parse_uuid,
  }

  unfoldable pub credentials : Bytes → Bytes → Result Bytes
  credentials raw password =
      let email = to_lower (trim_space raw) in
      if same_address (parse_address email) email
        && leb (length email) 254
        && has_at email
        && valid_utf8 password
        && leb 12 (rune_count password)
        && leb (rune_count password) 128
      then ok email
      else err invalid

  -- The encoding of a password under a salt of 16 random bytes.
  unfoldable pub hash_password : Bytes → Bytes → Bytes
  hash_password password salt =
      codes "$argon2id$v=19$"
      ++ cost
      ++ codes "$"
      ++ encode_std salt
      ++ codes "$"
      ++ encode_std (argon password salt)

  keys_match : Option Bytes → Option Bytes → Bytes → Bool
  keys_match none key password = false
  keys_match (some salt) none password = false
  keys_match (some salt) (some key) password = bytes_eq (argon password salt) key

  check_parts : List Bytes → Bytes → Bool
  unfolding keys_match
  check_parts (p0 ∷ p1 ∷ p2 ∷ p3 ∷ p4 ∷ p5 ∷ []) password =
      if bytes_eq p1 (codes "argon2id") && bytes_eq p2 (codes "v=19") && bytes_eq p3 cost
      then keys_match (sized 16 (decode_std p4)) (sized 32 (decode_std p5)) password
      else false
  check_parts parts password = false

  unfoldable pub check_password : Bytes → Bytes → Bool
  unfolding check_parts
  check_password encoded password = check_parts (split b'$' encoded) password

  unfoldable pub refresh_hash : Bytes → ℕ
  refresh_hash raw = sha256 raw

  canonical : Option Bytes → Bytes → Bool
  canonical none raw = false
  canonical (some b) raw = (length b == 32) && bytes_eq (encode_url b) raw

  unfoldable pub valid_refresh : Bytes → Bool
  unfolding canonical
  valid_refresh raw = canonical (decode_url raw) raw

  unfoldable pub issue_access : ℕ → ℕ → Option Bytes
  issue_access id now = sign id now (now + access_ttl)

  subject_of : Option ℕ → Result ℕ
  subject_of none = err unauthorized
  subject_of (some id) = if id == 0 then err unauthorized else ok id

  in_order : Option ℕ → Option ℕ → Bool
  in_order none e = false
  in_order (some i) none = false
  in_order (some i) (some e) = ltb i e

  verify_claims : Option Claims → Result ℕ
  unfolding subject_of in_order
  verify_claims none = err unauthorized
  verify_claims (some c) =
      if in_order c.issued_at c.expires_at
      then subject_of (parse_uuid c.subject)
      else err unauthorized

  -- The time at which the library reads its clock, and the token. uuid.Nil is 0.
  unfoldable pub verify : ℕ → Bytes → Result ℕ
  unfolding verify_claims
  verify at raw = verify_claims (parse_jwt at raw)
