-- ===== src/Samples.antt =====
-- A small database that the tests of several components share: one user with two monitors, one of
-- them leased, and one session with a used and an unused refresh token.
use uptime.Prelude.{ℕ, true, none, some, [], ◌∷◌, length, Bytes, codes}
use uptime.Store.Rows.{
  Db, User, Session, RefreshToken, Monitor, MonitorState, CheckJob, CheckResult,
}
use uptime.Auth.Crypto.{Primitives}
use uptime.Auth.Service.{Draws}

abbrev pub alice : User
alice = record {
  id = 1;
  avatar_file = [];
  name = codes "Alice";
  email = codes "a@b.c";
  password_hash = [];
  created_at = 0;
}

abbrev pub site : Monitor
site = record {
  id = 10;
  user_id = 1;
  url = codes "http://a";
  interval_seconds = 60;
  created_at = 7;
}

abbrev pub blog : Monitor
blog = record {
  id = 11;
  user_id = 1;
  url = codes "http://b";
  interval_seconds = 30;
  created_at = 9;
}

abbrev pub leased : MonitorState
leased = record {
  monitor_id = 10;
  version = 2;
  next_check_at = 1_000;
  job_id = some 77;
  lease_until = some 31_000_000_000;
  last_started_at = none;
  last_finished_at = none;
  last_success = none;
  http_status = none;
  error_kind = [];
}

abbrev pub idle : MonitorState
idle = record {
  monitor_id = 11;
  version = 1;
  next_check_at = 500;
  job_id = none;
  lease_until = none;
  last_started_at = none;
  last_finished_at = none;
  last_success = none;
  http_status = none;
  error_kind = [];
}

abbrev pub open_session : Session
open_session = record { id = 5; user_id = 1; expires_at = 9_000; revoked_at = none }

-- Of `raw_token 2` and `raw_token 1`, by the sample primitives below.
abbrev pub used_token : RefreshToken
used_token = record { hash = 2; session_id = 5; created_at = 0; used_at = some 100 }

abbrev pub unused_token : RefreshToken
unused_token = record { hash = 1; session_id = 5; created_at = 100; used_at = none }

abbrev pub sample : Db
sample = record {
  users = alice ∷ [];
  sessions = open_session ∷ [];
  tokens = used_token ∷ unused_token ∷ [];
  monitors = site ∷ blog ∷ [];
  states = leased ∷ idle ∷ [];
  minutes = record { monitor_id = 10; minute_start = 0; successes = 3; failures = 1 } ∷ [];
}

abbrev pub job : CheckJob
job = record {
  monitor_id = 10;
  url = codes "http://a";
  interval_seconds = 60;
  version = 2;
  job_id = 77;
  scheduled_at = 1_000;
}

abbrev pub success : CheckResult
success = record {
  started_at = 2_000;
  finished_at = 3_000;
  http_status = some 200;
  error_kind = [];
  success = true;
}

-- A refresh token of 32 equal bytes.
abbrev pub raw_token : ℕ → Bytes
raw_token b =
    b ∷ b ∷ b ∷ b ∷ b ∷ b ∷ b ∷ b ∷ b ∷ b ∷ b ∷ b ∷ b ∷ b ∷ b ∷ b ∷ b ∷ b ∷ b ∷ b ∷ b ∷ b ∷ b ∷ b
    ∷ b ∷ b ∷ b ∷ b ∷ b ∷ b ∷ b ∷ b ∷ []

abbrev first_byte : Bytes → ℕ
first_byte [] = 0
first_byte (b ∷ bs) = b

-- Primitives to run the model with: a text hashes to its first byte, and stands for itself.
abbrev pub plain : Primitives
plain = record {
  encode_url = λ b. b;
  decode_url = λ b. some b;
  encode_std = λ b. b;
  decode_std = λ b. some b;
  sha256 = first_byte;
  argon = λ password salt. password;
  parse_address = λ b. some b;
  trim_space = λ b. b;
  to_lower = λ b. b;
  valid_utf8 = λ b. true;
  rune_count = length;
  sign = λ user now expires. some [];
  parse_jwt = λ at b. none;
  parse_uuid = λ b. none;
}

-- A call that draws the bytes of `raw_token b` at the time `now`.
abbrev pub draws : ℕ → ℕ → Draws
draws b now = record {
  user_id = 2;
  session_id = 6;
  created_at = now;
  salt = some [];
  refresh = some (raw_token b);
  now = now;
}
