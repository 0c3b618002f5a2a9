-- ===== src/Config/Tests.antt =====
-- Environments that Load accepts and refuses.
use uptime.Prelude.{◌≡◌, refl, some, [], Bytes, codes, bytes_eq, true, false, if◌then◌else◌}
use uptime.Config.{
  Url, loaded, weak_secret, bad_cookie_secure, parse_bool, good_origin, has_prefix, env, checked,
  load,
}

abbrev site : Url
site = record {
  scheme = codes "http";
  host = codes "localhost:3000";
  path = [];
  raw_query = [];
  fragment = [];
  has_user = false;
}

abbrev secret : Bytes
secret = codes "ssssssssssssssssssssssssssssssss"

abbrev plain : Bytes → Bytes → Bytes → Bytes
plain secure jwt key =
    if bytes_eq key (codes "COOKIE_SECURE")
    then secure
    else if bytes_eq key (codes "JWT_SECRET")
    then jwt
    else if bytes_eq key (codes "DATABASE_URL")
    then codes "db"
    else []

accepted :
    load (plain [] secret) (λ s. some site)
    ≡ loaded (record {
      database_url = codes "db";
      http_addr = codes "127.0.0.1:8080";
      jwt_secret = secret;
      issuer = codes "uptime-api";
      audience = codes "uptime-web";
      origin = codes "http://localhost:3000";
      avatar_dir = codes "var/avatars";
      cookie_secure = true;
    })
unfolding load parse_bool env checked good_origin has_prefix bytes_eq
accepted = refl

placeholder :
    load (plain [] (codes "replace-with-at-least-32-random-bytes")) (λ s. some site) ≡ weak_secret
unfolding load parse_bool env checked good_origin has_prefix bytes_eq
placeholder = refl

bad : load (plain (codes "bad") secret) (λ s. some site) ≡ bad_cookie_secure
unfolding load parse_bool env bytes_eq
bad = refl
