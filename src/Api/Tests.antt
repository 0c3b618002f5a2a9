-- ===== src/Api/Tests.antt =====
-- A server of plain functions on the sample database, and theorems of Api at work.
use uptime.Prelude.{
  ℕ, ◌≡◌, ◌≢◌, refl, true, false, Option, none, some, [], ◌∷◌, Bytes, codes, bytes_eq, length, inl,
  arith, if◌then◌else◌,
}
use uptime.Store.Exec.{start, all_fine}
use uptime.Store.Statuses.{one_of}
use uptime.Store.Monitors.Owners.{theirs}
use uptime.Auth.Gate.{new_password_gate}
use uptime.Auth.Crypto.{Primitives, access_ttl}
use uptime.Http.Protect.{Request}
use uptime.Monitor.Controller.Cursor.Sample.{plain_codec}
use uptime.Profile.Avatar.{png}
use uptime.Api.{Server, Shared, Visit, websites, delete_monitor, Arrival, api, api_all}
use uptime.Api.Isolation.{Acts, api_all_isolated}
use uptime.Api.CrossSite.{api-CrossSite}
use uptime.Samples.{sample, plain, draws}

-- The token `tok` is that of user 2.
abbrev second_user : Primitives
second_user = record plain {
  parse_jwt = λ at t.
      if bytes_eq t (codes "tok")
      then some (record { subject = []; issued_at = some 0; expires_at = some access_ttl })
      else none;
  parse_uuid = λ b. some 2;
}

abbrev server : Server
server = record {
  origin = codes "https://app";
  secure = true;
  primitives = second_user;
  codec = plain_codec;
  outside = record {
    valid_utf8 = λ s. true;
    odd_rune = λ s. false;
    is_ip = λ s. false;
    parse = λ s. some (record { has_user = false; hostname = codes "h"; raw_query = [] });
    unescapes = λ s. true;
  };
  text = record {
    trim_space = λ b. b;
    valid_utf8 = λ b. true;
    rune_count = length;
    has_control = λ b. false;
  };
  to_lower = λ b. b;
  images = record {
    decode_config = λ b. some (record { format = png; width = 2; height = 2 });
    decode = λ b. some b;
    encode = λ format b. some b;
  };
}

abbrev shared : Shared
shared = record { world = start sample; gate = new_password_gate 0; files = [] }

abbrev visit : Visit
visit = record {
  fates = all_fine;
  ended = false;
  draws = draws 1 5;
  others = λ db. db;
  verified_at = 5;
  at = 5;
  surroundings = record { icon = λ url. []; now = 5; new_id = 12 };
  disk = record {
    temp = codes ".upload-1";
    uuid = codes "00000000-0000-4000-8000-0123456789ab";
    mkdir_ok = true;
    create_ok = true;
    close_ok = true;
    rename_ok = true;
    remove_ok = λ name. true;
  };
}

abbrev same_site : Bytes → Request
same_site method = record {
  method = method;
  origin = codes "https://app";
  request_method = [];
  request_headers = [];
  csrf_protection = [];
}

abbrev foreign_site : Request
foreign_site = record (same_site (codes "DELETE")) { origin = codes "https://evil" }

-- User 2 asks for the deletion of the first monitor of user 1.
abbrev deletion : Arrival
deletion = record {
  request = same_site (codes "DELETE");
  authorization = codes "Bearer tok";
  endpoint = websites (delete_monitor (plain_codec.format_uuid 10));
  visit = visit;
}

-- The same request with another token has none.
abbrev stranger : Arrival
stranger = record deletion { authorization = codes "Bearer nok" }

not_first : (a : Arrival) → ¬ Acts server 1 a
not_first a (c, passes) = other (c.subject)
  where
    other : ◌≡◌ {A = Option ℕ} (some 2) (some 1) → ⊥
    other e = absurd (ground (arith, e))

api_all_isolated_example :
    theirs 1 (api_all server (deletion ∷ stranger ∷ []) shared).world.db.monitors
    ≡ theirs 1 sample.monitors
unfolding one_of
api_all_isolated_example =
    api_all_isolated server 1 (deletion ∷ stranger ∷ []) shared sample refl refl
      ((λ db d. (d, refl), not_first deletion), ((λ db d. (d, refl), not_first stranger), tt))

not_app : foreign_site.origin ≢ server.origin
not_app e = cc

some_origin : foreign_site.origin ≢ []
some_origin e = cc

api-CrossSite_example :
    ((api server visit foreign_site
        (codes "Bearer tok")
        (websites (delete_monitor (plain_codec.format_uuid 10)))
        shared).1.world.db
      ≡ sample)
    × ((api server visit foreign_site
          (codes "Bearer tok")
          (websites (delete_monitor (plain_codec.format_uuid 10)))
          shared).1.gate
        ≡ shared.gate)
    × ((api server visit foreign_site
          (codes "Bearer tok")
          (websites (delete_monitor (plain_codec.format_uuid 10)))
          shared).1.files
        ≡ [])
api-CrossSite_example =
    api-CrossSite server visit foreign_site (codes "Bearer tok")
      (websites (delete_monitor (plain_codec.format_uuid 10))) shared (inl (some_origin, not_app))
      (inl refl) refl
