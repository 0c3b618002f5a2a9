-- ===== src/Http/Protect/Tests.antt =====
-- Requests of Http/Protect, and theorems of Http/Protect/Gates at work.
use uptime.Prelude.{◌≡◌, refl, [], Bytes, codes, bytes_eq, split}
use uptime.Http.Protect.{Request, refused, answered, protect, dispatch, preflight}

abbrev same : Bytes → Bytes
same b = b

abbrev site : Bytes
site = codes "http://a"

-- A browser's request to create, its preflight, and a request from a command line.
abbrev creation : Request
creation = record {
  method = codes "POST";
  origin = site;
  request_method = [];
  request_headers = [];
  csrf_protection = [];
}

abbrev asked : Request
asked = record {
  method = codes "OPTIONS";
  origin = site;
  request_method = codes "POST";
  request_headers = codes "content-type,authorization";
  csrf_protection = [];
}

abbrev terminal : Request
terminal = record creation { origin = [] }

test_terminal :
    (protect same same site terminal).1
    ≡ refused 403 (codes "forbidden") (codes "CSRF protection header is required")
unfolding protect dispatch preflight bytes_eq
test_terminal = refl

test_asked : (protect same same site asked).1 ≡ answered 204
unfolding protect dispatch preflight bytes_eq split
test_asked = refl
