-- ===== src/Monitor/Controller/Handlers/Tests.antt =====
-- The handlers of monitors on the sample database, and theorems of Monitor/Controller at work.
use uptime.Prelude.{
  ℕ, ◌≡◌, ◌≤◌, refl, ap, Bool, true, some, List, [], ◌∷◌, map, length, Bytes, codes, bytes_eq,
  arith, split, select, place, order_by, find, All,
}
use uptime.Samples.{sample, site, blog, alice}
use uptime.Store.Exec.{start, all_fine}
use uptime.Store.Monitors.Pages.{cursor_of}
use uptime.Store.Statuses.{one_of}
use uptime.Store.Statuses.Complete.Present.{listed}
use uptime.Http.Reply.{bare}
use uptime.Monitor.Controller.Cursor.{parse_cursor, next_cursor}
use uptime.Monitor.Controller.Cursor.RoundTrip.{parse_cursor-next_cursor}
use uptime.Monitor.Controller.Cursor.Sample.{plain_codec, plain_codec-CodecLaws}
use uptime.Monitor.Controller.Requests.{
  Upload, read_monitor, invalid_interval, checked_body, checked_url, checked_interval,
}
use uptime.Monitor.Controller.Statistics.{MonitorResponse}
use uptime.Monitor.Controller.Handlers.{Surroundings, create, create_valid, delete, delete_one}
use uptime.Store.Monitors.{delete_monitor}
use uptime.Monitor.Controller.Handlers.Calls.{Call, creates, updates, deletes, perform_all}
use uptime.Monitor.Controller.Handlers.Valid.{IsValid, perform_all-IsValid}
use uptime.Monitor.Controller.Handlers.Listing.{Ready, follow, follow-listed}

abbrev quiet : Surroundings
quiet = record { icon = λ url. []; now = 5; new_id = 12 }

abbrev same : Bytes → Bytes
same b = b

abbrev any_url : Bytes → Bool
any_url b = true

parse_cursor-next_cursor_example :
    parse_cursor plain_codec (next_cursor plain_codec blog) ≡ some (some (cursor_of blog))
parse_cursor-next_cursor_example =
    parse_cursor-next_cursor plain_codec plain_codec-CodecLaws blog (omega arith, omega arith)

listed_sample : listed alice.id sample.monitors ≡ blog ∷ site ∷ []
unfolding order_by select place
listed_sample = refl

sample-Ready : Ready alice.id sample
unfolding one_of find order_by select place
sample-Ready =
    (refl, (refl, (refl, tt)), ((omega arith, omega arith), ((omega arith, omega arith), tt)))

follow-listed_example :
    (rs : List MonitorResponse) × (follow plain_codec same any_url quiet alice.id 1 []
        (start sample)
      ≡ some rs)
    × (map MonitorResponse.monitor rs ≡ listed alice.id sample.monitors)
follow-listed_example =
    follow-listed plain_codec plain_codec-CodecLaws same any_url quiet alice.id 1 (start sample)
      sample-Ready (omega arith) few
  where
    few : length (listed alice.id sample.monitors) ≤ 50
    few = omega (arith, ap length listed_sample)

-- A monitor of ten seconds; an interval below five is refused.
abbrev upload : ℕ → Upload
upload n = record {
  content_type = codes "application/json; charset=utf-8";
  body = some (record { url = codes "http://c"; interval_seconds = some n });
}

test_interval :
    (create plain_codec same any_url quiet (some 1) (upload 4) all_fine (start sample)).0
    ≡ invalid_interval
unfolding create create_valid read_monitor checked_body checked_url checked_interval split bytes_eq
test_interval = refl

test_delete :
    (delete plain_codec same any_url quiet
      (some 1)
      (plain_codec.format_uuid 10)
      all_fine
      (start sample)).0
    ≡ bare 204
unfolding delete delete_one delete_monitor find select
test_delete = refl

abbrev calls : List Call
calls =
    creates quiet (some 1) (upload 10)
    ∷ updates quiet (some 1) (plain_codec.format_uuid 12) (upload 7)
    ∷ deletes quiet (some 1) (plain_codec.format_uuid 10)
    ∷ []

perform_all-IsValid_example :
    All
      (IsValid plain_codec same any_url)
      (perform_all plain_codec same any_url calls all_fine (start sample)).db.monitors
perform_all-IsValid_example =
    perform_all-IsValid plain_codec same any_url calls all_fine sample
      ((omega arith, omega arith, refl), ((omega arith, omega arith, refl), tt))
