-- ===== src/Monitor/Controller/Handlers.antt =====
-- The handlers create, list, update and delete of backend/internal/monitor/controller.go.
pub mod Pages
pub mod Listing
pub mod Calls
pub mod Reads
pub mod Theirs
pub mod Valid
mod Tests
use uptime.Prelude.{
  ℕ, Bool, true, false, Option, none, some, List, [], ◌∷◌, length, take, Bytes, codes, ltb, find,
  if◌then◌else◌, ◌⊎◌, inl, inr,
}
use uptime.Store.Rows.{Monitor, Db}
use uptime.Store.Exec.{Error, record_not_found, Exec, Fates, World}
use uptime.Store.Checks.{find_monitor}
use uptime.Store.Monitors.{
  MonitorCursor, page_size, monitors_by_user, create_monitor, update_monitor, delete_monitor,
}
use uptime.Http.Reply.{Reply, fault, json, bare, Handler, reply, handle, signed_in}
use uptime.Monitor.Controller.Cursor.{Codec, Parsed, parse_cursor, next_cursor}
use uptime.Monitor.Controller.Requests.{Upload, read_monitor}
use uptime.Monitor.Controller.Statistics.{
  MonitorResponse, with_favicons, add_statuses, statistics_error, write_created, write_updated,
}

pub record ListResponse : Type 0 where
  pub monitors : List MonitorResponse
  pub next_cursor : Bytes

abbrev pub unauthorized : {A : Type 0} → Reply A
unauthorized = fault 401 (codes "unauthorized") (codes "Please sign in to continue")

abbrev pub internal : {A : Type 0} → Bytes → Reply A
internal message = fault 500 (codes "internal_error") message

abbrev pub missing_or : {A : Type 0} → Bytes → Error → Reply A
missing_or message record_not_found =
    fault 404 (codes "monitor_not_found") (codes "Website not found")
missing_or message _ = internal message

-- The fields of the row that the update returns.
abbrev returned : Monitor → Option Monitor → Monitor
returned m none = m
returned m (some row) = row

-- What a handler has besides the request: the icons of URLs, the time of the database, a new UUID.
pub record Surroundings : Type 0 where
  pub icon : Bytes → Bytes
  pub now : ℕ
  pub new_id : ℕ

module _ (c : Codec) (trim_space : Bytes → Bytes) (valid_url : Bytes → Bool)
    (env : Surroundings) where
  create_valid : ℕ → Reply MonitorResponse ⊎ (Bytes × ℕ) → Handler MonitorResponse
  create_valid user (inl refused) = reply refused
  create_valid user (inr (url, interval)) =
      let m : Monitor = record {
        id = env.new_id;
        user_id = user;
        url = url;
        interval_seconds = interval;
        created_at = env.now;
      } in
      handle (λ e. internal (codes "Unable to create the monitor"))
        (λ done. write_created env.icon m) (create_monitor env.now m)

  unfoldable pub create : Option ℕ → Upload → Handler MonitorResponse
  unfolding create_valid
  create identity r =
      signed_in unauthorized (λ user. create_valid user (read_monitor trim_space valid_url r))
        identity

  last_of : Monitor → List Monitor → Monitor
  last_of m [] = m
  last_of m (n ∷ ns) = last_of n ns

  last_cursor : List Monitor → Bytes
  unfolding last_of
  last_cursor [] = []
  last_cursor (m ∷ ms) = next_cursor c (last_of m ms)

  -- The page that is shown, and the cursor after it where the query found more.
  unfoldable pub cut_page : List Monitor → List Monitor × Bytes
  unfolding last_cursor
  cut_page ms =
      if ltb page_size (length ms)
      then (take page_size ms, last_cursor (take page_size ms))
      else (ms, [])

  list_page : ℕ → List Monitor → Handler ListResponse
  unfolding cut_page
  list_page user ms =
      let (shown, cursor) = cut_page ms in
      handle statistics_error
        (λ rs. reply (json 200 (record { monitors = rs; next_cursor = cursor })))
        (add_statuses env.now user (with_favicons env.icon shown))

  list_after : ℕ → Parsed → Handler ListResponse
  unfolding list_page
  list_after user none = reply (fault 400 (codes "invalid_cursor") (codes "Invalid page cursor"))
  list_after user (some after) =
      handle (λ e. internal (codes "Unable to load monitors")) (list_page user)
        (monitors_by_user user after)

  unfoldable pub list : Option ℕ → Bytes → Handler ListResponse
  unfolding list_after
  list identity raw = signed_in unauthorized (λ user. list_after user (parse_cursor c raw)) identity

  update_valid : ℕ → ℕ → Reply MonitorResponse ⊎ (Bytes × ℕ) → Handler MonitorResponse
  update_valid user id (inl refused) = reply refused
  update_valid user id (inr (url, interval)) =
      let m : Monitor = record {
        id = id;
        user_id = user;
        url = url;
        interval_seconds = interval;
        created_at = 0;
      } in
      handle (missing_or (codes "Unable to update the monitor"))
        (λ done fs w. write_updated env.icon env.now user (returned m (find_monitor id w.db)) fs w)
        (update_monitor env.now m)

  update_one : Upload → ℕ → Option ℕ → Handler MonitorResponse
  unfolding update_valid
  update_one r user none = reply (fault 400 (codes "invalid_id") (codes "Invalid monitor ID"))
  update_one r user (some id) = update_valid user id (read_monitor trim_space valid_url r)

  unfoldable pub update : Option ℕ → Bytes → Upload → Handler MonitorResponse
  unfolding update_one
  update identity id r =
      signed_in unauthorized (λ user. update_one r user (c.parse_uuid id)) identity

  delete_one : ℕ → Option ℕ → Handler (Unit {0})
  delete_one user none = reply (fault 400 (codes "invalid_id") (codes "Invalid monitor ID"))
  delete_one user (some id) =
      handle (missing_or (codes "Unable to delete the monitor")) (λ done. reply (bare 204))
        (delete_monitor user id)

  unfoldable pub delete : Option ℕ → Bytes → Handler (Unit {0})
  unfolding delete_one
  delete identity id = signed_in unauthorized (λ user. delete_one user (c.parse_uuid id)) identity
