-- ===== src/Monitor/Controller/Handlers/Reads.antt =====
-- The handler list of backend/internal/monitor/controller.go changes nothing in the database.
use uptime.Prelude.{ℕ, Bool, Option, none, some, List, Bytes, codes}
use uptime.Store.Rows.{Db, Monitor}
use uptime.Store.Exec.{ok}
use uptime.Store.Exec.Keeps.{Keeps, read-Keeps}
use uptime.Store.Monitors.{MonitorCursor, page, monitors_by_user}
use uptime.Http.Reply.Keeps.{HandlerKeeps, handle-Keeps, signed_in-Keeps}
use uptime.Monitor.Controller.Cursor.{Codec, Parsed, parse_cursor}
use uptime.Monitor.Controller.Statistics.{statistics_error, with_favicons}
use uptime.Monitor.Controller.Statistics.Reads.{add_statuses-Keeps}
use uptime.Monitor.Controller.Handlers.{
  Surroundings, unauthorized, internal, cut_page, list_page, list_after, list,
}

module _ (I : Db → Type 0) (c : Codec) (trim_space : Bytes → Bytes) (valid_url : Bytes → Bool)
    (env : Surroundings) where
  list_page-Keeps :
      (user : ℕ) (ms : List Monitor) → HandlerKeeps I (list_page c trim_space valid_url env user ms)
  unfolding list_page
  list_page-Keeps user ms =
      handle-Keeps I statistics_error (λ rs. Unit) _ _
        (add_statuses-Keeps I env.now user
          (with_favicons env.icon (cut_page c trim_space valid_url env ms).0))
        (λ rs p fs w s. s)

  found_page :
      (user : ℕ) (cursor : Option MonitorCursor)
      → Keeps I (λ ms. Unit) (monitors_by_user user cursor)
  unfolding monitors_by_user
  found_page user cursor = read-Keeps I (λ db. ok (page user cursor db.monitors))

  pub list-Keeps :
      (identity : Option ℕ) (raw : Bytes)
      → HandlerKeeps I (list c trim_space valid_url env identity raw)
  unfolding list list_after
  list-Keeps identity raw =
      signed_in-Keeps I unauthorized
        (λ user. list_after c trim_space valid_url env user (parse_cursor c raw)) identity
        (λ user q. after user (parse_cursor c raw))
    where
      after :
          (user : ℕ) (p : Parsed) → HandlerKeeps I (list_after c trim_space valid_url env user p)
      after user none fs w s = s
      after user (some cursor) fs w s =
          handle-Keeps I (λ e. internal (codes "Unable to load monitors")) (λ ms. Unit)
            (list_page c trim_space valid_url env user) (monitors_by_user user cursor)
            (found_page user cursor) (λ ms p. list_page-Keeps user ms) fs w s
