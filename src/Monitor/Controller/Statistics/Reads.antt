-- ===== src/Monitor/Controller/Statistics/Reads.antt =====
-- The handlers of backend/internal/monitor/statistics.go change nothing in the database.
use uptime.Prelude.{
  ℕ, ◌||◌, Option, none, some, List, [], ◌∷◌, Bytes, length, split, ltb, bytes_eq, codes,
  if◌then◌else◌, Bool-cases, inl, inr,
}
use uptime.Store.Rows.{Db, Monitor}
use uptime.Store.Exec.{pure}
use uptime.Store.Exec.Keeps.{Safe, Keeps, pure-Keeps, read-Keeps, bind-Keeps}
use uptime.Store.Statuses.{MonitorStatus, monitor_statuses}
use uptime.Store.History.{history_window, check_history}
use uptime.Store.History.Reads.{check_history-Keeps}
use uptime.Http.Reply.{reply, json}
use uptime.Http.Reply.Keeps.{HandlerKeeps, handle-Keeps}
use uptime.Monitor.Controller.Statistics.{
  MonitorResponse, statistics_error, first_response, write_updated, add_statuses, attach,
  identities, with_favicons, or_nil, parse_ids, statuses_of, statuses, known, history_of, history,
}

-- Whatever holds of the database before holds after.
module _ (I : Db → Type 0) where
  pub monitor_statuses-Keeps :
      (now user : ℕ) (ids : List ℕ) → Keeps I (λ ss. Unit) (monitor_statuses now user ids)
  unfolding monitor_statuses
  monitor_statuses-Keeps now user [] = pure-Keeps I {A = List MonitorStatus} (λ ss. Unit) [] tt
  monitor_statuses-Keeps now user (id ∷ ids) = read-Keeps I _

  pub add_statuses-Keeps :
      (now user : ℕ) (rs : List MonitorResponse) → Keeps I (λ rs. Unit) (add_statuses now user rs)
  unfolding add_statuses
  add_statuses-Keeps now user rs =
      bind-Keeps I (λ ss. Unit) (λ rs. Unit) (monitor_statuses now user (identities rs))
        (λ ss. pure (attach ss rs)) (monitor_statuses-Keeps now user (identities rs))
        (λ ss p. pure-Keeps I (λ rs. Unit) (attach ss rs) tt)

  first-Keeps : (rs : List MonitorResponse) → HandlerKeeps I (first_response 200 rs)
  first-Keeps [] fs w s = s
  first-Keeps (r ∷ rs) fs w s = s

  pub write_updated-Keeps :
      (icon : Bytes → Bytes) (now user : ℕ) (m : Monitor)
      → HandlerKeeps I (write_updated icon now user m)
  unfolding write_updated
  write_updated-Keeps icon now user m =
      handle-Keeps I statistics_error (λ rs. Unit) (first_response 200)
        (add_statuses now user (with_favicons icon (m ∷ [])))
        (add_statuses-Keeps now user (with_favicons icon (m ∷ []))) (λ rs p. first-Keeps rs)

  module _ (parse_uuid : Bytes → Option ℕ) where
    pub statuses-Keeps :
        (now : ℕ) (identity : Option ℕ) (raw : Bytes)
        → HandlerKeeps I (statuses parse_uuid now identity raw)
    unfolding statuses statuses_of
    statuses-Keeps now identity raw fs w s =
        elim (Bool-cases (ltb 1850 (length raw) || ltb 50 (length (split b',' raw)))) [
          | inl e ↦ rw e s
          | inr e ↦ rw e (by_ids (parse_ids parse_uuid [] (split b',' raw)))
        ]
      where
        by_ids : (o : Option (List ℕ)) → Safe I (statuses_of parse_uuid now identity o fs w).1
        by_ids none = s
        by_ids (some ids) =
            handle-Keeps I statistics_error (λ ss. Unit) (λ ss. reply (json 200 ss))
              (monitor_statuses now (or_nil identity) ids)
              (monitor_statuses-Keeps now (or_nil identity) ids) (λ ss p fs w s. s) fs w s

    pub history-Keeps :
        (now : ℕ) (identity : Option ℕ) (id period : Bytes)
        → HandlerKeeps I (history parse_uuid now identity id period)
    unfolding history history_of
    history-Keeps now identity id period fs w s = by_id (parse_uuid id)
      where
        asked : Bytes
        asked = if bytes_eq period [] then codes "24h" else period

        by_id : (o : Option ℕ) → Safe I (history_of parse_uuid now identity o asked fs w).1
        by_id none = s
        by_id (some n) = elim (Bool-cases (known parse_uuid (history_window asked))) [
          | inr e ↦ rw e s
          | inl e ↦ rw e (
              handle-Keeps I statistics_error (λ h. Unit) (λ h. reply (json 200 h))
                (check_history now (or_nil identity) n asked)
                (check_history-Keeps I now (or_nil identity) n asked) (λ h p fs w s. s) fs w s)
        ]
