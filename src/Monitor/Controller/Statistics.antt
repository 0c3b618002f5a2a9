-- ===== src/Monitor/Controller/Statistics.antt =====
-- backend/internal/monitor/statistics.go, with the response of favicon.go: statuses and histories.
pub mod Reads
use uptime.Prelude.{
  ℕ, Bool, true, false, ◌||◌, Option, none, some, List, [], ◌∷◌, length, Bytes, codes, bytes_eq,
  split, ltb, ◌==◌, if◌then◌else◌,
}
use uptime.Store.Rows.{Monitor}
use uptime.Store.Exec.{Error, record_not_found, Exec, pure, ◌>>=◌, ok, err, Result}
use uptime.Store.Statuses.{pending, MonitorStatus, monitor_statuses, one_of}
use uptime.Store.History.{MonitorHistory, history_window, check_history}
use uptime.Http.Reply.{Reply, fault, json, Handler, reply, handle}

-- `none` is a status that was never set.
pub record MonitorResponse : Type 0 where
  pub monitor : Monitor
  pub check : Option MonitorStatus
  pub favicon : Bytes

-- Each icon is that of the URL: `icon` stands for what fetching them all leaves.
unfoldable pub with_favicons : (Bytes → Bytes) → List Monitor → List MonitorResponse
with_favicons icon [] = []
with_favicons icon (m ∷ ms) =
    record { monitor = m; check = none; favicon = icon m.url } ∷ with_favicons icon ms

abbrev pub statistics_error : {A : Type 0} → Error → Reply A
statistics_error record_not_found =
    fault 404 (codes "monitor_not_found") (codes "Website not found")
statistics_error _ = fault 500 (codes "internal_error") (codes "Unable to load monitoring results")

-- The map by identity, in which a later status replaces an earlier one.
unfoldable pub by_id : List MonitorStatus → ℕ → Option MonitorStatus
by_id [] id = none
by_id (s ∷ ss) id = elim (by_id ss id) [
  | some later ↦ some later
  | none ↦ if s.id == id then some s else none
]

unfoldable pub attach : List MonitorStatus → List MonitorResponse → List MonitorResponse
unfolding by_id
attach ss [] = []
attach ss (r ∷ rs) = record r { check = by_id ss r.monitor.id } ∷ attach ss rs

unfoldable pub identities : List MonitorResponse → List ℕ
identities [] = []
identities (r ∷ rs) = r.monitor.id ∷ identities rs

unfoldable pub add_statuses : ℕ → ℕ → List MonitorResponse → Exec (List MonitorResponse)
unfolding attach identities
add_statuses now user rs = do ss ← monitor_statuses now user (identities rs); pure (attach ss rs)

-- There is one response: a list without any cannot occur.
abbrev pub first_response : ℕ → List MonitorResponse → Handler MonitorResponse
first_response code [] = reply (fault 500 [] [])
first_response code (r ∷ rs) = reply (json code r)

-- writeMonitor after a creation: the status is known without another query.
unfoldable pub write_created : (Bytes → Bytes) → Monitor → Handler MonitorResponse
write_created icon m = reply (
    json 201 (record {
      monitor = m;
      check = some (record {
        id = m.id;
        version = 1;
        status = pending;
        last_started_at = none;
        last_finished_at = none;
        last_success = none;
        http_status = none;
        error_kind = [];
      });
      favicon = icon m.url;
    }))

-- writeMonitor after an update.
unfoldable pub write_updated : (Bytes → Bytes) → ℕ → ℕ → Monitor → Handler MonitorResponse
unfolding add_statuses with_favicons
write_updated icon now user m =
    handle statistics_error (first_response 200)
      (add_statuses now user (with_favicons icon (m ∷ [])))

abbrev or_nil : Option ℕ → ℕ
or_nil none = 0
or_nil (some id) = id

abbrev invalid_ids : {A : Type 0} → Reply A
invalid_ids = fault 400 (codes "invalid_ids") (codes "Provide 1 to 50 unique monitor IDs")

-- uuid.Parse is that of its package.
module _ (parse_uuid : Bytes → Option ℕ) where
  unique_id : Option ℕ → List ℕ → Option ℕ
  unique_id none seen = none
  unique_id (some id) seen = if one_of id seen then none else some id

  -- The loop over the pieces, with the identities that were seen.
  unfoldable pub parse_ids : List ℕ → List Bytes → Option (List ℕ)
  unfolding unique_id
  parse_ids seen [] = some []
  parse_ids seen (part ∷ parts) = elim (unique_id (parse_uuid part) seen) [
    | none ↦ none
    | some id ↦ elim (parse_ids (id ∷ seen) parts) [ none ↦ none | some ids ↦ some (id ∷ ids) ]
  ]

  statuses_of : ℕ → Option ℕ → Option (List ℕ) → Handler (List MonitorStatus)
  statuses_of now identity none = reply invalid_ids
  statuses_of now identity (some ids) =
      handle statistics_error (λ ss. reply (json 200 ss))
        (monitor_statuses now (or_nil identity) ids)

  unfoldable pub statuses : ℕ → Option ℕ → Bytes → Handler (List MonitorStatus)
  unfolding parse_ids statuses_of
  statuses now identity raw =
      if ltb 1850 (length raw) || ltb 50 (length (split b',' raw))
      then reply invalid_ids
      else statuses_of now identity (parse_ids [] (split b',' raw))

  abbrev invalid_history : {A : Type 0} → Reply A
  invalid_history = fault 400 (codes "invalid_history") (codes "Provide a valid ID and period")

  known : Result (ℕ × ℕ) → Bool
  known (ok w) = true
  known (err e) = false

  history_of : ℕ → Option ℕ → Option ℕ → Bytes → Handler MonitorHistory
  unfolding known
  history_of now identity none period = reply invalid_history
  history_of now identity (some id) period =
      if known (history_window period)
      then handle statistics_error (λ h. reply (json 200 h))
          (check_history now (or_nil identity) id period)
      else reply invalid_history

  unfoldable pub history : ℕ → Option ℕ → Bytes → Bytes → Handler MonitorHistory
  unfolding history_of
  history now identity id period =
      history_of now identity (parse_uuid id) (if bytes_eq period [] then codes "24h" else period)
