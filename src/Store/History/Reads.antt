-- ===== src/Store/History/Reads.antt =====
-- CheckHistory of backend/internal/store/checks.go changes nothing in the database.
use uptime.Prelude.{ℕ, List, Bytes}
use uptime.Store.Rows.{Db, MonitorState, MonitorMinute}
use uptime.Store.Exec.{Exec, ok, pure, lift, query, transaction, or_not_found, ◌>>=◌}
use uptime.Store.Exec.Keeps.{
  Keeps, pure-Keeps, lift-Keeps, read-Keeps, bind-Keeps, transaction-Keeps,
}
use uptime.Store.History.{MonitorHistory, history_window, history_at, owned_state, check_history}

module _ (I : Db → Type 0) (now user id : ℕ) where
  counted : ℕ × ℕ → MonitorState → List MonitorMinute → MonitorHistory
  counted window state minutes = history_at window now state.version id minutes

  with_state : ℕ × ℕ → MonitorState → Exec MonitorHistory
  unfolding counted
  with_state window state = do
    minutes ← query (λ db. ok db.minutes)
    pure (counted window state minutes)

  within : ℕ × ℕ → Exec MonitorHistory
  unfolding with_state
  within window = do
    state ← query (λ db. or_not_found (owned_state user id db))
    with_state window state

  within-Keeps : (window : ℕ × ℕ) → Keeps I (λ h. Unit) (within window)
  unfolding within with_state
  within-Keeps window =
      bind-Keeps I (λ state. Unit) (λ h. Unit) (query (λ db. or_not_found (owned_state user id db)))
        (with_state window) (read-Keeps I (λ db. or_not_found (owned_state user id db)))
        (λ state p.
          bind-Keeps I (λ minutes. Unit) (λ h. Unit) (query (λ db. ok db.minutes))
            (λ minutes. pure (counted window state minutes)) (read-Keeps I (λ db. ok db.minutes))
            (λ minutes q. pure-Keeps I (λ h. Unit) (counted window state minutes) tt))

  pub check_history-Keeps :
      (period : Bytes) → Keeps I (λ h. Unit) (check_history now user id period)
  unfolding check_history within with_state counted
  check_history-Keeps period =
      bind-Keeps I (λ window. Unit) (λ h. Unit) (lift (history_window period))
        (λ window. transaction (within window)) (lift-Keeps I (history_window period))
        (λ window p. transaction-Keeps I (λ h. Unit) (within window) (within-Keeps window))
