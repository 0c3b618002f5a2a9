-- ===== src/Monitor/Controller/Handlers/Theirs.antt =====
-- The monitors of a user, through the calls of another to the handlers of
-- backend/internal/monitor/controller.go.
use uptime.Prelude.{ℕ, ◌≢◌, ◌≡◌, Bool, Option, none, some, List, Bytes, codes, ◌⊎◌, inl, inr}
use uptime.Store.Rows.{Db, Monitor}
use uptime.Store.Checks.{find_monitor}
use uptime.Store.Monitors.{create_monitor, update_monitor, delete_monitor}
use uptime.Store.Monitors.Owners.{Has}
use uptime.Store.Monitors.Theirs.{create_monitor-Has, update_monitor-Has, delete_monitor-Has}
use uptime.Http.Reply.{Reply, reply, bare}
use uptime.Http.Reply.Keeps.{HandlerKeeps, handle-Keeps, signed_in-Keeps}
use uptime.Monitor.Controller.Cursor.{Codec}
use uptime.Monitor.Controller.Requests.{Upload, read_monitor}
use uptime.Monitor.Controller.Statistics.{MonitorResponse, write_created, write_updated}
use uptime.Monitor.Controller.Statistics.Reads.{write_updated-Keeps}
use uptime.Monitor.Controller.Handlers.{
  Surroundings, unauthorized, internal, missing_or, returned, create, create_valid,
  update as update_handler, update_one, update_valid, delete as delete_handler, delete_one,
}

module _ (c : Codec) (trim_space : Bytes → Bytes) (valid_url : Bytes → Bool) (env : Surroundings)
    (user : ℕ) (rows : List Monitor) where
  abbrev Kept : Db → Type 0
  Kept = Has user rows

  abbrev new_row : ℕ → Bytes → ℕ → Monitor
  new_row other url interval = record {
    id = env.new_id;
    user_id = other;
    url = url;
    interval_seconds = interval;
    created_at = env.now;
  }

  abbrev edited_row : ℕ → ℕ → Bytes → ℕ → Monitor
  edited_row other id url interval = record {
    id = id;
    user_id = other;
    url = url;
    interval_seconds = interval;
    created_at = 0;
  }

  created-Has :
      (other : ℕ) (r : Reply MonitorResponse ⊎ (Bytes × ℕ))
      → other ≢ user
      → HandlerKeeps Kept (create_valid c trim_space valid_url env other r)
  unfolding create_valid write_created
  created-Has other (inl refused) n fs w s = s
  created-Has other (inr (url, interval)) n fs w s =
      handle-Keeps Kept (λ e. internal (codes "Unable to create the monitor")) (λ u. Unit)
        (λ done. write_created env.icon (new_row other url interval))
        (create_monitor env.now (new_row other url interval))
        (create_monitor-Has user rows env.now (new_row other url interval) n) (λ done p fs w s. s)
        fs w s

  pub create-Has :
      (identity : Option ℕ) (r : Upload)
      → ((id : ℕ) → identity ≡ some id → id ≢ user)
      → HandlerKeeps Kept (create c trim_space valid_url env identity r)
  unfolding create
  create-Has identity r n =
      signed_in-Keeps Kept unauthorized
        (λ other.
          create_valid c trim_space valid_url env other (read_monitor trim_space valid_url r))
        identity (λ other q. created-Has other (read_monitor trim_space valid_url r) (n other q))

  edited-Has :
      (other id : ℕ) (r : Reply MonitorResponse ⊎ (Bytes × ℕ))
      → other ≢ user
      → HandlerKeeps Kept (update_valid c trim_space valid_url env other id r)
  unfolding update_valid
  edited-Has other id (inl refused) n fs w s = s
  edited-Has other id (inr (url, interval)) n fs w s =
      handle-Keeps Kept (missing_or (codes "Unable to update the monitor")) (λ u. Unit)
        (λ done fs w.
          write_updated env.icon env.now other
            (returned (edited_row other id url interval) (find_monitor id w.db)) fs w)
        (update_monitor env.now (edited_row other id url interval))
        (update_monitor-Has user rows env.now (edited_row other id url interval) n)
        (λ done p fs w s.
          write_updated-Keeps Kept env.icon env.now other
            (returned (edited_row other id url interval) (find_monitor id w.db)) fs w s)
        fs w s

  update_one-Has :
      (other : ℕ) (r : Upload) (o : Option ℕ)
      → other ≢ user
      → HandlerKeeps Kept (update_one c trim_space valid_url env r other o)
  unfolding update_one
  update_one-Has other r none n fs w s = s
  update_one-Has other r (some id) n fs w s =
      edited-Has other id (read_monitor trim_space valid_url r) n fs w s

  pub update-Has :
      (identity : Option ℕ) (id : Bytes) (r : Upload)
      → ((other : ℕ) → identity ≡ some other → other ≢ user)
      → HandlerKeeps Kept (update_handler c trim_space valid_url env identity id r)
  unfolding update_handler
  update-Has identity id r n =
      signed_in-Keeps Kept unauthorized
        (λ other. update_one c trim_space valid_url env r other (c.parse_uuid id)) identity
        (λ other q. update_one-Has other r (c.parse_uuid id) (n other q))

  delete_one-Has :
      (other : ℕ) (o : Option ℕ)
      → other ≢ user
      → HandlerKeeps Kept (delete_one c trim_space valid_url env other o)
  unfolding delete_one
  delete_one-Has other none n fs w s = s
  delete_one-Has other (some id) n fs w s =
      handle-Keeps Kept (missing_or (codes "Unable to delete the monitor")) (λ u. Unit)
        (λ done. reply (bare 204)) (delete_monitor other id)
        (delete_monitor-Has user rows other id n) (λ done p fs w s. s) fs w s

  pub delete-Has :
      (identity : Option ℕ) (id : Bytes)
      → ((other : ℕ) → identity ≡ some other → other ≢ user)
      → HandlerKeeps Kept (delete_handler c trim_space valid_url env identity id)
  unfolding delete_handler
  delete-Has identity id n =
      signed_in-Keeps Kept unauthorized
        (λ other. delete_one c trim_space valid_url env other (c.parse_uuid id)) identity
        (λ other q. delete_one-Has other (c.parse_uuid id) (n other q))
