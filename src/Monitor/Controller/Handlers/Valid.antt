-- ===== src/Monitor/Controller/Handlers/Valid.antt =====
-- Every monitor that the API leaves in the database passes the checks of readMonitor.
use uptime.Prelude.{ℕ, Bool, Option, none, some, List, [], ◌∷◌, All, Bytes, ◌⊎◌, inl, inr, codes}
use uptime.Store.Rows.{Monitor, Db}
use uptime.Store.Exec.{Fates, World, start}
use uptime.Store.Exec.Keeps.{Safe}
use uptime.Store.Monitors.Kept.{
  Each, Done, create_monitor-Each, update_monitor-Each, delete_monitor-Each,
}
use uptime.Store.Monitors.{delete_monitor}
use uptime.Http.Reply.{Reply, reply, bare}
use uptime.Http.Reply.Keeps.{HandlerKeeps, handle-Keeps}
use uptime.Monitor.Controller.Statistics.Reads.{write_updated-Keeps}
use uptime.Monitor.Controller.Cursor.{Codec}
use uptime.Monitor.Controller.Requests.{read_monitor}
use uptime.Monitor.Controller.Requests.Accepts.{IsAccepted, Accepted, read_monitor-Accepted}
use uptime.Monitor.Controller.Statistics.{MonitorResponse, write_created}
use uptime.Monitor.Controller.Handlers.{
  Surroundings, internal, missing_or, create, create_valid, update as update_handler, update_one,
  update_valid, delete as delete_handler, delete_one,
}
use uptime.Monitor.Controller.Handlers.Calls.{Call, creates, updates, deletes, perform, perform_all}

module _ (c : Codec) (trim_space : Bytes → Bytes) (valid_url : Bytes → Bool) where
  abbrev pub IsValid : Monitor → Type 0
  IsValid m = IsAccepted trim_space valid_url m.url m.interval_seconds

  abbrev Valid : Db → Type 0
  Valid db = Each IsValid db

  -- An answer that only reads.
  silent : {A : Type 0} (r : Reply A) → HandlerKeeps Valid (reply r)
  silent r fs w s = s

  created-Keeps :
      (env : Surroundings) (user : ℕ) (r : Reply MonitorResponse ⊎ (Bytes × ℕ))
      → Accepted trim_space valid_url r
      → HandlerKeeps Valid (create_valid c trim_space valid_url env user r)
  unfolding create_valid write_created
  created-Keeps env user (inl refused) a = silent refused
  created-Keeps env user (inr (url, interval)) a =
      handle-Keeps Valid (λ e. internal (codes "Unable to create the monitor")) (Done IsValid) _ _
        (create_monitor-Each IsValid env.now _ a) (λ done p fs w s. s)

  edited-Keeps :
      (env : Surroundings) (user id : ℕ) (r : Reply MonitorResponse ⊎ (Bytes × ℕ))
      → Accepted trim_space valid_url r
      → HandlerKeeps Valid (update_valid c trim_space valid_url env user id r)
  unfolding update_valid
  edited-Keeps env user id (inl refused) a = silent refused
  edited-Keeps env user id (inr (url, interval)) a =
      handle-Keeps Valid (missing_or (codes "Unable to update the monitor")) (Done IsValid) _ _
        (update_monitor-Each IsValid env.now _ (λ x p. a))
        (λ done p fs w s. write_updated-Keeps Valid env.icon env.now user _ fs w s)

  perform-Keeps :
      (call : Call) (fs : Fates) (w : World)
      → Safe Valid w
      → Safe Valid (perform c trim_space valid_url call fs w)
  unfolding perform create update_handler update_one delete_handler delete_one
  perform-Keeps (creates env none r) fs w s = s
  perform-Keeps (creates env (some user) r) fs w s =
      created-Keeps env user (read_monitor trim_space valid_url r)
        (read_monitor-Accepted trim_space valid_url MonitorResponse r) fs w s
  perform-Keeps (updates env none id r) fs w s = s
  perform-Keeps (updates env (some user) id r) fs w s = by_id (c.parse_uuid id)
    where
      by_id : (o : Option ℕ) → Safe Valid (update_one c trim_space valid_url env r user o fs w).1
      by_id none = s
      by_id (some n) =
          edited-Keeps env user n (read_monitor trim_space valid_url r)
            (read_monitor-Accepted trim_space valid_url MonitorResponse r) fs w s
  perform-Keeps (deletes env none id) fs w s = s
  perform-Keeps (deletes env (some user) id) fs w s = by_id (c.parse_uuid id)
    where
      by_id : (o : Option ℕ) → Safe Valid (delete_one c trim_space valid_url env user o fs w).1
      by_id none = s
      by_id (some n) =
          handle-Keeps Valid (missing_or (codes "Unable to delete the monitor")) (Done IsValid)
            (λ done. reply (bare 204)) (delete_monitor user n) (delete_monitor-Each IsValid user n)
            (λ done p fs w s. s) fs w s

  -- whatever calls to create, update and delete monitors are made, by whomever, and whatever
  -- statements fail, monitors with intervals between 5 and 2147483647 seconds and valid URLs stay
  -- the only ones in the database.
  pub perform_all-IsValid :
      (calls : List Call) (fs : Fates) (db : Db)
      → All IsValid db.monitors
      → All IsValid (perform_all c trim_space valid_url calls fs (start db)).db.monitors
  unfolding perform_all
  perform_all-IsValid calls fs db h = (from calls (start db) (h, h)).0
    where
      from :
          (calls : List Call) (w : World)
          → Safe Valid w
          → Safe Valid (perform_all c trim_space valid_url calls fs w)
      from [] w s = s
      from (call ∷ calls) w s =
          from calls (perform c trim_space valid_url call fs w) (perform-Keeps call fs w s)
