-- ===== src/Monitor/Controller/Handlers/Calls.antt =====
-- Any history of calls of the handlers that change monitors, whatever statements fail.
use uptime.Prelude.{ℕ, Bool, Option, List, [], ◌∷◌, Bytes}
use uptime.Store.Exec.{Fates, World}
use uptime.Monitor.Controller.Cursor.{Codec}
use uptime.Monitor.Controller.Requests.{Upload}
use uptime.Monitor.Controller.Handlers.{
  Surroundings, create, update as update_handler, delete as delete_handler,
}

-- A call with the identity of its caller, if it has one.
pub data Call : Type 0 where
  creates : Surroundings → Option ℕ → Upload → Call
  updates : Surroundings → Option ℕ → Bytes → Upload → Call
  deletes : Surroundings → Option ℕ → Bytes → Call

module _ (c : Codec) (trim_space : Bytes → Bytes) (valid_url : Bytes → Bool) where
  unfoldable pub perform : Call → Fates → World → World
  perform (creates env who r) fs w = (create c trim_space valid_url env who r fs w).1
  perform (updates env who id r) fs w = (update_handler c trim_space valid_url env who id r fs w).1
  perform (deletes env who id) fs w = (delete_handler c trim_space valid_url env who id fs w).1

  unfoldable pub perform_all : List Call → Fates → World → World
  unfolding perform
  perform_all [] fs w = w
  perform_all (call ∷ calls) fs w = perform_all calls fs (perform call fs w)
