-- ===== src/Api.antt =====
-- backend/cmd/api/main.go with the routes of the controllers in backend/internal: a request goes
-- through Protect, the endpoint that net/http finds for it, and Authenticate where the endpoint
-- asks for it.
pub mod Isolation
pub mod CrossSite
mod Tests
use uptime.Prelude.{ℕ, Bool, Option, none, some, List, [], ◌∷◌, ◌++◌, Bytes, codes}
use uptime.Store.Rows.{Db}
use uptime.Store.Exec.{Fates, World}
use uptime.Store.Statuses.{MonitorStatus}
use uptime.Store.History.{MonitorHistory}
use uptime.Auth.Gate.{PasswordGate}
use uptime.Auth.Crypto.{Primitives}
use uptime.Auth.Service.{Draws}
use uptime.Auth.Controller.{
  AuthResponse, UserResponse, Answer, CredentialsUpload, Gated, plainly, handle_register,
  handle_login, handle_refresh, handle_logout, authenticate, handle_me,
}
use uptime.Http.Reply.{Reply, fault, json, bare, Handler}
use uptime.Http.Protect.{Request, Header, Handled, refused, answered, passed, protect}
use uptime.Monitor.Validation.{Outside, valid_url}
use uptime.Monitor.Controller.Cursor.{Codec}
use uptime.Monitor.Controller.Requests.{Upload}
use uptime.Monitor.Controller.Statistics.{MonitorResponse, statuses, history}
use uptime.Monitor.Controller.Handlers.{Surroundings, ListResponse, create, list, update, delete}
use uptime.Profile.{Unicode, ProfileResponse, NameUpload, get_profile, update_profile}
use uptime.Profile.Avatar.{File, Disk, Images, Multipart, Saved, upload_avatar, serve_avatar}

-- What the server is made of: its configuration, and the packages that it uses.
pub record Server : Type 0 where
  pub origin : Bytes
  pub secure : Bool
  pub primitives : Primitives
  pub codec : Codec
  pub outside : Outside
  pub text : Unicode
  pub to_lower : Bytes → Bytes
  pub images : Images

-- What the handlers of all requests share.
pub record Shared : Type 0 where
  pub world : World
  pub gate : PasswordGate
  pub files : List File

-- What one request meets: the fates of its statements, whether its context has ended, what it
-- draws, what other transactions commit while it waits for a row, the times at which its access token
-- is verified and it is answered, and what it finds for icons and files.
pub record Visit : Type 0 where
  pub fates : Fates
  pub ended : Bool
  pub draws : Draws
  pub others : Db → Db
  pub verified_at : ℕ
  pub at : ℕ
  pub surroundings : Surroundings
  pub disk : Disk

-- The patterns of RegisterRoutes of each controller, with what their handlers read of the request.
pub data AuthEndpoint : Type 0 where
  register_user login_user : CredentialsUpload → AuthEndpoint
  refresh_tokens log_out : Option Bytes → AuthEndpoint
  show_me : AuthEndpoint

pub data ProfileEndpoint : Type 0 where
  save_avatar : Multipart → ProfileEndpoint
  show_avatar : Bytes → ProfileEndpoint
  show_profile : ProfileEndpoint
  save_profile : NameUpload → ProfileEndpoint

pub data MonitorEndpoint : Type 0 where
  show_statuses : Bytes → MonitorEndpoint
  show_history : Bytes → Bytes → MonitorEndpoint
  list_monitors : Bytes → MonitorEndpoint
  create_monitor : Upload → MonitorEndpoint
  update_monitor : Bytes → Upload → MonitorEndpoint
  delete_monitor : Bytes → MonitorEndpoint

-- For a request that no pattern fits, net/http has a status.
pub data Endpoint : Type 0 where
  auth : AuthEndpoint → Endpoint
  profiles : ProfileEndpoint → Endpoint
  websites : MonitorEndpoint → Endpoint
  no_endpoint : ℕ → Endpoint

pub data Body : Type 0 where
  tokens : AuthResponse → Body
  user : UserResponse → Body
  profile : ProfileResponse → Body
  -- a file and its media type
  file : Bytes → Bytes → Body
  monitor : MonitorResponse → Body
  monitors : ListResponse → Body
  statuses_of : List MonitorStatus → Body
  history_of : MonitorHistory → Body
  empty : Body

module _ {A : Type 0} (body : A → Body) where
  abbrev as_body : Reply A → Reply Body
  as_body (fault status code message) = fault status code message
  as_body (json status a) = json status (body a)
  as_body (bare status) = bare status

  abbrev written : Answer A → Answer Body
  written a = record { reply = as_body a.reply; set_cookie = a.set_cookie; header = a.header }

-- A handler of the server.
abbrev pub Serve : Type 0
Serve = Fates → Shared → Answer Body × Shared

module _ {A : Type 0} (body : A → Body) where
  abbrev pub answers : (Fates → World → Answer A × World) → Serve
  answers h fs s = let (a, w) = h fs s.world in (written body a, record s { world = w })

  abbrev pub replies : Handler A → Serve
  replies h fs s = let (r, w) = h fs s.world in (plainly (as_body body r), record s { world = w })

abbrev pub gates : Gated → Serve
gates h fs s =
    let ((a, w), g) = h s.gate fs s.world in (written tokens a, record s { world = w; gate = g })

abbrev pub saves : (List File → Fates → World → Saved) → Serve
saves h fs s =
    let ((r, files), w) = h s.files fs s.world in
    (plainly (as_body profile r), record s { world = w; files = files })

-- http.NotFound where there is no file.
abbrev served : Option (Bytes × Bytes) → Answer Body
served none = plainly (bare 404)
served (some (content, kind)) = plainly (json 200 (file content kind))

abbrev pub stays : Answer Body → Serve
stays a fs s = (a, s)

abbrev pub shows : Bytes → Serve
shows name fs s = (served (serve_avatar name s.files), s)

module _ (sv : Server) (v : Visit) where
  open sv use {origin, secure, primitives, codec, outside, text, to_lower, images}
  open v use {ended, draws, others, verified_at, at, surroundings, disk}

  -- The header Authorization is an argument of the endpoints behind Authenticate.
  guarded : (Option ℕ → Serve) → Bytes → Serve
  guarded next = authenticate primitives next verified_at

  -- RegisterRoutes of the controllers: most handlers stand behind Authenticate.
  unfoldable pub auth_serve : AuthEndpoint → Bytes → Serve
  unfolding guarded
  auth_serve (register_user r) header = gates (handle_register primitives secure at r ended draws)
  auth_serve (login_user r) header = gates (handle_login primitives secure at r ended draws)
  auth_serve (refresh_tokens sent) header =
      answers tokens (handle_refresh primitives secure at others sent draws)
  auth_serve (log_out sent) header =
      answers (λ u. empty) (handle_logout primitives secure at others sent draws)
  auth_serve show_me header = guarded (λ id. answers user (handle_me id)) header

  unfoldable pub profile_serve : ProfileEndpoint → Bytes → Serve
  unfolding guarded
  profile_serve (save_avatar upload) header =
      guarded (λ id. saves (upload_avatar text images disk id upload)) header
  profile_serve (show_avatar name) header = shows name
  profile_serve show_profile header = guarded (λ id. replies profile (get_profile text id)) header
  profile_serve (save_profile r) header =
      guarded (λ id. replies profile (update_profile text id r)) header

  unfoldable pub monitor_serve : MonitorEndpoint → Bytes → Serve
  unfolding guarded
  monitor_serve (show_statuses ids) header =
      guarded (λ id. replies statuses_of (statuses codec.parse_uuid surroundings.now id ids)) header
  monitor_serve (show_history number period) header =
      guarded
        (λ id. replies history_of (history codec.parse_uuid surroundings.now id number period))
        header
  monitor_serve (list_monitors cursor) header =
      guarded
        (λ id.
          replies monitors (list codec text.trim_space (valid_url outside) surroundings id cursor))
        header
  monitor_serve (create_monitor r) header =
      guarded
        (λ id. replies monitor (create codec text.trim_space (valid_url outside) surroundings id r))
        header
  monitor_serve (update_monitor number r) header =
      guarded
        (λ id.
          replies monitor
            (update codec text.trim_space (valid_url outside) surroundings id number r))
        header
  monitor_serve (delete_monitor number) header =
      guarded
        (λ id.
          replies (λ u. empty)
            (delete codec text.trim_space (valid_url outside) surroundings id number))
        header

  unfoldable pub serve : Endpoint → Bytes → Serve
  unfolding auth_serve profile_serve monitor_serve
  serve (auth e) header = auth_serve e header
  serve (profiles e) header = profile_serve e header
  serve (websites e) header = monitor_serve e header
  serve (no_endpoint status) header = stays (plainly (bare status))

  -- The headers that Protect sets, and the answer.
  abbrev behind :
      Endpoint → Bytes → List Header × Handled → Shared → (List Header × Answer Body) × Shared
  behind e header (hs, refused status code message) s =
      ((hs, plainly (fault status code message)), s)
  behind e header (hs, answered status) s = ((hs, plainly (bare status)), s)
  behind e header (hs, passed timeout) s = let (a, s') = serve e header v.fates s in ((hs, a), s')

  unfoldable pub api : Request → Bytes → Endpoint → Shared → (List Header × Answer Body) × Shared
  unfolding serve
  api r header e s = behind e header (protect text.trim_space to_lower origin r) s

-- A request as it comes: what Protect reads, the header Authorization, its endpoint, and what it
-- meets.
pub record Arrival : Type 0 where
  pub request : Request
  pub authorization : Bytes
  pub endpoint : Endpoint
  pub visit : Visit

unfoldable pub api_all : Server → List Arrival → Shared → Shared
unfolding api
api_all sv [] s = s
api_all sv (a ∷ arrivals) s =
    api_all sv arrivals (api sv a.visit a.request a.authorization a.endpoint s).1
