-- ===== src/Monitor/Favicon/Fetch.antt =====
-- Fetching an icon: read and fetch of backend/internal/monitor/favicon.go, with the redirects that
-- the client of newFaviconFetcher follows. What servers answer is a parameter.
pub mod Polite
pub mod Clean
mod Tests
use uptime.Prelude.{
  ℕ, zero, suc, ◌+◌, ◌*◌, Bool, true, false, not, ◌&&◌, ◌||◌, Option, none, some, List, [], ◌∷◌,
  ◌++◌, length, take, Bytes, codes, ltb, leb, ◌==◌, if◌then◌else◌,
}
use uptime.Monitor.Favicon.Icons.{Web, favicon_limit, favicon_url, is_empty, png_data, icon_links}

abbrev pub page_limit : ℕ
page_limit = 256 * 1024

-- What a server answers to one request: nothing, a redirect, or a status with a body, which may
-- fail while it is read.
pub data Response (U : Type 0) : Type 0 where
  lost : Response U
  redirect : U → Response U
  answered : ℕ → Option Bytes → Response U

-- The bytes, the final URL and the error of `read`.
pub data Read (U : Type 0) : Type 0 where
  refused : Read U
  truncated : Bytes → U → Read U
  whole : Bytes → U → Read U

module _ {U : Type 0} (web : Web U) (server : ℕ → U → Response U) where
  -- CheckRedirect, after `via` requests.
  unfoldable pub check_redirect : ℕ → U → Bool
  unfolding favicon_url
  check_redirect via u = not (leb 3 via || not (favicon_url web u))

  -- The requests that were made, the newest first.
  abbrev pub Log : Type 0
  Log = List U

  -- client.Do: `via` requests were made before this one, and `fuel` may be made.
  unfoldable pub get : ℕ → ℕ → U → Log → (Response U × U) × Log
  unfolding check_redirect
  get zero via u log = ((lost, u), log)
  get (suc fuel) via u log = elim (server (length log) u) [
    | lost ↦ ((lost, u), u ∷ log)
    | redirect v ↦
        let rest = get fuel (suc via) v (u ∷ log) in
        if check_redirect (suc via) v then rest else ((lost, u), u ∷ log)
    | answered status body ↦ ((answered status body, u), u ∷ log)
  ]

  -- More requests than CheckRedirect allows to one read.
  abbrev pub request_fuel : ℕ
  request_fuel = 10

  -- What is read of a body, up to a limit.
  abbrev pub limited : ℕ → Option Bytes → U → Read U
  limited limit none u = refused
  limited limit (some body) u =
      if ltb limit (length body) then truncated (take limit body) u else whole body u

  abbrev pub read_response : ℕ → Response U × U → Read U
  read_response limit (lost, u) = refused
  read_response limit (redirect v, u) = refused
  read_response limit (answered status body, u) =
      if status == 200 then limited limit body u else refused

  unfoldable pub read : U → ℕ → Log → Read U × Log
  unfolding get
  read u limit log =
      let (r, log') = get request_fuel 0 u log in
      if favicon_url web u then (read_response limit r, log') else (refused, log)

  abbrev pub icon_of : Read U → Bytes
  icon_of refused = []
  icon_of (truncated body u) = []
  icon_of (whole body u) = png_data web body

  -- `over` says before which candidates the context has an error, by how many come after.
  unfoldable pub try_all : (ℕ → Bool) → List U → Log → Bytes × Log
  unfolding read
  try_all over [] log = ([], log)
  try_all over (u ∷ us) log =
      let (r, log') = read u favicon_limit log in
      let rest = try_all over us log' in
      if over (length us)
      then ([], log)
      else if is_empty web (icon_of r)
      then rest
      else (icon_of r, log')

  -- The candidates of a page: its links, and two paths beside it.
  abbrev pub with_paths : List U → U → List U
  with_paths links u =
      links
      ++ web.resolve u (web.of_path (codes "/favicon.png"))
        ∷ web.resolve u (web.of_path (codes "/favicon.ico"))
        ∷ []

  abbrev pub candidates : U → Read U → List U
  candidates u refused = with_paths [] u
  candidates u (truncated body v) =
      if is_empty web body then with_paths [] u else with_paths (icon_links web body v) v
  candidates u (whole body v) = with_paths (icon_links web body v) v

  abbrev fetch_url : (ℕ → Bool) → Option U → Log → Bytes × Log
  fetch_url over none log = ([], log)
  fetch_url over (some u) log =
      let (r, log') = read u page_limit log in
      let found = try_all over (candidates u r) log' in
      if favicon_url web u then found else ([], log)

  unfoldable pub fetch : (ℕ → Bool) → Bytes → Log → Bytes × Log
  unfolding read try_all
  fetch over raw = fetch_url over (web.parse raw)
