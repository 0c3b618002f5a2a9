-- ===== src/Monitor/Favicon/Fetch/Polite.antt =====
-- Which addresses a fetch of backend/internal/monitor/favicon.go asks, and how often.
use uptime.Prelude.{
  ℕ, zero, suc, ◌+◌, ◌*◌, ◌≤◌, ◌<◌, ◌≡◌, refl, inl, inr, Bool, true, false, List, [], ◌∷◌, length,
  length-append, All, arith, Bool-cases, Option-cases, Bytes, codes, if◌then◌else◌,
}
use uptime.Monitor.Favicon.Icons.{
  Web, Token, Page, favicon_limit, favicon_url, is_empty, icon_links, icon_links_from, link_step,
  base_step, last_attr,
}
use uptime.Monitor.Favicon.Fetch.{
  Response, lost, redirect, answered, Read, refused, truncated, whole, check_redirect, request_fuel,
  get, read, try_all, candidates, with_paths, fetch, page_limit, icon_of, read_response,
}

module _ {U : Type 0} (web : Web U) where
  base_step-links : (s : Page web) (t : Token) → (base_step web s t).links ≡ s.links
  unfolding base_step
  base_step-links s t = ground arith

  link_step-length :
      (s : Page web) (t : Token) → length s.links ≤ 6 → length (link_step web s t).links ≤ 6
  unfolding link_step
  link_step-length s t h =
      elim (Option-cases (web.parse (last_attr web (codes "href") [] t.attrs))) [
        | inl n ↦ ground arith
        | inr (r, e) ↦ ground (arith, length-append s.links (web.resolve s.base r ∷ []))
      ]

  icon_links_from-length :
      (s : Page web) (ts : List Token) → length s.links ≤ 6 → length (icon_links_from web s ts) ≤ 6
  unfolding icon_links_from
  icon_links_from-length s [] h = h
  icon_links_from-length s (t ∷ ts) h = ground (
    arith,
    icon_links_from-length s ts,
    icon_links_from-length (link_step web (base_step web s t) t) ts,
    link_step-length (base_step web s t) t,
    base_step-links s t,
  )

module _ {U : Type 0} (web : Web U) (server : ℕ → U → Response U) where
  -- At most so many requests, each to an address that faviconURL accepts.
  abbrev pub Polite : ℕ → List U → Type 0
  Polite n log = All (λ u. favicon_url web u ≡ true) log × (length log ≤ n)

  accepted :
      (via : ℕ) (v : U) → check_redirect web server (suc via) v ≡ true → favicon_url web v ≡ true
  unfolding check_redirect
  accepted via v c = ground arith

  allowed : (via : ℕ) (v : U) → check_redirect web server (suc via) v ≡ true → suc via < 3
  unfolding check_redirect
  allowed via v c = ground arith

  -- CheckRedirect, not the fuel, ends a chain of redirects: three requests at most.
  get-Polite :
      (fuel via n : ℕ) (u : U) (log : List U)
      → via < 3
      → favicon_url web u ≡ true
      → Polite (n + via) log
      → Polite (n + 3) (get web server fuel via u log).1
  unfolding get check_redirect
  get-Polite zero via n u log few ok h = (h.0, omega (arith, few, h.1))
  get-Polite (suc fuel) via n u log few ok h = at (server (length log) u) (λ v fewer accept.
      get-Polite fuel (suc via) n v (u ∷ log) fewer accept ((ok, h.0), omega (arith, h.1)))
    where
      at :
          (r : Response U)
          → ((v : U)
              → suc via < 3
              → favicon_url web v ≡ true
              → Polite (n + 3) (get web server fuel (suc via) v (u ∷ log)).1)
          → Polite
              (n + 3)
              (elim r as (λ x. (Response U × U) × List U) [
                | lost ↦ ((lost, u), u ∷ log)
                | redirect v ↦
                    if check_redirect web server (suc via) v
                    then get web server fuel (suc via) v (u ∷ log)
                    else ((lost, u), u ∷ log)
                | answered status body ↦ ((answered status body, u), u ∷ log)
              ]).1
      at lost more = ((ok, h.0), omega (arith, few, h.1))
      at (redirect v) more = elim (Bool-cases (check_redirect web server (suc via) v)) [
        | inl c ↦ rw c (more v (allowed via v c) (accepted via v c))
        | inr c ↦ rw c ((ok, h.0), omega (arith, few, h.1))
      ]
      at (answered status body) more = ((ok, h.0), omega (arith, few, h.1))

  widen : (n m : ℕ) (log : List U) → n ≤ m → Polite n log → Polite m log
  widen n m log le h = (h.0, omega (arith, le, h.1))

  late : (via : ℕ) (v : U) → 3 ≤ suc via → check_redirect web server (suc via) v ≡ false
  unfolding check_redirect
  late via v h = ground arith

  -- CheckRedirect refuses before the fuel runs out: one request more never changes a result.
  get-enough :
      (fuel via : ℕ) (u : U) (log : List U)
      → 3 ≤ suc fuel + via
      → get web server (suc fuel) via u log ≡ get web server (suc (suc fuel)) via u log
  unfolding get
  get-enough zero via u log h = at (server (length log) u)
    where
      at :
          (r : Response U)
          → (elim r as (λ x. (Response U × U) × List U) [
            | lost ↦ ((lost, u), u ∷ log)
            | redirect v ↦
                if check_redirect web server (suc via) v
                then get web server zero (suc via) v (u ∷ log)
                else ((lost, u), u ∷ log)
            | answered status body ↦ ((answered status body, u), u ∷ log)
          ])
            ≡ (elim r as (λ x. (Response U × U) × List U) [
              | lost ↦ ((lost, u), u ∷ log)
              | redirect v ↦
                  if check_redirect web server (suc via) v
                  then get web server (suc zero) (suc via) v (u ∷ log)
                  else ((lost, u), u ∷ log)
              | answered status body ↦ ((answered status body, u), u ∷ log)
            ])
      at lost = refl
      at (redirect v) = rw (late via v (omega (arith, h))) refl
      at (answered status body) = refl
  get-enough (suc fuel) via u log h =
      at (server (length log) u) (λ v. get-enough fuel (suc via) v (u ∷ log) (omega (arith, h)))
    where
      at :
          (r : Response U)
          → ((v : U)
              → get web server (suc fuel) (suc via) v (u ∷ log)
                ≡ get web server (suc (suc fuel)) (suc via) v (u ∷ log))
          → (elim r as (λ x. (Response U × U) × List U) [
            | lost ↦ ((lost, u), u ∷ log)
            | redirect v ↦
                if check_redirect web server (suc via) v
                then get web server (suc fuel) (suc via) v (u ∷ log)
                else ((lost, u), u ∷ log)
            | answered status body ↦ ((answered status body, u), u ∷ log)
          ])
            ≡ (elim r as (λ x. (Response U × U) × List U) [
              | lost ↦ ((lost, u), u ∷ log)
              | redirect v ↦
                  if check_redirect web server (suc via) v
                  then get web server (suc (suc fuel)) (suc via) v (u ∷ log)
                  else ((lost, u), u ∷ log)
              | answered status body ↦ ((answered status body, u), u ∷ log)
            ])
      at lost more = refl
      at (redirect v) more = rw (more v) refl
      at (answered status body) more = refl

  read-Polite :
      (n limit : ℕ) (u : U) (log : List U)
      → Polite n log
      → Polite (n + 3) (read web server u limit log).1
  unfolding read
  read-Polite n limit u log h = elim (Bool-cases (favicon_url web u)) [
    | inl ok ↦
        rw ok (
          get-Polite (request_fuel web server) 0 n u log (omega arith) ok (h.0, omega (arith, h.1)))
    | inr refusal ↦ rw refusal (h.0, omega (arith, h.1))
  ]

  try_all-Polite :
      (over : ℕ → Bool) (us : List U) (n : ℕ) (log : List U)
      → Polite n log
      → Polite (n + 3 * length us) (try_all web server over us log).1
  unfolding try_all
  try_all-Polite over [] n log h = (h.0, omega (arith, h.1))
  try_all-Polite over (u ∷ us) n log h =
      let r = read-Polite n favicon_limit u log h in
      elim (Bool-cases (over (length us))) [
        | inl e ↦ rw e (widen n (n + 3 * suc (length us)) log (omega arith) h)
        | inr e ↦
            rw e
              (elim (Bool-cases
                (is_empty web (icon_of web server (read web server u favicon_limit log).0))) [
                  | inl f ↦ rw f (
                      widen (n + 3 + 3 * length us) (n + 3 * suc (length us)) _ (omega arith)
                        (try_all-Polite over us (n + 3) (read web server u favicon_limit log).1 r))
                  | inr f ↦ rw f (widen (n + 3) (n + 3 * suc (length us)) _ (omega arith) r)
                ])
      ]

  icon_links-length : (page : Bytes) (base : U) → length (icon_links web page base) ≤ 6
  unfolding icon_links
  icon_links-length page base =
      icon_links_from-length web (record { links = []; base = base; base_seen = false })
        (web.tokenize page) (omega arith)

  with_paths-length :
      (links : List U) (u : U) → length links ≤ 6 → length (with_paths web server links u) ≤ 8
  with_paths-length links u h = omega (
    arith,
    h,
    length-append links (
        web.resolve u (web.of_path (codes "/favicon.png"))
        ∷ web.resolve u (web.of_path (codes "/favicon.ico"))
        ∷ []),
  )

  candidates-length : (u : U) (r : Read U) → length (candidates web server u r) ≤ 8
  candidates-length u refused = with_paths-length [] u (omega arith)
  candidates-length u (whole body v) =
      with_paths-length (icon_links web body v) v (icon_links-length body v)
  candidates-length u (truncated body v) = elim (Bool-cases (is_empty web body)) [
    | inl e ↦ rw e (with_paths-length [] u (omega arith))
    | inr e ↦ rw e (with_paths-length (icon_links web body v) v (icon_links-length body v))
  ]

  -- whatever a page holds, whatever servers answer and wherever they redirect, fetching an icon
  -- makes at most 27 requests, every one to an address that faviconURL accepts.
  pub fetch-Polite : (over : ℕ → Bool) (raw : Bytes) → Polite 27 (fetch web server over raw []).1
  unfolding fetch
  fetch-Polite over raw = elim (Option-cases (web.parse raw)) [
    | inl n ↦ rw n (tt, omega arith)
    | inr (u, parsed) ↦ rw parsed (elim (Bool-cases (favicon_url web u)) [
      | inr e ↦ rw e (tt, omega arith)
      | inl e ↦ rw e (
          let (answer, log) = get web server (request_fuel web server) 0 u [] in
          let found = candidates web server u (read_response web server page_limit answer) in
          widen (3 + 3 * length found) 27 _ (omega (arith, candidates-length u _)) (
            try_all-Polite over found 3 log
              (get-Polite (request_fuel web server) 0 0 u [] (omega arith) e (tt, omega arith))))
    ])
  ]
