-- ===== src/Monitor/Favicon/Fetch/Clean.antt =====
-- What fetch of backend/internal/monitor/favicon.go returns as an icon.
use uptime.Prelude.{
  ℕ, zero, suc, ◌≤◌, ◌≡◌, ◌≢◌, refl, ap, ◌∙◌, inl, inr, ◌⊎◌, Bool, ◌||◌, none, some, List, [], ◌∷◌,
  ◌++◌, length, arith, Bool-cases, Option-cases, Bytes, codes, ltb, ◌==◌, if◌then◌else◌,
}
use uptime.Monitor.Favicon.Icons.{Web, favicon_limit, favicon_url, is_empty, png_data}
use uptime.Monitor.Favicon.Fetch.{
  request_fuel, Response, lost, redirect, answered, check_redirect, get, read, try_all, fetch,
  icon_of, read_response,
}

module _ {U : Type 0} (web : Web U) (server : ℕ → U → Response U) where
  -- An image is the encoding of a PNG of bounded size that the codec wrote for a bounded file,
  -- which a server sent with the status 200.
  pub record Clean (image : Bytes) : Type 0 where
    pub request : ℕ
    pub url : U
    pub file : Bytes
    pub width : ℕ
    pub height : ℕ
    pub clean : Bytes
    pub sent : server request url ≡ answered 200 (some file)
    pub small_file : length file ≤ favicon_limit
    pub size : web.png_size file ≡ some (width, height)
    pub narrow : width ≤ 256
    pub low : height ≤ 256
    pub written : web.png_clean file ≡ some clean
    pub small : length clean ≤ favicon_limit
    pub encoded : image ≡ codes "data:image/png;base64," ++ web.encode_std clean

  abbrev Served : Response U → Type 0
  Served r = (r ≡ lost) ⊎ ((n : ℕ) × (u : U) × (server n u ≡ r))

  get-Served : (fuel via : ℕ) (u : U) (log : List U) → Served (get web server fuel via u log).0.0
  unfolding get
  get-Served zero via u log = inl refl
  get-Served (suc fuel) via u log =
      at (server (length log) u) refl (λ v. get-Served fuel (suc via) v (u ∷ log))
    where
      at :
          (r : Response U)
          → server (length log) u ≡ r
          → ((v : U) → Served (get web server fuel (suc via) v (u ∷ log)).0.0)
          → Served
              (elim r as (λ x. (Response U × U) × List U) [
                | lost ↦ ((lost, u), u ∷ log)
                | redirect v ↦
                    if check_redirect web server (suc via) v
                    then get web server fuel (suc via) v (u ∷ log)
                    else ((lost, u), u ∷ log)
                | answered status body ↦ ((answered status body, u), u ∷ log)
              ]).0.0
      at lost e more = inl refl
      at (answered status body) e more = inr (length log, u, e)
      at (redirect v) e more = elim (Bool-cases (check_redirect web server (suc via) v)) [
        | inl c ↦ rw c (more v)
        | inr c ↦ rw c (inl refl)
      ]

  abbrev Outcome : Bytes → Type 0
  Outcome image = (image ≡ []) ⊎ Clean image

  png_data-Clean :
      (file : Bytes) (n : ℕ) (u : U)
      → server n u ≡ answered 200 (some file)
      → length file ≤ favicon_limit
      → Outcome (png_data web file)
  unfolding png_data
  png_data-Clean file n u sent small = elim (Option-cases (web.png_size file)) [
    | inl e ↦ rw (e, png_data) (inl refl)
    | inr ((width, height), size) ↦
        rw (size, png_data)
          (elim (Bool-cases (ltb 256 width || ltb 256 height)) [
            | inl e ↦ rw e (inl refl)
            | inr fits ↦ rw fits (elim (Option-cases (web.png_clean file)) [
              | inl e ↦ rw e (inl refl)
              | inr (clean, written) ↦
                  rw written (elim (Bool-cases (ltb favicon_limit (length clean))) [
                    | inl e ↦ rw e (inl refl)
                    | inr e ↦ rw e (
                        inr (record {
                          request = n;
                          url = u;
                          file = file;
                          width = width;
                          height = height;
                          clean = clean;
                          sent = sent;
                          small_file = small;
                          size = size;
                          narrow = ground arith;
                          low = ground arith;
                          written = written;
                          small = ground arith;
                          encoded = refl;
                        }))
                  ])
            ])
          ])
  ]

  response-Clean :
      (r : Response U) (v : U)
      → Served r
      → Outcome (icon_of web server (read_response web server favicon_limit (r, v)))
  response-Clean lost v s = inl refl
  response-Clean (redirect x) v s = inl refl
  response-Clean (answered status none) v s = elim (Bool-cases (status == 200)) [
    | inl e ↦ rw e (inl refl)
    | inr e ↦ rw e (inl refl)
  ]
  response-Clean (answered status (some file)) v s = elim (Bool-cases (status == 200)) [
    | inr e ↦ rw e (inl refl)
    | inl e ↦ rw e (elim (Bool-cases (ltb favicon_limit (length file))) [
      | inl f ↦ rw f (inl refl)
      | inr f ↦ rw f (elim s [
        | inl g ↦ cc
        | inr (n, u, sent) ↦
            png_data-Clean file n u (sent ∙ ap (λ x. answered x (some file)) (ground arith))
              (ground arith)
      ])
    ])
  ]

  read-Clean :
      (u : U) (log : List U) → Outcome (icon_of web server (read web server u favicon_limit log).0)
  unfolding read
  read-Clean u log = elim (Bool-cases (favicon_url web u)) [
    | inr e ↦ rw e (inl refl)
    | inl e ↦ rw e (response-Clean _ _ (get-Served (request_fuel web server) 0 u log))
  ]

  try_all-Clean :
      (over : ℕ → Bool) (us : List U) (log : List U) → Outcome (try_all web server over us log).0
  unfolding try_all
  try_all-Clean over [] log = inl refl
  try_all-Clean over (u ∷ us) log = elim (Bool-cases (over (length us))) [
    | inl e ↦ rw e (inl refl)
    | inr e ↦
        rw e
          (elim (Bool-cases
            (is_empty web (icon_of web server (read web server u favicon_limit log).0))) [
              | inl f ↦ rw f (try_all-Clean over us (read web server u favicon_limit log).1)
              | inr f ↦ rw f (read-Clean u log)
            ])
  ]

  -- an icon that is fetched, where one is, is the encoding of a PNG of at most 64 KiB that the
  -- codec itself wrote, for a picture of at most 256 by 256 in a file of at most 64 KiB that a
  -- server sent with the status 200.
  pub fetch-Clean :
      (over : ℕ → Bool) (raw : Bytes) (log : List U)
      → (fetch web server over raw log).0 ≢ []
      → Clean (fetch web server over raw log).0
  unfolding fetch
  fetch-Clean over raw log found = elim (fetched raw) [ inl e ↦ elim (found e) [ ] | inr c ↦ c ]
    where
      fetched : (raw : Bytes) → Outcome (fetch web server over raw log).0
      fetched raw = elim (Option-cases (web.parse raw)) [
        | inl n ↦ rw n (inl refl)
        | inr (u, parsed) ↦ rw parsed (elim (Bool-cases (favicon_url web u)) [
          | inr e ↦ rw e (inl refl)
          | inl e ↦ rw e (try_all-Clean over _ _)
        ])
      ]
