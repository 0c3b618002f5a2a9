-- ===== src/Monitor/Favicon/Icons.antt =====
-- The URLs and the icons of pages: faviconURL, pngData and iconLinks of
-- backend/internal/monitor/favicon.go. URLs, the tokens of HTML and the codec of PNG are those of
-- other packages.
use uptime.Prelude.{
  ℕ, ◌*◌, Bool, true, false, not, ◌&&◌, ◌||◌, Option, none, some, List, [], ◌∷◌, ◌++◌, length,
  Bytes, codes, bytes_eq, fields, ltb, if◌then◌else◌,
}

abbrev pub favicon_limit : ℕ
favicon_limit = 64 * 1024

-- A token of HTML; `starts` says that it is a start tag or a self-closing one.
pub record Token : Type 0 where
  pub starts : Bool
  pub name : Bytes
  pub attrs : List (Bytes × Bytes)

-- Of net/url, and the tokenizer, the codec and the encodings.
pub record Web (U : Type 0) : Type 0 where
  pub parse : Bytes → Option U
  pub has_user : U → Bool
  pub hostname : U → Bytes
  pub scheme : U → Bytes
  pub port : U → Bytes
  pub resolve : U → U → U
  pub of_path : Bytes → U
  pub tokenize : Bytes → List Token
  pub to_lower : Bytes → Bytes
  -- png.DecodeConfig: width and height
  pub png_size : Bytes → Option (ℕ × ℕ)
  -- png.Decode, then png.Encode: none where one of them fails
  pub png_clean : Bytes → Option Bytes
  pub encode_std : Bytes → Bytes

module _ {U : Type 0} (web : Web U) where
  open web use {
    parse, has_user, hostname, scheme, port, resolve, of_path, tokenize, to_lower, png_size,
    png_clean, encode_std,
  }

  abbrev pub is_empty : Bytes → Bool
  is_empty [] = true
  is_empty (b ∷ bs) = false

  unfoldable pub favicon_url : U → Bool
  favicon_url u =
      not (has_user u || is_empty (hostname u))
      && (bytes_eq (scheme u) (codes "https")
            && (is_empty (port u) || bytes_eq (port u) (codes "443"))
          || bytes_eq (scheme u) (codes "http")
            && (is_empty (port u) || bytes_eq (port u) (codes "80")))

  unfoldable pub png_data : Bytes → Bytes
  png_data bytes = elim (png_size bytes) [
    | none ↦ []
    | some (width, height) ↦
        if ltb 256 width || ltb 256 height then [] else elim (png_clean bytes) [
          | none ↦ []
          | some clean ↦
              if ltb favicon_limit (length clean)
              then []
              else codes "data:image/png;base64," ++ encode_std clean
        ]
  ]

  -- The value of the first attribute href.
  abbrev pub first_href : List (Bytes × Bytes) → Option Bytes
  first_href [] = none
  first_href ((key, value) ∷ attrs) =
      if bytes_eq key (codes "href") then some value else first_href attrs

  -- The value of the last attribute of that name, from `found` on.
  abbrev pub last_attr : Bytes → Bytes → List (Bytes × Bytes) → Bytes
  last_attr name found [] = found
  last_attr name found ((key, value) ∷ attrs) =
      last_attr name (if bytes_eq key name then value else found) attrs

  abbrev pub any_icon : List Bytes → Bool
  any_icon [] = false
  any_icon (v ∷ vs) =
      bytes_eq v (codes "icon") || bytes_eq v (codes "apple-touch-icon") || any_icon vs

  -- The links, the base and whether a base was seen.
  pub record Page : Type 0 where
    pub links : List U
    pub base : U
    pub base_seen : Bool

  abbrev rebase : U → Option U → U
  rebase base none = base
  rebase base (some reference) =
      if favicon_url (resolve base reference) then resolve base reference else base

  abbrev based : Page → Option Bytes → Page
  based s none = s
  based s (some href) = record s { base = rebase s.base (parse href); base_seen = true }

  abbrev linked : Page → Option U → Page
  linked s none = s
  linked s (some reference) =
      if ltb (length s.links) 6 && favicon_url (resolve s.base reference)
      then record s { links = s.links ++ resolve s.base reference ∷ [] }
      else s

  unfoldable pub link_step : Page → Token → Page
  unfolding favicon_url
  link_step s t =
      let rel = to_lower (last_attr (codes "rel") [] t.attrs) in
      let href = last_attr (codes "href") [] t.attrs in
      if bytes_eq t.name (codes "link") && any_icon (fields rel) && not (is_empty href)
      then linked s (parse href)
      else s

  unfoldable pub base_step : Page → Token → Page
  unfolding favicon_url
  base_step s t =
      if bytes_eq t.name (codes "base") && not s.base_seen then based s (first_href t.attrs) else s

  unfoldable pub icon_links_from : Page → List Token → List U
  unfolding link_step base_step
  icon_links_from s [] = s.links
  icon_links_from s (t ∷ ts) =
      let rest = icon_links_from (if t.starts then link_step (base_step s t) t else s) ts in
      if t.starts && bytes_eq t.name (codes "body") then s.links else rest

  unfoldable pub icon_links : Bytes → U → List U
  unfolding icon_links_from
  icon_links page base =
      icon_links_from (record { links = []; base = base; base_seen = false }) (tokenize page)
