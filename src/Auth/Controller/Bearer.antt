-- ===== src/Auth/Controller/Bearer.antt =====
-- The header Authorization, as Authenticate of backend/internal/auth/controller.go reads it with
-- strings.Fields and strings.EqualFold.
use uptime.Prelude.{
  ℕ, ◌+◌, Bool, ◌&&◌, Option, none, some, List, [], ◌∷◌, Bytes, codes, bytes_eq, leb, fields,
  if◌then◌else◌, map,
}

abbrev pub lower : ℕ → ℕ
lower b = if leb b'A' b && leb b b'Z' then b + 32 else b

-- strings.EqualFold(s, "Bearer"): no letter of the word folds to a rune outside of ASCII.
unfoldable pub is_bearer : Bytes → Bool
is_bearer s = bytes_eq (map lower s) (codes "bearer")

-- The token of a header with two fields of which the first is the scheme.
unfoldable pub token_of : List Bytes → Option Bytes
unfolding is_bearer
token_of (scheme ∷ token ∷ []) = if is_bearer scheme then some token else none
token_of _ = none

unfoldable pub bearer_token : Bytes → Option Bytes
unfolding fields token_of
bearer_token header = token_of (fields header)
