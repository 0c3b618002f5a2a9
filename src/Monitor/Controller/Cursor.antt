-- ===== src/Monitor/Controller/Cursor.antt =====
-- The cursor of a page, in backend/internal/monitor/controller.go. Base64, RFC 3339 times and UUIDs
-- are those of other packages: their operations are an interface, with the laws apart.
pub mod RoundTrip
pub mod Sample
use uptime.Prelude.{
  ℕ, Bool, true, false, Option, none, some, List, [], ◌∷◌, ◌++◌, length, Bytes, bytes_eq, split,
  ltb, if◌then◌else◌,
}
use uptime.Store.Rows.{Monitor}
use uptime.Store.Monitors.{MonitorCursor}

pub record Codec : Type 0 where
  -- base64.RawURLEncoding
  pub encode_url : Bytes → Bytes
  pub decode_url : Bytes → Option Bytes
  -- time.RFC3339Nano in UTC
  pub format_time : ℕ → Bytes
  pub parse_time : Bytes → Option ℕ
  pub format_uuid : ℕ → Bytes
  pub parse_uuid : Bytes → Option ℕ

-- `none` is the error; a cursor that is not given is no cursor.
abbrev pub Parsed : Type 0
Parsed = Option (Option MonitorCursor)

module _ (c : Codec) where
  open c use {encode_url, decode_url, format_time, parse_time, format_uuid, parse_uuid}

  unfoldable pub next_cursor : Monitor → Bytes
  next_cursor m = encode_url (format_time m.created_at ++ b'|' ∷ format_uuid m.id)

  both : Option ℕ → Option ℕ → Parsed
  both (some created) (some id) = some (some (record { created_at = created; id = id }))
  both _ _ = none

  cursor_parts : List Bytes → Parsed
  unfolding both
  cursor_parts (created ∷ id ∷ []) = both (parse_time created) (parse_uuid id)
  cursor_parts _ = none

  decoded_cursor : Option Bytes → Parsed
  unfolding cursor_parts
  decoded_cursor none = none
  decoded_cursor (some decoded) = cursor_parts (split b'|' decoded)

  unfoldable pub parse_cursor : Bytes → Parsed
  unfolding decoded_cursor
  parse_cursor value =
      if bytes_eq value []
      then some none
      else if ltb 128 (length value)
      then none
      else decoded_cursor (decode_url value)
