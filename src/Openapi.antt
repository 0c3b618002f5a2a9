-- ===== src/Openapi.antt =====
-- backend/internal/openapi/nullable.go. The codecs of JSON and YAML and the file system are
-- parameters.
pub mod Clean
pub mod Again
mod Tests
use uptime.Prelude.{
  ℕ, Bool, true, false, ◌&&◌, Option, none, some, List, [], ◌∷◌, ◌++◌, Bytes, codes, bytes_eq,
  if◌then◌else◌,
}

-- A decoded document: `any`, with the keys of a map in some order.
mutual
  pub data Json : Type 0 where
    null : Json
    boolean : Bool → Json
    number : Bytes → Json
    text : Bytes → Json
    array : Items → Json
    object : Fields → Json

  pub data Items : Type 0 where
    no_items : Items
    item : Json → Items → Items

  pub data Fields : Type 0 where
    no_fields : Fields
    field : Bytes → Json → Fields → Fields

unfoldable pub get : Bytes → Fields → Option Json
get key no_fields = none
get key (field k j fs) = if bytes_eq k key then some j else get key fs

abbrev pub is_true : Option Json → Bool
is_true (some (boolean b)) = b
is_true _ = false

abbrev pub as_text : Option Json → Option Bytes
as_text (some (text t)) = some t
as_text _ = none

abbrev pub nullable : Bytes
nullable = codes "x-nullable"

abbrev pub type_key : Bytes
type_key = codes "type"

-- The type of a map that is annotated.
unfoldable pub annotated : Fields → Option Bytes
unfolding get
annotated fs = if is_true (get nullable fs) then as_text (get type_key fs) else none

abbrev pub union : Bytes → Json
union kind = array (item (text kind) (item (text (codes "null")) no_items))

-- The children; where the map is annotated, its type is replaced and its annotation deleted.
unfoldable mutual
  unfolding annotated

  pub normalize : Json → Json
  normalize (array items) = array (normalize_items items)
  normalize (object fs) = object (normalize_fields (annotated fs) fs)
  normalize null = null
  normalize (boolean b) = boolean b
  normalize (number n) = number n
  normalize (text t) = text t

  pub normalize_items : Items → Items
  normalize_items no_items = no_items
  normalize_items (item j is) = item (normalize j) (normalize_items is)

  pub normalize_fields : Option Bytes → Fields → Fields
  normalize_fields o no_fields = no_fields
  normalize_fields none (field k j fs) = field k (normalize j) (normalize_fields none fs)
  normalize_fields (some kind) (field k j fs) =
      let rest = normalize_fields (some kind) fs in
      let child = normalize j in
      if bytes_eq k nullable
      then rest
      else if bytes_eq k type_key
      then field k (union kind) rest
      else field k child rest

-- The files swagger.json and swagger.yaml.
pub record Directory : Type 0 where
  pub json : Option Bytes
  pub yaml : Option Bytes

pub record Codecs : Type 0 where
  pub decode : Bytes → Option Json
  pub encode : Json → Option Bytes
  pub to_yaml : Bytes → Option Bytes

pub data Outcome : Type 0 where
  done read_failed decode_failed encode_failed yaml_failed json_unwritten yaml_unwritten : Outcome

-- A write, or what a write that fails leaves of the file.
pub data Write : Type 0 where
  whole : Write
  broken : Option Bytes → Write

abbrev write_yaml : Write → Bytes → Directory → Outcome × Directory
write_yaml whole y d = (done, record d { yaml = some y })
write_yaml (broken left) y d = (yaml_unwritten, record d { yaml = left })

abbrev write_json : Write → Write → Bytes → Bytes → Directory → Outcome × Directory
write_json whole second bytes y d = write_yaml second y (record d { json = some bytes })
write_json (broken left) second bytes y d = (json_unwritten, record d { json = left })

module _ (c : Codecs) (first second : Write) where
  abbrev converted : Bytes → Option Bytes → Directory → Outcome × Directory
  converted bytes none d = (yaml_failed, d)
  converted bytes (some y) d = write_json first second bytes y d

  abbrev encoded : Option Bytes → Directory → Outcome × Directory
  encoded none d = (encode_failed, d)
  encoded (some bytes) d = converted (bytes ++ 10 ∷ []) (c.to_yaml (bytes ++ 10 ∷ [])) d

  abbrev decoded : Option Json → Directory → Outcome × Directory
  decoded none d = (decode_failed, d)
  decoded (some j) d = encoded (c.encode (normalize j)) d

  abbrev found : Option Bytes → Directory → Outcome × Directory
  found none d = (read_failed, d)
  found (some bytes) d = decoded (c.decode bytes) d

  unfoldable pub normalize_nullable : Directory → Outcome × Directory
  unfolding normalize
  normalize_nullable d = found d.json d
