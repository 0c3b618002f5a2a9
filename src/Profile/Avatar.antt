-- ===== src/Profile/Avatar.antt =====
-- backend/internal/profile/avatar.go: uploads of avatars into a directory of files. The multipart
-- parser and the image codecs are those of other packages; each operation on a file may fail.
pub mod Users
pub mod Files
pub mod Served
pub mod Lost
pub mod Elsewhere
mod Tests
use uptime.Prelude.{
  ℕ, zero, suc, ◌+◌, ◌*◌, ◌^◌, Bool, true, false, not, ◌&&◌, ◌||◌, Option, none, some, List, [],
  ◌∷◌, ◌++◌, length, take, delete, Bytes, codes, bytes_eq, ltb, leb, ◌==◌, if◌then◌else◌,
}
use uptime.Store.Rows.{User}
use uptime.Store.Exec.{Result, ok, err, Fates, World}
use uptime.Store.Accounts.{update_user_avatar}
use uptime.Http.Reply.{Reply, fault, json}
use uptime.Profile.{
  Unicode, ProfileResponse, respond_profile, unauthorized, invalid_name, gone_or, valid_name,
}

abbrev pub max_avatar_bytes : ℕ
max_avatar_bytes = 5 * 2 ^ 20

-- The pattern of names: 8-4-4-4-12 lowercase hexadecimal digits, then .png or .jpg.
abbrev hex_digit : ℕ → Bool
hex_digit b = (leb b'0' b && leb b b'9') || (leb b'a' b && leb b b'f')

hex_run : ℕ → Bytes → Option Bytes
hex_run zero bs = some bs
hex_run (suc n) [] = none
hex_run (suc n) (b ∷ bs) = if hex_digit b then hex_run n bs else none

after_dash : Option Bytes → Option Bytes
after_dash none = none
after_dash (some []) = none
after_dash (some (b ∷ bs)) = if b == b'-' then some bs else none

abbrev then_run : ℕ → Option Bytes → Option Bytes
then_run n none = none
then_run n (some bs) = hex_run n bs

abbrev is_extension : Option Bytes → Bool
is_extension none = false
is_extension (some bs) = bytes_eq bs (codes ".png") || bytes_eq bs (codes ".jpg")

unfoldable pub avatar_filename : Bytes → Bool
unfolding hex_run after_dash
avatar_filename name = is_extension (
    then_run 12 (
      after_dash (
        then_run 4
          (after_dash (then_run 4 (after_dash (then_run 4 (after_dash (hex_run 8 name)))))))))

pub data Format : Type 0 where
  png jpeg other : Format

pub record Config : Type 0 where
  pub format : Format
  pub width : ℕ
  pub height : ℕ

-- An image is what decoding leaves of it.
pub record Images : Type 0 where
  pub decode_config : Bytes → Option Config
  pub decode : Bytes → Option Bytes
  pub encode : Format → Bytes → Option Bytes

abbrev allowed : Config → Bool
allowed k =
    elim k.format [ png ↦ true | jpeg ↦ true | other ↦ false ]
    && leb 1 k.width
    && leb 1 k.height
    && leb k.width 2048
    && leb k.height 2048

abbrev decoded_as : Format → Option Bytes → Option (Bytes × Format)
decoded_as format none = none
decoded_as format (some image) = some (image, format)

abbrev checked_config : Images → Bytes → Option Config → Option (Bytes × Format)
checked_config images data_bytes none = none
checked_config images data_bytes (some k) =
    if allowed k then decoded_as k.format (images.decode data_bytes) else none

unfoldable pub decode_avatar : Images → Bytes → Option (Bytes × Format)
decode_avatar images data_bytes = checked_config images data_bytes (images.decode_config data_bytes)

-- What ParseMultipartForm leaves. A part has its announced size, and what reading it gives.
pub record Part : Type 0 where
  pub size : ℕ
  pub content : Option Bytes

pub data Multipart : Type 0 where
  oversize malformed : Multipart
  form : List (Bytes × Part) → List (Bytes × Bytes) → Multipart

pub record File : Type 0 where
  pub name : Bytes
  pub content : Bytes

abbrev pub has_file : Bytes → List File → Bool
has_file name [] = false
has_file name (f ∷ fs) = bytes_eq f.name name || has_file name fs

abbrev pub remove : Bytes → List File → List File
remove name fs = delete (λ f. bytes_eq f.name name) fs

-- The names that are drawn, and which operations on files succeed.
pub record Disk : Type 0 where
  pub temp : Bytes
  pub uuid : Bytes
  pub mkdir_ok : Bool
  pub create_ok : Bool
  pub close_ok : Bool
  pub rename_ok : Bool
  pub remove_ok : Bytes → Bool

abbrev pub try_remove : Disk → Bytes → List File → List File
try_remove disk name fs = if disk.remove_ok name then remove name fs else fs

-- The answer, the files and the database after a request.
abbrev pub Saved : Type 0
Saved = (Reply ProfileResponse × List File) × World

abbrev pub extension : Format → Bytes
extension png = codes ".png"
extension jpeg = codes ".jpg"
extension other = codes ".png"

abbrev pub avatar_error : {A : Type 0} → Reply A
avatar_error = fault 500 (codes "internal_error") (codes "Unable to save avatar. Please try again")

abbrev too_large : {A : Type 0} → Reply A
too_large = fault 413 (codes "avatar_too_large") (codes "Choose an image under 5 MB")

abbrev clean_up : Disk → Bytes → List File → List File
clean_up disk old files = if avatar_filename old then try_remove disk old files else files

-- The row names the file `target`, or the file goes.
unfoldable pub recorded : Disk → Bytes → List File → Result (User × Bytes) → World → Saved
recorded disk target files (ok (u, old)) w = ((respond_profile u, clean_up disk old files), w)
recorded disk target files (err e) w =
    ((gone_or (codes "Unable to save avatar. Please try again") e, try_remove disk target files), w)

unfoldable pub record_file : Disk → ℕ → Bytes → Bytes → List File → Fates → World → Saved
unfolding recorded
record_file disk id name target files fs w =
    let (r, w') = update_user_avatar id name target fs w in recorded disk target files r w'

-- The deferred removal of the temporary file.
abbrev dispose : Disk → Saved → Saved
dispose disk ((r, files), w) = ((r, try_remove disk disk.temp files), w)

-- The temporary file is written; it becomes `target`, and the row is changed.
place_file : Disk → ℕ → Bytes → Bytes → Bytes → List File → Fates → World → Saved
unfolding record_file
place_file disk id name target content files fs w =
    let written = record { name = disk.temp; content = content } ∷ files in
    let placed = record { name = target; content = content } ∷ remove target files in
    if disk.close_ok
    then (if disk.rename_ok
        then dispose disk (record_file disk id name target placed fs w)
        else dispose disk ((avatar_error, written), w))
    else dispose disk ((avatar_error, written), w)

encoded : Disk → ℕ → Bytes → Bytes → Option Bytes → List File → Fates → World → Saved
unfolding place_file
encoded disk id name target none files fs w =
    dispose disk ((avatar_error, record { name = disk.temp; content = [] } ∷ files), w)
encoded disk id name target (some content) files fs w =
    place_file disk id name target content files fs w

save_image : Images → Disk → ℕ → Bytes → Option (Bytes × Format) → List File → Fates → World → Saved
unfolding encoded
save_image images disk id name none files fs w = (
  (
    fault 400 (codes "invalid_avatar")
        (codes "Choose a valid JPEG or PNG up to 2048 × 2048 pixels"),
    files,
  ),
  w,
)
save_image images disk id name (some (image, format)) files fs w =
    if disk.mkdir_ok && disk.create_ok
    then encoded disk id name (disk.uuid ++ extension format) (images.encode format image) files fs
        w
    else ((avatar_error, files), w)

-- One byte more than allowed is read.
read_part : Images → Disk → ℕ → Bytes → Option Bytes → List File → Fates → World → Saved
unfolding save_image
read_part images disk id name none files fs w = ((avatar_error, files), w)
read_part images disk id name (some content) files fs w =
    let data_bytes = take (suc max_avatar_bytes) content in
    if ltb max_avatar_bytes (length data_bytes)
    then ((too_large, files), w)
    else save_image images disk id name (decode_avatar images data_bytes) files fs w

module _ (text : Unicode) (images : Images) (disk : Disk) where
  named_part : ℕ → Bytes → Part → List File → Fates → World → Saved
  unfolding read_part
  named_part id name part files fs w =
      if not (valid_name text name)
      then ((invalid_name, files), w)
      else if ltb max_avatar_bytes part.size
      then ((too_large, files), w)
      else read_part images disk id name part.content files fs w

  abbrev wrong_fields : {A : Type 0} → Reply A
  wrong_fields = fault 400 (codes "invalid_request") (codes "Provide only name and one avatar file")

  parsed : ℕ → Multipart → List File → Fates → World → Saved
  unfolding named_part
  parsed id oversize files fs w = ((too_large, files), w)
  parsed id malformed files fs w =
      ((fault 400 (codes "invalid_avatar") (codes "Choose a JPEG or PNG image"), files), w)
  parsed id (form ((k, part) ∷ []) ((k', name) ∷ [])) files fs w =
      if bytes_eq k (codes "avatar") && bytes_eq k' (codes "name")
      then named_part id (text.trim_space name) part files fs w
      else ((wrong_fields, files), w)
  parsed id (form _ _) files fs w = ((wrong_fields, files), w)

  unfoldable pub upload_avatar : Option ℕ → Multipart → List File → Fates → World → Saved
  unfolding parsed
  upload_avatar none body files fs w = ((unauthorized, files), w)
  upload_avatar (some id) body files fs w = parsed id body files fs w

-- What serving reads: the file and its media type, if it is there.
abbrev file_content : Bytes → List File → Option Bytes
file_content name [] = none
file_content name (f ∷ fs) = if bytes_eq f.name name then some f.content else file_content name fs

abbrev has_suffix : Bytes → Bytes → Bool
has_suffix suffix [] = bytes_eq suffix []
has_suffix suffix (b ∷ bs) = bytes_eq suffix (b ∷ bs) || has_suffix suffix bs

abbrev typed : Bytes → Option Bytes → Option (Bytes × Bytes)
typed name none = none
typed name (some content) =
    some
      (content, (if has_suffix (codes ".jpg") name then codes "image/jpeg" else codes "image/png"))

unfoldable pub serve_avatar : Bytes → List File → Option (Bytes × Bytes)
serve_avatar name files =
    if avatar_filename name then typed name (file_content name files) else none
