-- ===== src/Profile/Avatar/Tests.antt =====
-- Uploads by the sample user, and theorems of Profile/Avatar's modules at work.
use uptime.Prelude.{
  ◌≡◌, refl, true, false, some, [], ◌∷◌, Bytes, codes, bytes_eq, find, length, arith, ◌==◌,
  if◌then◌else◌,
}
use uptime.Samples.{alice, sample}
use uptime.Store.Exec.{all_fine, start, Fates, fine, lost}
use uptime.Store.Accounts.{find_user}
use uptime.Profile.{Unicode}
use uptime.Profile.Avatar.{
  File, Disk, Images, png, Multipart, form, has_file, avatar_error, record_file, upload_avatar,
  avatar_filename, hex_run, after_dash,
}
use uptime.Profile.Avatar.Served.{Served, Good, Fresh, NothingLost, upload_avatar-Good}
use uptime.Profile.Avatar.Lost.{record_file_lost}

abbrev plain_text : Unicode
plain_text = record {
  trim_space = λ b. b;
  valid_utf8 = λ b. true;
  rune_count = length;
  has_control = λ b. false;
}

-- A picture is its own encoding.
abbrev raw_images : Images
raw_images = record {
  decode_config = λ b. some (record { format = png; width = 2; height = 2 });
  decode = λ b. some b;
  encode = λ format b. some b;
}

abbrev disk : Disk
disk = record {
  temp = codes ".upload-1";
  uuid = codes "00000000-0000-4000-8000-0123456789ab";
  mkdir_ok = true;
  create_ok = true;
  close_ok = true;
  rename_ok = true;
  remove_ok = λ name. true;
}

abbrev stored : Bytes
stored = codes "00000000-0000-4000-8000-0123456789ab.png"

abbrev body : Multipart
body =
    form ((codes "avatar", record { size = 3; content = some (1 ∷ 2 ∷ 3 ∷ []) }) ∷ [])
      ((codes "name", codes "Alice") ∷ [])

test_stored : avatar_filename stored ≡ true
unfolding avatar_filename hex_run after_dash bytes_eq
test_stored = refl

test_traversal : avatar_filename (codes "../../secret.png") ≡ false
unfolding avatar_filename hex_run after_dash
test_traversal = refl

all_kept : NothingLost all_fine
all_kept n h = ground arith

sample-Served : Served sample.users []
unfolding bytes_eq
sample-Served = (refl, refl, (refl, tt))

disk-Fresh : Fresh disk sample.users
unfolding bytes_eq
disk-Fresh = (refl, refl, refl, refl, refl)

upload_avatar-Good_example :
    Good (upload_avatar plain_text raw_images disk (some 1) body [] all_fine (start sample))
upload_avatar-Good_example =
    upload_avatar-Good all_fine all_kept plain_text raw_images disk [] (start sample) sample-Served
      disk-Fresh (some 1) body

abbrev picture : File
picture = record { name = stored; content = 1 ∷ 2 ∷ 3 ∷ [] }

abbrev unheard : Fates
unheard n = if n == 2 then lost else fine

found : find_user 1 sample ≡ some alice
unfolding find
found = refl

record_file_lost_example :
    ((record_file disk 1 (codes "Alice") stored (picture ∷ []) unheard (start sample)).0.0
      ≡ avatar_error)
    × (find_user 1
          (record_file disk 1 (codes "Alice") stored (picture ∷ []) unheard (start sample)).1.db
        ≡ some (record alice { name = codes "Alice"; avatar_file = stored }))
    × (has_file stored
          (record_file disk 1 (codes "Alice") stored (picture ∷ []) unheard (start sample)).0.1
        ≡ false)
record_file_lost_example =
    record_file_lost disk 1 (codes "Alice") stored (picture ∷ []) unheard (start sample) alice refl
      refl refl found refl
