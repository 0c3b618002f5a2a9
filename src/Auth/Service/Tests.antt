-- ===== src/Auth/Service/Tests.antt =====
-- Sessions on the sample database.
use uptime.Prelude.{◌≡◌, ◌≢◌, refl, true, some, [], find, bytes_eq, update}
use uptime.Store.Exec.{ok, err, unauthorized, start, all_fine, World, transaction}
use uptime.Store.Accounts.{
  find_session, find_token, token_row, lock_session, use_token, create_token, insert_token,
}
use uptime.Auth.Crypto.{valid_refresh, refresh_hash, issue_access}
use uptime.Auth.Service.{Grant, no_user, grant_of, refresh, rotate}
use uptime.Auth.Service.Rotation.{Rotated}
use uptime.Auth.Service.Reuse.{refresh-Rotated, refresh_once, replay_revokes}
use uptime.Samples.{sample, plain, raw_token, draws, used_token, open_session}

abbrev world : World
world = start sample

abbrev second_pair : Grant
second_pair = grant_of plain no_user [] (raw_token 3) 9_000

refreshed : (refresh plain (λ d. d) (raw_token 1) (draws 3 200) all_fine world).0 ≡ ok second_pair
unfolding refresh valid_refresh refresh_hash rotate transaction token_row lock_session use_token
    create_token insert_token issue_access find bytes_eq update
refreshed = refl

refresh-Rotated_example :
    Rotated plain 200
      (refresh_hash plain (raw_token 1))
      sample
      sample
      second_pair
      (refresh plain (λ d. d) (raw_token 1) (draws 3 200) all_fine world).1.db
refresh-Rotated_example =
    refresh-Rotated plain (λ d. d) (raw_token 1) (draws 3 200) all_fine world second_pair refreshed

refresh_once_example :
    (refresh plain
      (λ d. d)
      (raw_token 1)
      (draws 4 300)
      all_fine
      (refresh plain (λ d. d) (raw_token 1) (draws 3 200) all_fine world).1).0
    ≢ ok second_pair
refresh_once_example =
    refresh_once plain (λ d. d) (raw_token 1) (draws 3 200) (draws 4 300) all_fine all_fine world _
      second_pair refreshed refl second_pair

valid_used : valid_refresh plain (raw_token 2) ≡ true
unfolding valid_refresh bytes_eq
valid_used = refl

found_used : find_token (refresh_hash plain (raw_token 2)) sample ≡ some used_token
unfolding find refresh_hash
found_used = refl

found_session : find_session 5 sample ≡ some open_session
unfolding find
found_session = refl

replay_revokes_example :
    ((refresh plain (λ d. d) (raw_token 2) (draws 3 200) all_fine world).0 ≡ err unauthorized)
    × (find_session 5 (refresh plain (λ d. d) (raw_token 2) (draws 3 200) all_fine world).1.db
        ≡ some (record open_session { revoked_at = some 200 }))
replay_revokes_example =
    replay_revokes plain (λ d. d) (raw_token 2) (draws 3 200) world used_token used_token
      open_session valid_used found_used found_session refl found_used refl
