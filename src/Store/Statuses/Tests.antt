-- ===== src/Store/Statuses/Tests.antt =====
-- Statuses on the sample database, and the theorem of Store/Statuses/Complete at work.
use uptime.Prelude.{◌≡◌, refl, true, some, [], ◌∷◌, find, ◌*◌}
use uptime.Samples.{sample, alice, site, leased}
use uptime.Store.Exec.{ok, err, record_not_found, all_fine, start}
use uptime.Store.Rows.{second}
use uptime.Store.Statuses.{stale, status_at, status_row, status_rows, one_of, monitor_statuses}
use uptime.Store.Statuses.Complete.{distinct, Answers, monitor_statuses-Answers}

test_foreign : (monitor_statuses 0 99 (10 ∷ []) all_fine (start sample)).0 ≡ err record_not_found
unfolding monitor_statuses status_rows one_of
test_foreign = refl

test_stale :
    status_at (21 * second) 5 (record leased { last_started_at = some 0; last_success = some true })
    ≡ stale
unfolding status_at
test_stale = refl

apart : distinct (10 ∷ 11 ∷ []) ≡ true
unfolding one_of
apart = refl

found :
    (monitor_statuses 0 alice.id (10 ∷ []) all_fine (start sample)).0
    ≡ ok (status_row 0 site leased ∷ [])
unfolding monitor_statuses status_rows one_of find
found = refl

monitor_statuses-Answers_example : Answers alice.id (10 ∷ []) sample (status_row 0 site leased ∷ [])
monitor_statuses-Answers_example =
    monitor_statuses-Answers 0 alice.id (10 ∷ []) all_fine (start sample)
      (status_row 0 site leased ∷ []) apart found
