-- ===== src/Monitor/Controller/Handlers/Pages.antt =====
-- One page of list: what it shows, and the cursor that it hands out.
use uptime.Prelude.{
  ℕ, zero, suc, ◌≤◌, ◌<◌, ◌≡◌, refl, ap, sym, ◌∙◌, Bool, true, false, Option, some, List, [], ◌∷◌,
  ◌++◌, map, length, take, length-append, All, arith, Bytes, ltb,
}
use uptime.Store.Rows.{Monitor, Db}
use uptime.Store.Exec.{World, all_fine}
use uptime.Store.Monitors.{MonitorCursor, page_size, page, monitors_by_user}
use uptime.Store.Statuses.{MonitorStatus, monitor_statuses}
use uptime.Store.Statuses.Complete.Present.{Unique, HasState, Own, statuses_found}
use uptime.Http.Reply.{Reply, json}
use uptime.Monitor.Controller.Cursor.{Codec, parse_cursor, next_cursor}
use uptime.Monitor.Controller.Statistics.{
  MonitorResponse, with_favicons, attach, identities, add_statuses,
}
use uptime.Monitor.Controller.Handlers.{
  Surroundings, ListResponse, list, list_after, list_page, cut_page, last_cursor, last_of,
}

module _ {A : Type 0} where
  pub nth_split :
      (n : ℕ) (xs : List A)
      → n < length xs
      → (front : List A) × (m : A) × (rest : List A) × (xs ≡ front ++ m ∷ rest) × (length front ≡ n)
  nth_split n [] h = absurd (omega (arith, h))
  nth_split zero (x ∷ xs) h = ([], x, xs, refl, refl)
  nth_split (suc n) (x ∷ xs) h =
      let (front, m, rest, e, l) = nth_split n xs (omega (arith, h)) in
      (x ∷ front, m, rest, ap (λ l. x ∷ l) e, omega (arith, l))

  pub take_front :
      (front : List A) (m : A) (rest : List A)
      → take (suc (length front)) (front ++ m ∷ rest) ≡ front ++ m ∷ []
  take_front [] m rest = refl
  take_front (x ∷ xs) m rest = ap (λ l. x ∷ l) (take_front xs m rest)

  pub take-take : (n : ℕ) (xs : List A) → take n (take (suc n) xs) ≡ take n xs
  take-take zero xs = refl
  take-take (suc n) [] = refl
  take-take (suc n) (x ∷ xs) = ap (λ l. x ∷ l) (take-take n xs)

  pub length-take : (n : ℕ) (xs : List A) → n ≤ length xs → length (take n xs) ≡ n
  length-take zero xs h = refl
  length-take (suc n) [] h = absurd (omega (arith, h))
  length-take (suc n) (x ∷ xs) h = omega (arith, length-take n xs (omega (arith, h)))

  pub take_enough : (n : ℕ) (xs : List A) → length xs ≤ n → take n xs ≡ xs
  take_enough zero [] h = refl
  take_enough zero (x ∷ xs) h = absurd (omega (arith, h))
  take_enough (suc n) [] h = refl
  take_enough (suc n) (x ∷ xs) h = ap (λ l. x ∷ l) (take_enough n xs (omega (arith, h)))

pub identities-with_favicons :
    (icon : Bytes → Bytes) (ms : List Monitor)
    → identities (with_favicons icon ms) ≡ map Monitor.id ms
unfolding identities with_favicons
identities-with_favicons icon [] = refl
identities-with_favicons icon (m ∷ ms) = ap (λ l. m.id ∷ l) (identities-with_favicons icon ms)

pub attach-with_favicons :
    (icon : Bytes → Bytes) (ss : List MonitorStatus) (ms : List Monitor)
    → map MonitorResponse.monitor (attach ss (with_favicons icon ms)) ≡ ms
unfolding attach with_favicons
attach-with_favicons icon ss [] = refl
attach-with_favicons icon ss (m ∷ ms) = ap (λ l. m ∷ l) (attach-with_favicons icon ss ms)

module _ (c : Codec) (trim_space : Bytes → Bytes) (valid_url : Bytes → Bool) (env : Surroundings)
    (user : ℕ) where
  last_cursor-append :
      (front : List Monitor) (m : Monitor)
      → last_cursor c trim_space valid_url env (front ++ m ∷ []) ≡ next_cursor c m
  unfolding last_cursor last_of
  last_cursor-append [] m = refl
  last_cursor-append (x ∷ []) m = refl
  last_cursor-append (x ∷ y ∷ ys) m = last_cursor-append (y ∷ ys) m

  pub last_page :
      (ms : List Monitor)
      → length ms ≤ page_size
      → cut_page c trim_space valid_url env (take (suc page_size) ms) ≡ (ms, [])
  unfolding cut_page
  last_page ms h =
      let whole = take_enough (suc page_size) ms (omega (arith, h)) in
      let short : ltb page_size (length ms) ≡ false = ground (arith, h) in rw (whole, short) refl

  pub full_page :
      (front rest : List Monitor) (m : Monitor)
      → suc (length front) ≡ page_size
      → 0 < length rest
      → cut_page c trim_space valid_url env (take (suc page_size) (front ++ m ∷ rest))
        ≡ (front ++ m ∷ [], next_cursor c m)
  unfolding cut_page
  full_page front rest m l p =
      let all = front ++ m ∷ rest in
      let long =
        length-take (suc page_size) all (omega (arith, length-append front (m ∷ rest), l, p)) in
      let more : ltb page_size (length (take (suc page_size) all)) ≡ true = ground (arith, long) in
      let shown : take page_size (take (suc page_size) all) ≡ front ++ m ∷ [] =
        take-take page_size all ∙ ap (λ n. take n all) (sym l) ∙ take_front front m rest in
      rw (more, shown, last_cursor-append front m) refl

  abbrev pub Shown : Db → List Monitor → Bytes → Reply ListResponse × World → Type 0
  Shown db ms cursor answer =
      (rs : List MonitorResponse) × (w : World) × (answer
        ≡ (json 200 (record { monitors = rs; next_cursor = cursor }), w))
      × (w.db ≡ db)
      × (map MonitorResponse.monitor rs ≡ ms)

  list_page-Shown :
      (w : World) (found shown : List Monitor) (cursor : Bytes)
      → Unique w.db.monitors
      → All (HasState w.db) w.db.monitors
      → cut_page c trim_space valid_url env found ≡ (shown, cursor)
      → Unique shown
      → All (Own user w.db.monitors) (map Monitor.id shown)
      → Shown w.db shown cursor (list_page c trim_space valid_url env user found all_fine w)
  unfolding list_page add_statuses
  list_page-Shown w found shown cursor unique states cut u own =
      let ids = map Monitor.id shown in
      let same = identities-with_favicons env.icon shown in
      let (ss, e, kept) = statuses_found env.now user ids w unique states u own in
      (
        attach ss (with_favicons env.icon shown),
        (monitor_statuses env.now user ids all_fine w).1,
        rw (cut, same, e) refl,
        kept,
        attach-with_favicons env.icon ss shown,
      )

  pub list-Shown :
      (w : World) (raw : Bytes) (after : Option MonitorCursor) (found shown : List Monitor)
      (cursor : Bytes)
      → Unique w.db.monitors
      → All (HasState w.db) w.db.monitors
      → parse_cursor c raw ≡ some after
      → page user after w.db.monitors ≡ found
      → cut_page c trim_space valid_url env found ≡ (shown, cursor)
      → Unique shown
      → All (Own user w.db.monitors) (map Monitor.id shown)
      → Shown w.db shown cursor (list c trim_space valid_url env (some user) raw all_fine w)
  unfolding list list_after monitors_by_user
  list-Shown w raw after found shown cursor unique states parsed paged cut u own =
      rw (parsed, paged)
        (list_page-Shown (record w { tick = suc w.tick }) found shown cursor unique states cut u
          own)
