-- ===== src/Monitor/Controller/Handlers/Listing.antt =====
-- A client that follows the cursors of list: it stops, with the whole list of the user's monitors.
use mathlib.Core.List.{append_assoc, map-append}
use uptime.Prelude.{
  ℕ, zero, suc, ◌*◌, ◌≤◌, ◌<◌, ◌≡◌, refl, ap, sym, subst, ◌∙◌, Bool, Option, none, some, List, [],
  ◌∷◌, ◌++◌, map, length, take, length-append, All, arith, Bytes, bytes_eq, ltb, if◌then◌else◌,
  Bool-cases, inl, inr,
}
use uptime.Store.Rows.{Monitor, Db}
use uptime.Store.Exec.{World, all_fine}
use uptime.Store.Monitors.{MonitorCursor, page_size, page}
use uptime.Store.Monitors.Pages.{cursor_of, page_first, page_next}
use uptime.Store.Statuses.Complete.Present.{
  Unique, HasState, Own, listed, listed-Unique, listed-Own, other_ids, Unique-right, Unique-left,
}
use uptime.Http.Reply.{Reply, fault, json, bare}
use uptime.Monitor.Controller.Cursor.{Codec, parse_cursor, next_cursor}
use uptime.Monitor.Controller.Cursor.RoundTrip.{
  CodecLaws, IsNamed, next_cursor_some, parse_cursor-next_cursor,
}
use uptime.Monitor.Controller.Statistics.{MonitorResponse}
use uptime.Monitor.Controller.Handlers.{Surroundings, ListResponse, list}
use uptime.Monitor.Controller.Handlers.Pages.{nth_split, last_page, full_page, list-Shown}

module _ (c : Codec) (trim_space : Bytes → Bytes) (valid_url : Bytes → Bool) (env : Surroundings)
    (user : ℕ) where
  abbrev prepend :
      List MonitorResponse → Option (List MonitorResponse) → Option (List MonitorResponse)
  prepend rs none = none
  prepend rs (some more) = some (rs ++ more)

  abbrev next_page :
      (Bytes → World → Option (List MonitorResponse))
      → Reply ListResponse × World
      → Option (List MonitorResponse)
  next_page go (json code r, w) =
      if bytes_eq r.next_cursor [] then some r.monitors else prepend r.monitors (go r.next_cursor w)
  next_page go (fault code kind message, w) = none
  next_page go (bare code, w) = none

  -- What the client has gathered after at most n pages; `none` if there were more, or an error.
  unfoldable pub follow : ℕ → Bytes → World → Option (List MonitorResponse)
  follow zero raw w = none
  follow (suc n) raw w =
      next_page (follow n) (list c trim_space valid_url env (some user) raw all_fine w)

own_right :
    (P : ℕ → Type 0) (xs ys : List Monitor)
    → All P (map Monitor.id (xs ++ ys))
    → All P (map Monitor.id ys)
own_right P [] ys h = h
own_right P (x ∷ xs) ys h = own_right P xs ys h.1

own_left :
    (P : ℕ → Type 0) (xs ys : List Monitor)
    → All P (map Monitor.id (xs ++ ys))
    → All P (map Monitor.id xs)
own_left P [] ys h = tt
own_left P (x ∷ xs) ys h = (h.0, own_left P xs ys h.1)

named_middle :
    (P : Monitor → Type 0) (xs ys : List Monitor) (m : Monitor) → All P (xs ++ m ∷ ys) → P m
named_middle P [] ys m h = h.0
named_middle P (x ∷ xs) ys m h = named_middle P xs ys m h.1

-- A table with its keys, in which each monitor has its state and its name fits a cursor.
abbrev pub Ready : ℕ → Db → Type 0
Ready user db =
    Unique db.monitors × All (HasState db) db.monitors × All IsNamed (listed user db.monitors)

-- The client stands before `back`, which follows `front` in the list.
abbrev Before : ℕ → Db → List Monitor → List Monitor → Option MonitorCursor → Type 0
Before user db front back after =
    Ready user db
    × (listed user db.monitors ≡ front ++ back)
    × (page user after db.monitors ≡ take (suc page_size) back)

module _ (c : Codec) (laws : CodecLaws c) (trim_space : Bytes → Bytes) (valid_url : Bytes → Bool)
    (env : Surroundings) (user : ℕ) where
  abbrev Gathered : Option (List MonitorResponse) → List Monitor → Type 0
  Gathered o ms =
      (rs : List MonitorResponse) × (o ≡ some rs) × (map MonitorResponse.monitor rs ≡ ms)

  gather :
      (rs : List MonitorResponse) (ms ns : List Monitor) (o : Option (List MonitorResponse))
      → map MonitorResponse.monitor rs ≡ ms
      → Gathered o ns
      → Gathered (prepend c trim_space valid_url env user rs o) (ms ++ ns)
  gather rs ms ns o e (more, e', s) =
      (rs ++ more, rw e' refl, map-append MonitorResponse.monitor rs more ∙ rw (e, s) refl)

  full_step :
      (n : ℕ) (w : World) (raw : Bytes) (front f rest : List Monitor) (m : Monitor)
      (after : Option MonitorCursor)
      → Before user w.db front (f ++ m ∷ rest) after
      → parse_cursor c raw ≡ some after
      → suc (length f) ≡ page_size
      → 0 < length rest
      → ((w' : World)
          → Before user w'.db ((front ++ f) ++ m ∷ []) rest (some (cursor_of m))
          → Gathered (follow c trim_space valid_url env user n (next_cursor c m) w') rest)
      → Gathered (follow c trim_space valid_url env user (suc n) raw w) (f ++ m ∷ rest)
  unfolding follow
  full_step n w raw front f rest m after (ready, cut, paged) parsed l more go =
      let monitors = w.db.monitors in
      let back = f ++ m ∷ rest in
      let whole : listed user monitors ≡ (front ++ f) ++ m ∷ rest =
        cut ∙ sym (append_assoc front f (m ∷ rest)) in
      let u = Unique-right front back (subst Unique cut (listed-Unique user monitors ready.0)) in
      let own =
        own_right (Own user monitors) front back (
          subst (λ z. All (Own user monitors) (map Monitor.id z)) cut (listed-Own user monitors)) in
      let apart : back ≡ (f ++ m ∷ []) ++ rest = sym (append_assoc f (m ∷ []) rest) in
      let (rs, w', e, kept, s) =
        list-Shown c trim_space valid_url env user w raw after (take (suc page_size) back)
          (f ++ m ∷ []) (next_cursor c m) ready.0 ready.1 parsed paged
          (full_page c trim_space valid_url env user f rest m l more)
          (Unique-left (f ++ m ∷ []) rest (subst Unique apart u))
          (own_left (Own user monitors) (f ++ m ∷ []) rest
            (subst (λ z. All (Own user monitors) (map Monitor.id z)) apart own)) in
      let named = named_middle IsNamed (front ++ f) rest m (subst (All IsNamed) whole ready.2) in
      let later : Before user w.db ((front ++ f) ++ m ∷ []) rest (some (cursor_of m)) = (
        ready,
        whole ∙ sym (append_assoc (front ++ f) (m ∷ []) rest),
        (page_next user monitors (front ++ f) rest m whole
            (other_ids m rest (Unique-right f (m ∷ rest) u))).1,
      ) in
      let given = next_cursor_some c laws m named in
      let here =
        subst (λ d. Before user d ((front ++ f) ++ m ∷ []) rest (some (cursor_of m))) (sym kept)
          later in
      subst (Gathered (follow c trim_space valid_url env user (suc n) raw w)) (sym apart) (
        rw (e, given)
          (gather rs (f ++ m ∷ []) rest
            (follow c trim_space valid_url env user n (next_cursor c m) w') s (go w' here)))

  follow_from :
      (n : ℕ) (w : World) (raw : Bytes) (front back : List Monitor) (after : Option MonitorCursor)
      → Before user w.db front back after
      → parse_cursor c raw ≡ some after
      → 0 < n
      → length back ≤ n * page_size
      → Gathered (follow c trim_space valid_url env user n raw w) back
  unfolding follow bytes_eq
  follow_from zero w raw front back after b parsed p h = absurd (omega (arith, p))
  follow_from (suc n) w raw front back after (ready, split, paged) parsed p h =
      let u =
        Unique-right front back (subst Unique split (listed-Unique user w.db.monitors ready.0)) in
      let own = own_right (Own user w.db.monitors) front back (
        subst (λ l. All (Own user w.db.monitors) (map Monitor.id l)) split
          (listed-Own user w.db.monitors)) in
      elim (Bool-cases (ltb page_size (length back))) [
        | inr short ↦
            let (rs, w', e, kept, s) =
              list-Shown c trim_space valid_url env user w raw after (take (suc page_size) back)
                back [] ready.0 ready.1 parsed paged
                (last_page c trim_space valid_url env user back (ground (arith, short))) u own in
            (rs, rw e refl, s)
        | inl long ↦
            let (f, m, rest, e, l) = nth_split 49 back (ground (arith, long)) in
            let size = length-append f (m ∷ rest) in
            let sized = ap length e in
            subst (Gathered (follow c trim_space valid_url env user (suc n) raw w)) (sym e) (
              full_step n w raw front f rest m after
                (subst (λ b. Before user w.db front b after) e (ready, split, paged)) parsed
                (omega (arith, l)) (ground (arith, long, size, sized, l))
                (λ w' before.
                  follow_from n w' (next_cursor c m) ((front ++ f) ++ m ∷ []) rest
                    (some (cursor_of m)) before
                    (parse_cursor-next_cursor c laws m (
                      named_middle IsNamed (front ++ f) rest m (
                        subst (All IsNamed)
                          (subst (λ b. listed user w.db.monitors ≡ front ++ b) e split
                            ∙ sym (append_assoc front f (m ∷ rest)))
                          ready.2)))
                    (ground (arith, long, size, sized, l, h))
                    (ground (arith, long, size, sized, l, h))))
      ]

  -- where statements run, monitors have distinct identities and their states, and the names of
  -- the user's monitors fit a cursor, a client that follows the cursors of list from the first
  -- page stops, after at most as many pages as the list has fifties (one if it is empty), and has
  -- then the monitors of the user, each once, in the order of the list.
  pub follow-listed :
      (n : ℕ) (w : World)
      → Ready user w.db
      → 0 < n
      → length (listed user w.db.monitors) ≤ n * page_size
      → (rs : List MonitorResponse) × (follow c trim_space valid_url env user n [] w ≡ some rs)
        × (map MonitorResponse.monitor rs ≡ listed user w.db.monitors)
  unfolding parse_cursor bytes_eq
  follow-listed n w ready p h =
      follow_from n w [] [] (listed user w.db.monitors) none
        (ready, refl, page_first user w.db.monitors) refl p h
