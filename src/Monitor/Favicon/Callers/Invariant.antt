-- ===== src/Monitor/Favicon/Callers/Invariant.antt =====
-- What every interleaving of callers keeps: who leads which call, and who holds a slot.
use uptime.Prelude.{
  ℕ, ◌+◌, ◌-◌, ◌≤◌, ◌<◌, ◌≡◌, ◌≢◌, refl, sym, ap, ◌∙◌, inl, inr, Bool, true, false, not, ◌&&◌, ◌||◌,
  List, [], ◌∷◌, delete, Bytes, bytes_eq, bytes_eq_iff, Bool-cases, arith, ◌==◌, ltb, Option, none,
  some,
}
use uptime.Monitor.Favicon.{
  Entry, Fetcher, Lookup, hit, wait, call, cached, flying, join_or_call, fresh_or, look_up,
  complete,
}
use uptime.Monitor.Favicon.Callers.{
  Place, passed, following, leading, fetching, fetched, done, returned, System, slot_limit, put,
  asked, checked, woken, finished, Step, look, ask, wake, give_up, enter, leave, finish, abandon,
  Reach, here, step, expire, Fresh,
}
use uptime.Monitor.Favicon.Callers.Totals.{total, total-one, le-total, total-zero}

abbrev pub leads : Place → Bool
leads leading = true
leads fetching = true
leads (fetched image timed_out) = true
leads _ = false

abbrev pub is_done : Place → Bool
is_done (done image retry) = true
is_done _ = false

abbrev pub holds : Place → ℕ
holds fetching = 1
holds _ = 0

same_bytes : (u : Bytes) → bytes_eq u u ≡ true
same_bytes u = (bytes_eq_iff u u).1 refl

pub flying-delete_iff :
    (u v : Bytes) (us : List Bytes)
    → flying u (delete (λ x. bytes_eq x v) us) ≡ (flying u us && not (bytes_eq v u))
unfolding flying delete
flying-delete_iff u v [] = refl
flying-delete_iff u v (x ∷ xs) =
    ground (arith, flying-delete_iff u v xs, bytes_eq_iff x v, bytes_eq_iff x u, bytes_eq_iff v u)

-- The three results of the locked section.
pub data Looked (url : Bytes) (f : Fetcher) : Lookup × Fetcher → Type 0 where
  found : (image : Bytes) → Looked url f (hit image, f)
  joined : flying url f.inflight ≡ true → Looked url f (wait, f)
  called :
      flying url f.inflight ≡ false → Looked url f (call, record f { inflight = url ∷ f.inflight })

pub look_up-Looked : (now : ℕ) (url : Bytes) (f : Fetcher) → Looked url f (look_up now url f)
unfolding look_up
look_up-Looked now url f = by_entry (cached url f.cache)
  where
    join : Looked url f (join_or_call url f)
    join = elim (Bool-cases (flying url f.inflight)) [
      | inl e ↦ rw e (joined e)
      | inr e ↦ rw e (called e)
    ]

    by_entry : (o : Option Entry) → Looked url f (fresh_or now url f o)
    by_entry none = join
    by_entry (some x) = elim (Bool-cases (ltb now x.expires)) [
      | inl e ↦ rw e (found x.image)
      | inr e ↦ rw e join
    ]

pub put_same : (i : ℕ) (p : Place) (place : ℕ → Place) → put i p place i ≡ p
put_same i p place = ground arith

pub put_other : (i j : ℕ) (p : Place) (place : ℕ → Place) → j ≢ i → put i p place j ≡ place j
put_other i j p place h = ground (arith, h)

pub put_alike :
    (f : Place → Bool) (i j : ℕ) (p : Place) (place : ℕ → Place)
    → f (place i) ≡ f p
    → f (put i p place j) ≡ f (place j)
put_alike f i j p place e = elim (Bool-cases (j == i)) [
  | inl h ↦ let at : j ≡ i = ground (arith, h) in rw h (rw at (sym e))
  | inr h ↦ rw h refl
]

module _ (n : ℕ) (url : ℕ → Bytes) where
  pub record Inv (s : System) : Type 0 where
    pub count : total n (λ i. holds (s.place i)) ≡ s.used
    pub few : s.used ≤ slot_limit
    pub lead :
        (i : ℕ)
        → i < n
        → leads (s.place i) ≡ true
        → (flying (url i) s.fetcher.inflight ≡ true) × (s.owner (url i) ≡ i)
    pub led :
        (u : Bytes)
        → flying u s.fetcher.inflight ≡ true
        → (s.owner u < n) × (leads (s.place (s.owner u)) ≡ true) × (url (s.owner u) ≡ u)
    pub follow :
        (i j : ℕ)
        → i < n
        → s.place i ≡ following j
        → (j < n) × ((leads (s.place j) || is_done (s.place j)) ≡ true) × (url j ≡ url i)

  put-total :
      (s : System) (i : ℕ) (p : Place)
      → i < n
      → total n (λ j. holds (put i p s.place j)) + holds (s.place i)
        ≡ total n (λ j. holds (s.place j)) + holds p
  put-total s i p lt =
      total-one n i (λ j. holds (s.place j)) (λ j. holds (put i p s.place j)) lt
        (λ j h. ap holds (put_other i j p s.place h))
      ∙ ap (λ x. total n (λ j. holds (s.place j)) + holds x) (put_same i p s.place)

  -- A step of one caller that leaves the calls in flight as they are.
  local-Inv :
      (s : System) (i used : ℕ) (p : Place)
      → Inv s
      → i < n
      → leads (s.place i) ≡ leads p
      → is_done (s.place i) ≡ is_done p
      → used + holds (s.place i) ≡ s.used + holds p
      → used ≤ slot_limit
      → ((j : ℕ) → p ≡ following j → (j < n) × (leads (s.place j) ≡ true) × (url j ≡ url i))
      → Inv (record s { used = used; place = put i p s.place })
  local-Inv s i used p v lt le de ue few to = record {
    count = omega (arith, put-total s i p lt, v.count, ue);
    few = few;
    lead = λ j jlt h. v.lead j jlt (sym (put_alike leads i j p s.place le) ∙ h);
    led = λ u h.
        let (low, leading_one, own_url) = v.led u h in
        (low, put_alike leads i (s.owner u) p s.place le ∙ leading_one, own_url);
    follow = λ j k jlt h. ground (
      arith,
      to k,
      v.follow j k jlt,
      put_alike leads i k p s.place le,
      put_alike is_done i k p s.place de,
    );
  }

  -- The caller makes a call.
  call-Inv :
      (s : System) (i : ℕ)
      → Inv s
      → i < n
      → s.place i ≡ passed
      → flying (url i) s.fetcher.inflight ≡ false
      → Inv (asked i (url i) s (call, record s.fetcher { inflight = url i ∷ s.fetcher.inflight }))
  unfolding flying
  call-Inv s i v lt at free = record {
    count = omega (arith, put-total s i leading lt, v.count, ap holds at);
    few = v.few;
    lead =
        λ j jlt h. ground (arith, v.lead j jlt, bytes_eq_iff (url i) (url j), same_bytes (url i));
    led = λ u h. ground (arith, v.led u, bytes_eq_iff (url i) u);
    follow = λ j k jlt h. ground (arith, v.follow j k jlt, at);
  }

  -- The caller ends its call.
  finished-Inv :
      (s : System) (i now k : ℕ) (timed_out : Bool) (image : Bytes)
      → Inv s
      → i < n
      → leads (s.place i) ≡ true
      → holds (s.place i) ≡ 0
      → Inv (finished i now k timed_out (url i) image s)
  unfolding complete
  finished-Inv s i now k timed_out image v lt leading_now free = record {
    count = omega (arith, put-total s i (done image (s.ended i)) lt, v.count, free);
    few = v.few;
    lead = λ j jlt h. ground (
      arith,
      v.lead j jlt,
      v.lead i lt leading_now,
      flying-delete_iff (url j) (url i) s.fetcher.inflight,
      bytes_eq_iff (url i) (url j),
    );
    led = λ u h. ground (
      arith,
      v.led u,
      v.lead i lt leading_now,
      flying-delete_iff u (url i) s.fetcher.inflight,
      bytes_eq_iff (url i) u,
    );
    follow = λ j k jlt h. ground (arith, v.follow j k jlt);
  }

  asked-Inv :
      (s : System) (i : ℕ) (r : Lookup × Fetcher)
      → Inv s
      → i < n
      → s.place i ≡ passed
      → Looked (url i) s.fetcher r
      → Inv (asked i (url i) s r)
  asked-Inv s i (hit image, f) v lt at (found _) =
      local-Inv s i s.used (returned image) v lt (ap leads at) (ap is_done at)
        (omega (arith, ap holds at)) v.few (λ j e. cc)
  asked-Inv s i (wait, f) v lt at (joined there) =
      let (low, leading_one, own_url) = v.led (url i) there in
      local-Inv s i s.used (following (s.owner (url i))) v lt (ap leads at) (ap is_done at)
        (omega (arith, ap holds at)) v.few (λ j e. ground arith)
  asked-Inv s i (call, f) v lt at (called free) = call-Inv s i v lt at free

  pub Step-Inv : {s t : System} → Step n url s t → Inv s → Inv t
  Step-Inv {s = s} (look i lt at) v =
      local-Inv s i s.used (checked (s.ended i) passed) v lt (ground (arith, at))
        (ground (arith, at)) (ground (arith, at)) v.few (ground arith)
  Step-Inv {s = s} (ask i now lt at) v =
      asked-Inv s i (look_up now (url i) s.fetcher) v lt at (look_up-Looked now (url i) s.fetcher)
  Step-Inv {s = s} (wake i j image retry lt at ended) v =
      local-Inv s i s.used (checked (s.ended i) (woken image retry)) v lt (ground (arith, at))
        (ground (arith, at)) (ground (arith, at)) v.few (ground arith)
  Step-Inv {s = s} (give_up i j lt at over) v =
      local-Inv s i s.used (returned []) v lt (ap leads at) (ap is_done at)
        (omega (arith, ap holds at)) v.few (λ k e. cc)
  Step-Inv {s = s} (enter i lt at room) v =
      local-Inv s i (s.used + 1) fetching v lt (ap leads at) (ap is_done at)
        (omega (arith, ap holds at)) (omega (arith, room)) (λ k e. cc)
  Step-Inv {s = s} (leave i image timed_out lt at) v =
      local-Inv s i (s.used - 1) (fetched image timed_out) v lt (ap leads at) (ap is_done at)
        (omega (arith, ap holds at, le-total n i (λ j. holds (s.place j)) lt, v.count))
        (omega (arith, v.few)) (λ k e. cc)
  Step-Inv {s = s} (finish i now k image timed_out lt at) v =
      finished-Inv s i now k timed_out image v lt (ap leads at) (ap holds at)
  Step-Inv {s = s} (abandon i now k lt at over) v =
      finished-Inv s i now k false [] v lt (ap leads at) (ap holds at)

  pub Fresh-Inv : (s : System) → Fresh n url s → Inv s
  unfolding flying
  Fresh-Inv s (none_flying, none_used, all_asking) = record {
    count = total-zero n (λ i. holds (s.place i)) (λ j. ap holds (all_asking j)) ∙ sym none_used;
    few = omega (arith, none_used);
    lead = λ i lt h. ground (arith, all_asking i);
    led = λ u h. ground (arith, ap (flying u) none_flying);
    follow = λ i j lt h. ground (arith, all_asking i);
  }

  pub Reach-Inv : {s t : System} → Reach n url s t → Inv s → Inv t
  Reach-Inv here v = v
  Reach-Inv (step r st) v = Step-Inv st (Reach-Inv r v)
  Reach-Inv (expire i r) v =
      let w = Reach-Inv r v in
      record { count = w.count; few = w.few; lead = w.lead; led = w.led; follow = w.follow }
