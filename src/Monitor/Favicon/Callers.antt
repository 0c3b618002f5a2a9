-- ===== src/Monitor/Favicon/Callers.antt =====
-- The callers of get in backend/internal/monitor/favicon.go, interleaved in any order: each runs
-- the loop of get for its own address. The eight slots and the waiting for another caller's result
-- are here; what one fetch finds is a choice of the step.
pub mod Totals
pub mod Invariant
pub mod Exclusive
pub mod Progress
mod Tests
use uptime.Prelude.{
  ℕ, ◌+◌, ◌-◌, ◌<◌, ◌≡◌, Bool, true, false, Bytes, [], bytes_eq, ◌==◌, if◌then◌else◌,
}
use uptime.Monitor.Favicon.{Fetcher, Lookup, hit, wait, call, look_up, complete}

abbrev pub slot_limit : ℕ
slot_limit = 8

-- Where a caller stands: at the top of the loop, behind its look at the context, waiting for the
-- call of another caller, with a call of its own before a slot, in it or behind it, done with a
-- call of its own (`faviconCall` with its image and its `retry`), or returned.
pub data Place : Type 0 where
  asking : Place
  passed : Place
  following : ℕ → Place
  leading : Place
  fetching : Place
  fetched : Bytes → Bool → Place
  done : Bytes → Bool → Place
  returned : Bytes → Place

-- A caller makes at most one call, so that its index names the call. `owner` is the value of a key
-- of `inflight`; `ended` says whose context has an error.
pub record System : Type 0 where
  pub fetcher : Fetcher
  pub owner : Bytes → ℕ
  pub used : ℕ
  pub place : ℕ → Place
  pub ended : ℕ → Bool

abbrev pub put : ℕ → Place → (ℕ → Place) → ℕ → Place
put i p place j = if j == i then p else place j

abbrev pub own : Bytes → ℕ → (Bytes → ℕ) → Bytes → ℕ
own url i owner u = if bytes_eq url u then i else owner u

-- The locked section at the top of the loop.
abbrev pub asked : ℕ → Bytes → System → Lookup × Fetcher → System
asked i url s (hit image, f) = record s { fetcher = f; place = put i (returned image) s.place }
asked i url s (wait, f) = record s { fetcher = f; place = put i (following (s.owner url)) s.place }
asked i url s (call, f) = record s {
  fetcher = f;
  owner = own url i s.owner;
  place = put i leading s.place;
}

-- A look at the context: `ctx.Err()`.
abbrev pub checked : Bool → Place → Place
checked ended p = if ended then returned [] else p

-- A completed call: its follower takes the image, or starts again.
abbrev pub woken : Bytes → Bool → Place
woken image retry = if retry then asking else returned image

abbrev pub finished : ℕ → ℕ → ℕ → Bool → Bytes → Bytes → System → System
finished i now k timed_out url image s =
    let (retry, f) = complete now k (s.ended i) timed_out url image s.fetcher in
    record s { fetcher = f; place = put i (done image retry) s.place }

module _ (n : ℕ) (url : ℕ → Bytes) where
  pub data Step (s : System) : System → Type 0 where
    look :
        (i : ℕ)
        → i < n
        → s.place i ≡ asking
        → Step s (record s { place = put i (checked (s.ended i) passed) s.place })
    ask :
        (i now : ℕ)
        → i < n
        → s.place i ≡ passed
        → Step s (asked i (url i) s (look_up now (url i) s.fetcher))
    wake :
        (i j : ℕ) (image : Bytes) (retry : Bool)
        → i < n
        → s.place i ≡ following j
        → s.place j ≡ done image retry
        → Step s (record s { place = put i (checked (s.ended i) (woken image retry)) s.place })
    give_up :
        (i j : ℕ)
        → i < n
        → s.place i ≡ following j
        → s.ended i ≡ true
        → Step s (record s { place = put i (returned []) s.place })
    enter :
        (i : ℕ)
        → i < n
        → s.place i ≡ leading
        → s.used < slot_limit
        → Step s (record s { used = s.used + 1; place = put i fetching s.place })
    leave :
        (i : ℕ) (image : Bytes) (timed_out : Bool)
        → i < n
        → s.place i ≡ fetching
        → Step s (record s { used = s.used - 1; place = put i (fetched image timed_out) s.place })
    finish :
        (i now k : ℕ) (image : Bytes) (timed_out : Bool)
        → i < n
        → s.place i ≡ fetched image timed_out
        → Step s (finished i now k timed_out (url i) image s)
    abandon :
        (i now k : ℕ)
        → i < n
        → s.place i ≡ leading
        → s.ended i ≡ true
        → Step s (finished i now k false (url i) [] s)

  -- A step of a caller, or the end of a context.
  pub data Reach (s : System) : System → Type 0 where
    here : Reach s s
    step : {t u : System} → Reach s t → Step t u → Reach s u
    expire :
        {t : System} (i : ℕ)
        → Reach s t
        → Reach s (record t { ended = λ j. if j == i then true else t.ended j })

  -- Nobody has asked yet, whatever the cache holds.
  abbrev pub Fresh : System → Type 0
  Fresh s = (s.fetcher.inflight ≡ []) × (s.used ≡ 0) × ((i : ℕ) → s.place i ≡ asking)
