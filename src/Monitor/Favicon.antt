-- ===== src/Monitor/Favicon.antt =====
-- backend/internal/monitor/favicon.go: the shared cache of icons and the calls in flight, as the
-- two sections that hold the mutex of faviconFetcher change them. Fetching an icon is in Fetch, and
-- its result an argument here; the eight slots and the wait for another caller's result are in
-- Callers.
pub mod Bounds
pub mod Flights
pub mod Icons
pub mod Fetch
pub mod Callers
mod Tests
use uptime.Prelude.{
  ℕ, zero, suc, ◌+◌, ◌*◌, Bool, true, false, ◌||◌, Option, none, some, List, [], ◌∷◌, length,
  delete, Bytes, bytes_eq, ltb, leb, if◌then◌else◌,
}
use uptime.Store.Rows.{second, minute, hour}

pub record Entry : Type 0 where
  pub url : Bytes
  pub image : Bytes
  pub expires : ℕ

pub record Fetcher : Type 0 where
  pub cache : List Entry
  pub inflight : List Bytes

abbrev pub new_fetcher : Fetcher
new_fetcher = record { cache = []; inflight = [] }

-- What a caller does next: it returns an image, waits for the call in flight, or makes the call.
pub data Lookup : Type 0 where
  hit : Bytes → Lookup
  wait : Lookup
  call : Lookup

unfoldable pub cached : Bytes → List Entry → Option Entry
cached url [] = none
cached url (e ∷ es) = if bytes_eq e.url url then some e else cached url es

unfoldable pub flying : Bytes → List Bytes → Bool
flying url [] = false
flying url (u ∷ us) = bytes_eq u url || flying url us

abbrev pub join_or_call : Bytes → Fetcher → Lookup × Fetcher
join_or_call url f =
    if flying url f.inflight then (wait, f) else (call, record f { inflight = url ∷ f.inflight })

abbrev pub fresh_or : ℕ → Bytes → Fetcher → Option Entry → Lookup × Fetcher
fresh_or now url f none = join_or_call url f
fresh_or now url f (some e) = if ltb now e.expires then (hit e.image, f) else join_or_call url f

-- The section at the start of a round of `get`.
unfoldable pub look_up : ℕ → Bytes → Fetcher → Lookup × Fetcher
unfolding cached flying
look_up now url f = fresh_or now url f (cached url f.cache)

abbrev pub cache_limit : ℕ
cache_limit = 256

-- The key that a range over a map visits first is any of its keys: the n-th here.
unfoldable pub evict : ℕ → List Entry → List Entry
evict n [] = []
evict zero (e ∷ es) = es
evict (suc n) (e ∷ []) = []
evict (suc n) (e ∷ e' ∷ es) = e ∷ evict n (e' ∷ es)

unfoldable pub assign : Entry → List Entry → List Entry
assign e [] = e ∷ []
assign e (x ∷ xs) = let rest = x ∷ assign e xs in if bytes_eq x.url e.url then e ∷ xs else rest

-- The last rule that applies wins: a call that timed out is remembered for half a minute.
abbrev pub ttl : Bytes → Bool → ℕ
ttl image timed_out =
    if timed_out then 30 * second else if bytes_eq image [] then 5 * minute else hour

unfoldable pub remember : ℕ → ℕ → Entry → List Entry → List Entry
unfolding evict assign
remember limit n e cache = assign e (if leb limit (length cache) then evict n cache else cache)

-- A caller whose context has ended leaves the cache alone, and its followers try again.
unfoldable pub complete : ℕ → ℕ → Bool → Bool → Bytes → Bytes → Fetcher → Bool × Fetcher
unfolding remember
complete now n cancelled timed_out url image f =
    let entry : Entry = record { url = url; image = image; expires = now + ttl image timed_out } in
    (
      cancelled,
      record {
        cache = if cancelled then f.cache else remember cache_limit n entry f.cache;
        inflight = delete (λ u. bytes_eq u url) f.inflight;
      },
    )
