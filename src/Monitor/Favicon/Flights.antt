-- ===== src/Monitor/Favicon/Flights.antt =====
-- The calls in flight: callers that ask for the same address share one.
use uptime.Prelude.{
  ℕ, ◌≡◌, ◌≢◌, refl, Bool, true, false, Option, none, some, List, [], ◌∷◌, delete, All, arith,
  Bytes, bytes_eq, bytes_eq_iff,
}
use uptime.Monitor.Favicon.{Entry, Fetcher, call, cached, flying, fresh_or, look_up, complete}
use uptime.Monitor.Favicon.Bounds.{Event, asks, completes, run}

abbrev pub ends_call : Bytes → Event → Bool
ends_call url (asks now u) = false
ends_call url (completes now n cancelled timed_out u image) = bytes_eq u url

called-flying :
    (now : ℕ) (url : Bytes) (f : Fetcher)
    → (look_up now url f).0 ≡ call
    → flying url (look_up now url f).1.inflight ≡ true
unfolding look_up flying
called-flying now url f h = by_entry (cached url f.cache) h
  where
    by_entry :
        (o : Option Entry)
        → (fresh_or now url f o).0 ≡ call
        → flying url (fresh_or now url f o).1.inflight ≡ true
    by_entry none e = ground (arith, (bytes_eq_iff url url).1 refl)
    by_entry (some x) e = ground (arith, (bytes_eq_iff url url).1 refl)

flying_other :
    (url v : Bytes) (us : List Bytes)
    → bytes_eq v url ≡ false
    → flying url us ≡ true
    → flying url (delete (λ u. bytes_eq u v) us) ≡ true
unfolding flying delete
flying_other url v [] e h = h
flying_other url v (x ∷ xs) e h =
    ground
      (arith, bytes_eq_iff v url, bytes_eq_iff x v, bytes_eq_iff x url, flying_other url v xs e)

flying_joined :
    (now : ℕ) (v url : Bytes) (f : Fetcher) (o : Option Entry)
    → flying url f.inflight ≡ true
    → flying url (fresh_or now v f o).1.inflight ≡ true
unfolding flying
flying_joined now v url f none h = ground arith
flying_joined now v url f (some x) h = ground arith

flying-run :
    (url : Bytes) (f : Fetcher) (es : List Event)
    → flying url f.inflight ≡ true
    → All (λ e. ends_call url e ≡ false) es
    → flying url (run f es).inflight ≡ true
unfolding run look_up complete
flying-run url f [] h other = h
flying-run url f (asks now u ∷ es) h other =
    flying-run url (look_up now u f).1 es (flying_joined now u url f (cached u f.cache) h) other.1
flying-run url f (completes now n cancelled timed_out u image ∷ es) h other =
    flying-run url (complete now n cancelled timed_out u image f).1 es
      (flying_other url u f.inflight other.0 h) other.1

flying_no_call :
    (now : ℕ) (url : Bytes) (f : Fetcher)
    → flying url f.inflight ≡ true
    → (look_up now url f).0 ≢ call
unfolding look_up
flying_no_call now url f h = by_entry (cached url f.cache)
  where
    by_entry : (o : Option Entry) → (fresh_or now url f o).0 ≢ call
    by_entry none = ground arith
    by_entry (some x) = ground arith

-- once a lookup told its caller to fetch an address, no later lookup tells another to fetch it
-- until a call for that address completes, whatever happens to other addresses in between.
pub look_up_once :
    (now later : ℕ) (url : Bytes) (f : Fetcher) (es : List Event)
    → (look_up now url f).0 ≡ call
    → All (λ e. ends_call url e ≡ false) es
    → (look_up later url (run (look_up now url f).1 es)).0 ≢ call
look_up_once now later url f es h other =
    flying_no_call later url (run (look_up now url f).1 es)
      (flying-run url (look_up now url f).1 es (called-flying now url f h) other)
