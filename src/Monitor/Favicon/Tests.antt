-- ===== src/Monitor/Favicon/Tests.antt =====
-- Two callers of one address, and theorems of Monitor/Favicon's modules at work.
use uptime.Prelude.{
  ◌+◌, ◌≡◌, refl, true, false, List, [], ◌∷◌, delete, arith, Bytes, codes, bytes_eq,
}
use uptime.Store.Rows.{hour}
use uptime.Monitor.Favicon.{
  new_fetcher, hit, wait, call, cached, flying, look_up, evict, assign, remember, complete,
}
use uptime.Monitor.Favicon.Bounds.{Event, asks, completes, run, Sound, run-Sound}
use uptime.Monitor.Favicon.Flights.{ends_call}

abbrev site : Bytes
site = codes "http://a"

abbrev other : Bytes
other = codes "http://b"

abbrev image : Bytes
image = codes "data:image/png;base64,AA=="

abbrev events : List Event
events =
    asks 0 site
    ∷ asks 1 other
    ∷ completes 5 0 false false site image
    ∷ completes 6 0 true false other []
    ∷ []

test_shared : (look_up 1 site (look_up 0 site new_fetcher).1).0 ≡ wait
unfolding look_up cached flying bytes_eq
test_shared = refl

-- A completed call is served from the cache for an hour, and a cancelled one leaves nothing.
test_cached :
    ((look_up hour site (run new_fetcher events)).0 ≡ hit image)
    × ((look_up (5 + hour) site (run new_fetcher events)).0 ≡ call)
    × ((look_up 7 other (run new_fetcher events)).0 ≡ call)
unfolding run look_up complete remember assign cached flying bytes_eq delete evict
test_cached = (refl, refl, refl)

run-Sound_example : Sound 6 (run new_fetcher events)
run-Sound_example =
    run-Sound 6 new_fetcher events (omega arith, refl, tt)
      (omega arith, (omega arith, (omega arith, (omega arith, tt))))

called : (look_up 0 site new_fetcher).0 ≡ call
unfolding look_up cached flying
called = refl

uninterrupted : ends_call site (completes 6 0 true false other []) ≡ false
unfolding bytes_eq
uninterrupted = refl
