-- ===== src/Monitor/Favicon/Callers/Tests.antt =====
-- Two callers of one address: the first fetches, and the second takes its image.
use uptime.Prelude.{ℕ, ◌+◌, ◌*◌, ◌≤◌, ◌≡◌, ◌⊎◌, refl, true, false, Bytes, codes, bytes_eq, arith}
use uptime.Monitor.Favicon.{new_fetcher, look_up, cached, flying, complete, remember, assign}
use uptime.Monitor.Favicon.Callers.{
  asking, fetching, returned, System, Reach, here, step, look, ask, enter, leave, finish, wake,
}
use uptime.Monitor.Favicon.Callers.Totals.{total}
use uptime.Monitor.Favicon.Callers.Invariant.{holds}
use uptime.Monitor.Favicon.Callers.Exclusive.{fetches-Exclusive}
use uptime.Monitor.Favicon.Callers.Progress.{is_over, Moves, steps, callers_return}

abbrev site : ℕ → Bytes
site i = codes "http://a"

abbrev image : Bytes
image = codes "data:image/png;base64,AA=="

abbrev start : System
start = record {
  fetcher = new_fetcher;
  owner = λ u. 0;
  used = 0;
  place = λ i. asking;
  ended = λ i. false;
}

-- The first holds a slot, and the second waits.
unfoldable busy : (t : System) × Reach 2 site start t
unfolding look_up cached flying bytes_eq
busy = (
  _,
  step
      (step
        (step (step (step here (look 0 (omega arith) refl)) (look 1 (omega arith) refl))
          (ask 0 5 (omega arith) refl))
        (ask 1 6 (omega arith) refl))
      (enter 0 (omega arith) refl (omega arith)),
)

-- Both have the image.
unfoldable over : (t : System) × Reach 2 site start t
unfolding busy look_up cached flying complete remember assign bytes_eq
over = (
  _,
  step
      (step (step busy.1 (leave 0 image false (omega arith) refl))
        (finish 0 7 0 image false (omega arith) refl))
      (wake 1 0 image false (omega arith) refl refl),
)

second_returned : over.0.place 1 ≡ returned image
unfolding over busy look_up cached flying complete remember assign bytes_eq
second_returned = refl

first_fetches : busy.0.place 0 ≡ fetching
unfolding busy look_up cached flying bytes_eq
first_fetches = refl

fetches-Exclusive_example : ◌≡◌ {A = ℕ} 0 0 × (total 2 (λ k. holds (busy.0.place k)) ≤ 8)
fetches-Exclusive_example =
    fetches-Exclusive 2 site start busy.0 (refl, refl, λ i. refl) busy.1 0 0 (omega arith)
      (omega arith) first_fetches first_fetches refl

callers_return_example :
    (steps 2 site busy.1 ≤ 2 * (6 * 2 + 7))
    × ((is_over (busy.0.place 1) ≡ true) ⊎ Moves 2 site busy.0)
callers_return_example =
    callers_return 2 site start busy.0 (refl, refl, λ i. refl) busy.1 1 (omega arith)
