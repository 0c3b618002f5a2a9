-- ===== src/Monitor/Favicon/Callers/Exclusive.antt =====
-- How many fetches of backend/internal/monitor/favicon.go run at once.
use uptime.Prelude.{ℕ, ◌≤◌, ◌<◌, ◌≡◌, ◌∙◌, sym, ap, Bytes, arith}
use uptime.Monitor.Favicon.Callers.{fetching, System, Reach, Fresh}
use uptime.Monitor.Favicon.Callers.Totals.{total}
use uptime.Monitor.Favicon.Callers.Invariant.{holds, leads, Reach-Inv, Fresh-Inv}

-- from a moment when none of the callers of get has asked yet and no call is in flight, in
-- whatever order their steps come: two callers that fetch the icon of the same address are the
-- same caller, and at most eight callers fetch at once.
pub fetches-Exclusive :
    (n : ℕ) (url : ℕ → Bytes) (s t : System)
    → Fresh n url s
    → Reach n url s t
    → (i j : ℕ) → i < n
    → j < n
    → t.place i ≡ fetching
    → t.place j ≡ fetching
    → url i ≡ url j
    → (i ≡ j) × (total n (λ k. holds (t.place k)) ≤ 8)
fetches-Exclusive n url s t fresh r i j li lj fi fj same =
    let v = Reach-Inv n url r (Fresh-Inv n url s fresh) in
    (
      sym (v.lead i li (ap leads fi)).1 ∙ ap t.owner same ∙ (v.lead j lj (ap leads fj)).1,
      omega (arith, v.count, v.few),
    )
