-- ===== src/Monitor/Favicon/Bounds.antt =====
-- The size and the ages of the cache after any history.
use uptime.Prelude.{
  ℕ, zero, suc, ◌+◌, ◌*◌, ◌≤◌, ◌<◌, ◌≡◌, refl, Bool, true, false, not, ◌&&◌, Option, none, some,
  List, [], ◌∷◌, length, delete, All, arith, Bytes, bytes_eq, ltb, leb, if◌then◌else◌, Bool-cases,
  inl, inr,
}
use uptime.Store.Rows.{minute, hour}
use uptime.Monitor.Favicon.{
  Entry, Fetcher, cached, flying, join_or_call, fresh_or, look_up, cache_limit, evict, assign, ttl,
  remember, complete,
}

-- A caller looks up, or the maker of a call completes it.
pub data Event : Type 0 where
  asks : ℕ → Bytes → Event
  completes : ℕ → ℕ → Bool → Bool → Bytes → Bytes → Event

unfoldable pub run : Fetcher → List Event → Fetcher
run f [] = f
run f (asks now url ∷ es) = run (look_up now url f).1 es
run f (completes now n cancelled timed_out url image ∷ es) =
    run (complete now n cancelled timed_out url image f).1 es

abbrev pub moment : Event → ℕ
moment (asks now url) = now
moment (completes now n cancelled timed_out url image) = now

abbrev pub single : List Bytes → Bool
single [] = true
single (u ∷ us) = not (flying u us) && single us

-- No image is kept longer than an hour after `now`, and no failure longer than five minutes.
abbrev pub Lives : ℕ → Entry → Type 0
Lives now e = e.expires ≤ now + (if bytes_eq e.image [] then 5 * minute else hour)

abbrev pub Sound : ℕ → Fetcher → Type 0
Sound now f = (length f.cache ≤ cache_limit) × (single f.inflight ≡ true) × All (Lives now) f.cache

length-evict : (n : ℕ) (e : Entry) (es : List Entry) → length (evict n (e ∷ es)) ≡ length es
unfolding evict
length-evict zero e es = refl
length-evict (suc n) e [] = refl
length-evict (suc n) e (x ∷ xs) = ground (arith, length-evict n x xs)

length-assign : (e : Entry) (es : List Entry) → length (assign e es) ≤ suc (length es)
unfolding assign
length-assign e [] = omega arith
length-assign e (x ∷ xs) = ground (arith, length-assign e xs)

length-remember :
    (limit n : ℕ) (e : Entry) (es : List Entry)
    → 0 < limit
    → length es ≤ limit
    → length (remember limit n e es) ≤ limit
unfolding remember
length-remember limit n e [] p h = ground (arith, length-assign e [], length-assign e (evict n []))
length-remember limit n e (x ∷ xs) p h =
    ground
      (arith, length-evict n x xs, length-assign e (evict n (x ∷ xs)), length-assign e (x ∷ xs))

evict-All {κ} : (P : Entry → Type κ) (n : ℕ) (es : List Entry) → All P es → All P (evict n es)
unfolding evict
evict-All P n [] h = h
evict-All P zero (e ∷ es) h = h.1
evict-All P (suc n) (e ∷ []) h = tt
evict-All P (suc n) (e ∷ e' ∷ es) h = (h.0, evict-All P n (e' ∷ es) h.1)

assign-All {κ} :
    (P : Entry → Type κ) (e : Entry) (es : List Entry) → P e → All P es → All P (assign e es)
unfolding assign
assign-All P e [] p h = (p, tt)
assign-All P e (x ∷ xs) p h = elim (Bool-cases (bytes_eq x.url e.url)) [
  | inl same ↦ rw same (p, h.1)
  | inr other ↦ rw other (h.0, assign-All P e xs p h.1)
]

remember-All {κ} :
    (P : Entry → Type κ) (limit n : ℕ) (e : Entry) (es : List Entry)
    → P e
    → All P es
    → All P (remember limit n e es)
unfolding remember
remember-All P limit n e es p h = elim (Bool-cases (leb limit (length es))) [
  | inl full ↦ rw full (assign-All P e (evict n es) p (evict-All P n es h))
  | inr room ↦ rw room (assign-All P e es p h)
]

flying-delete :
    (u v : Bytes) (us : List Bytes)
    → flying u us ≡ false
    → flying u (delete (λ x. bytes_eq x v) us) ≡ false
unfolding flying delete
flying-delete u v [] h = h
flying-delete u v (x ∷ xs) h = ground (arith, flying-delete u v xs)

single-delete :
    (v : Bytes) (us : List Bytes) → single us ≡ true → single (delete (λ x. bytes_eq x v) us) ≡ true
unfolding delete
single-delete v [] h = h
single-delete v (x ∷ xs) h = ground (arith, flying-delete x v xs, single-delete v xs)

joined-Sound : (T : ℕ) (url : Bytes) (f : Fetcher) → Sound T f → Sound T (join_or_call url f).1
joined-Sound T url f s = elim (Bool-cases (flying url f.inflight)) [
  | inl there ↦ rw there s
  | inr missing ↦ rw missing (s.0, ground (arith, s.1), s.2)
]

fresh-Sound :
    (T now : ℕ) (url : Bytes) (f : Fetcher) (o : Option Entry)
    → Sound T f
    → Sound T (fresh_or now url f o).1
fresh-Sound T now url f none s = joined-Sound T url f s
fresh-Sound T now url f (some e) s = elim (Bool-cases (ltb now e.expires)) [
  | inl live ↦ rw live s
  | inr over ↦ rw over (joined-Sound T url f s)
]

complete-Sound :
    (T now n : ℕ) (cancelled timed_out : Bool) (url image : Bytes) (f : Fetcher)
    → now ≤ T
    → Sound T f
    → Sound T (complete now n cancelled timed_out url image f).1
unfolding complete
complete-Sound T now n true timed_out url image f h s = (s.0, single-delete url f.inflight s.1, s.2)
complete-Sound T now n false timed_out url image f h s =
    let entry : Entry = record { url = url; image = image; expires = now + ttl image timed_out } in
    (
      length-remember cache_limit n entry f.cache (omega arith) s.0,
      single-delete url f.inflight s.1,
      remember-All (Lives T) cache_limit n entry f.cache (ground arith) s.2,
    )

-- a fetcher that has at most 256 entries, at most one call in flight for each address, and no
-- image that is kept longer than an hour after a moment or failure longer than five minutes, is
-- so after any history of lookups and completed calls up to that moment, whichever entries are
-- evicted.
pub run-Sound :
    (T : ℕ) (f : Fetcher) (es : List Event)
    → Sound T f
    → All (λ e. moment e ≤ T) es
    → Sound T (run f es)
unfolding run look_up
run-Sound T f [] s h = s
run-Sound T f (asks now url ∷ es) s h =
    run-Sound T (look_up now url f).1 es (fresh-Sound T now url f (cached url f.cache) s) h.1
run-Sound T f (completes now n cancelled timed_out url image ∷ es) s h =
    run-Sound T (complete now n cancelled timed_out url image f).1 es
      (complete-Sound T now n cancelled timed_out url image f h.0 s) h.1
