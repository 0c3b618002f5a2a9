-- ===== src/Monitor/Network/Dialed.antt =====
-- Which addresses are dialed, and for how long.
use uptime.Prelude.{
  ℕ, suc, ◌≡◌, Bool, true, false, Option, none, some, List, [], ◌∷◌, arith, All, In, inl, inr,
  Bool-cases,
}
use uptime.Monitor.Network.{
  Addr, Network, Attempt, failed, private_address, public_ip, dial_each, all_public, dial_resolved,
  dial_context,
}

module _ {C : Type 0} (net : Network C) where
  all_public-All :
      (ips : List Addr) → all_public net ips ≡ true → All (λ ip. public_ip ip ≡ true) ips
  unfolding all_public
  all_public-All [] h = tt
  all_public-All (ip ∷ ips) h = (ground arith, all_public-All ips (ground arith))

  dial_each-All :
      (P : Addr → Type 0) (i : ℕ) (ips : List Addr)
      → All P ips
      → All (λ (a : Attempt). P a.address) (dial_each net i ips).1
  unfolding dial_each
  dial_each-All P i [] h = tt
  dial_each-All P i (ip ∷ ips) h = ground (arith, dial_each-All P (suc i) ips h.1)

  resolved-All :
      (lookup : Option (List Addr))
      → All (λ (a : Attempt). public_ip a.address ≡ true) (dial_resolved net lookup).1
  unfolding dial_resolved
  resolved-All none = tt
  resolved-All (some []) = tt
  resolved-All (some (ip ∷ ips)) = elim (Bool-cases (all_public net (ip ∷ ips))) [
    | inl e ↦
        rw e (dial_each-All (λ x. public_ip x ≡ true) 0 (ip ∷ ips) (all_public-All (ip ∷ ips) e))
    | inr e ↦ rw e tt
  ]

  mixed :
      (ips : List Addr) (ip : Addr) → In ip ips → public_ip ip ≡ false → all_public net ips ≡ false
  unfolding all_public
  mixed [] ip m e = absurd m
  mixed (x ∷ ips) ip (inl p) e = ground arith
  mixed (x ∷ ips) ip (inr m) e = ground (arith, mixed ips ip m e)

  -- only public addresses are ever dialed, whatever the resolver answers and however the attempts
  -- end.
  pub dial_context-All :
      (host : Bool) (lookup : Option (List Addr))
      → All (λ (a : Attempt). public_ip a.address ≡ true) (dial_context net host lookup).1
  unfolding dial_context
  dial_context-All true lookup = resolved-All lookup
  dial_context-All false lookup = tt

  -- where one address of the answer of the resolver is not public, none is dialed and the result
  -- is the error of a private address.
  pub dial_context_private :
      (ips : List Addr) (ip : Addr)
      → In ip ips
      → public_ip ip ≡ false
      → dial_context net true (some ips) ≡ (failed private_address, [])
  unfolding dial_context dial_resolved
  dial_context_private [] ip m e = absurd m
  dial_context_private (x ∷ ips) ip m e = rw (mixed (x ∷ ips) ip m e)
