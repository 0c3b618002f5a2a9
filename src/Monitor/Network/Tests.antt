-- ===== src/Monitor/Network/Tests.antt =====
-- Addresses and dials of Monitor/Network, and theorems of its child modules at work.
use uptime.Prelude.{
  ℕ, ◌+◌, ◌-◌, ◌*◌, ◌^◌, ◌≡◌, ◌↔◌, refl, true, false, none, some, [], ◌∷◌, arith, All, ◌==◌,
  if◌then◌else◌,
}
use uptime.Monitor.Network.{
  Addr, v4, v6, octets, groups, Network, Attempt, connected, public_ip, dial_context, dial_resolved,
  dial_each, all_public, public_unmapped, unmap, ordinary_v4, ordinary_v6, excluded_v4, excluded_v6,
}
use uptime.Monitor.Network.Dialed.{dial_context-All}
use uptime.Monitor.Network.Ranges.{Outside, reserved, public_ip_v4}

abbrev first : Addr
first = v4 (octets 93 184 216 34)

abbrev second : Addr
second = v6 (groups 0x2606 0x4700)

abbrev inner : Addr
inner = v6 (0xffff * 2 ^ 32 + octets 169 254 169 254)

-- Two seconds for two addresses, of which the second answers.
abbrev net : Network ℕ
net = record {
  ended = λ i. false;
  remaining = λ i. some (2000 - 100 * i);
  dial = λ i ip. if i == 1 then some 7 else none;
}

test_fallback : dial_context net true (some (first ∷ second ∷ [])) ≡ (
  connected 7,
  record { address = first; budget = some 1000 }
      ∷ record { address = second; budget = some 1900 }
      ∷ [],
)
unfolding dial_context dial_resolved dial_each all_public public_ip public_unmapped unmap
    ordinary_v4 excluded_v4 ordinary_v6 excluded_v6
test_fallback = refl

test_transition : public_ip (v6 (groups 0x2002 0x0a00)) ≡ false
unfolding public_ip public_unmapped unmap ordinary_v6 excluded_v6
test_transition = refl

inner-private : public_ip inner ≡ false
unfolding public_ip public_unmapped unmap ordinary_v4 excluded_v4
inner-private = refl

dial_context-All_example :
    All
      (λ (a : Attempt). public_ip a.address ≡ true)
      (dial_context net true (some (first ∷ second ∷ []))).1
dial_context-All_example = dial_context-All net true (some (first ∷ second ∷ []))

public_ip_v4_example :
    ((public_ip (v4 (octets 172 32 0 1)) ≡ true) ↔ All (Outside (octets 172 32 0 1)) reserved)
    × (public_ip (v6 (0xffff * 2 ^ 32 + octets 172 32 0 1)) ≡ public_ip (v4 (octets 172 32 0 1)))
public_ip_v4_example = public_ip_v4 (octets 172 32 0 1) (omega arith)
