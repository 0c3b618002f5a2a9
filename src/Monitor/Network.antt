-- ===== src/Monitor/Network.antt =====
-- backend/internal/monitor/public_network.go. An address of net/netip is a number of 32 or 128 bits
-- (without a zone); the resolver, the dialer, the contexts and the clock are arguments.
pub mod Ranges
pub mod Dialed
mod Tests
use uptime.Prelude.{
  ℕ, suc, ◌+◌, ◌-◌, ◌*◌, ◌/◌, ◌^◌, Bool, true, false, not, ◌&&◌, ◌||◌, Option, none, some, List, [],
  ◌∷◌, length, ltb, leb, ◌==◌, if◌then◌else◌,
}

pub data Addr : Type 0 where
  v4 : ℕ → Addr
  v6 : ℕ → Addr

abbrev pub octets : ℕ → ℕ → ℕ → ℕ → ℕ
octets a b c d = a * 2 ^ 24 + b * 2 ^ 16 + c * 2 ^ 8 + d

-- The first two groups of an IPv6 address, the rest zero.
abbrev pub groups : ℕ → ℕ → ℕ
groups a b = a * 2 ^ 112 + b * 2 ^ 96

-- Prefix.Contains, by the number of bits that the prefix leaves free.
abbrev pub within : ℕ → ℕ → ℕ → Bool
within base free a = a / 2 ^ free == base / 2 ^ free

-- An IPv4-mapped IPv6 address is its IPv4 address.
unfoldable pub unmap : Addr → Addr
unmap (v4 a) = v4 a
unmap (v6 a) = if a / 2 ^ 32 == 0xffff then v4 (a - 0xffff * 2 ^ 32) else v6 a

-- IsGlobalUnicast, and neither IsPrivate, IsLoopback nor IsLinkLocalUnicast.
unfoldable pub ordinary_v4 : ℕ → Bool
ordinary_v4 a =
    not (a == 0)
    && not (a == octets 255 255 255 255)
    && not (within (octets 127 0 0 0) 24 a)
    && not (within (octets 224 0 0 0) 28 a)
    && not (within (octets 169 254 0 0) 16 a)
    && not (within (octets 10 0 0 0) 24 a)
    && not (within (octets 172 16 0 0) 20 a)
    && not (within (octets 192 168 0 0) 16 a)

unfoldable pub ordinary_v6 : ℕ → Bool
ordinary_v6 a =
    not (a == 0)
    && not (a == 1)
    && not (within (groups 0xff00 0) 120 a)
    && not (within (groups 0xfe80 0) 118 a)
    && not (within (groups 0xfc00 0) 121 a)

unfoldable pub excluded_v4 : ℕ → Bool
excluded_v4 a =
    within (octets 0 0 0 0) 24 a
    || within (octets 100 64 0 0) 22 a
    || within (octets 192 0 0 0) 8 a
    || within (octets 192 0 2 0) 8 a
    || within (octets 192 88 99 0) 8 a
    || within (octets 198 18 0 0) 17 a
    || within (octets 198 51 100 0) 8 a
    || within (octets 203 0 113 0) 8 a
    || within (octets 240 0 0 0) 28 a

unfoldable pub excluded_v6 : ℕ → Bool
excluded_v6 a =
    within (groups 0x2001 0) 105 a
    || within (groups 0x2001 0xdb8) 96 a
    || within (groups 0x2002 0) 112 a

public_unmapped : Addr → Bool
unfolding ordinary_v4 ordinary_v6 excluded_v4 excluded_v6
public_unmapped (v4 a) = ordinary_v4 a && not (excluded_v4 a)
public_unmapped (v6 a) = ordinary_v6 a && not (excluded_v6 a) && within (groups 0x2000 0) 125 a

unfoldable pub public_ip : Addr → Bool
unfolding public_unmapped unmap
public_ip ip = public_unmapped (unmap ip)

pub data DialError : Type 0 where
  bad_address dns no_addresses private_address context connection : DialError

pub data Dial (C : Type 0) : Type 0 where
  connected : C → Dial C
  failed : DialError → Dial C

-- An attempt: the address that is dialed and the time that it is given, if there is a deadline.
pub record Attempt : Type 0 where
  pub address : Addr
  pub budget : Option ℕ

-- What surrounds a dial: whether the context has ended before attempt i (and after the last), the
-- time left to the deadline then, and what the dialer makes of each address.
pub record Network (C : Type 0) : Type 0 where
  pub ended : ℕ → Bool
  pub remaining : ℕ → Option ℕ
  pub dial : ℕ → Addr → Option C

abbrev pub share : Option ℕ → ℕ → Option ℕ
share none n = none
share (some t) n = some (t / n)

module _ {C : Type 0} (net : Network C) where
  abbrev pub record_attempt : Attempt → Dial C × List Attempt → Dial C × List Attempt
  record_attempt a (r, attempts) = (r, a ∷ attempts)

  -- The addresses that are left, and the number of the next; the result, and what was dialed.
  unfoldable pub dial_each : ℕ → List Addr → Dial C × List Attempt
  dial_each i [] = (failed (if net.ended i then context else connection), [])
  dial_each i (ip ∷ ips) =
      let attempt : Attempt = record {
        address = ip;
        budget = share (net.remaining i) (suc (length ips));
      } in
      let rest = dial_each (suc i) ips in
      if net.ended i then (failed context, []) else elim (net.dial i ip) [
        | some conn ↦ (connected conn, attempt ∷ [])
        | none ↦ record_attempt attempt rest
      ]

  all_public : List Addr → Bool
  all_public [] = true
  all_public (ip ∷ ips) = public_ip ip && all_public ips

  dial_resolved : Option (List Addr) → Dial C × List Attempt
  unfolding all_public dial_each
  dial_resolved none = (failed dns, [])
  dial_resolved (some []) = (failed no_addresses, [])
  dial_resolved (some (ip ∷ ips)) =
      if all_public (ip ∷ ips) then dial_each 0 (ip ∷ ips) else (failed private_address, [])

  -- `host` says that the address splits into host and port; `lookup` is the answer of the resolver.
  unfoldable pub dial_context : Bool → Option (List Addr) → Dial C × List Attempt
  unfolding dial_resolved
  dial_context host lookup = if host then dial_resolved lookup else (failed bad_address, [])
