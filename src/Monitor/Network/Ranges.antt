-- ===== src/Monitor/Network/Ranges.antt =====
-- The public IPv4 addresses, as the complement of intervals.
use uptime.Prelude.{ℕ, ◌+◌, ◌*◌, ◌^◌, ◌≤◌, ◌<◌, ◌≡◌, ◌↔◌, ap, true, List, [], ◌∷◌, arith, All, ◌⊎◌}
use uptime.Monitor.Network.{
  v4, v6, octets, unmap, ordinary_v4, excluded_v4, public_unmapped, public_ip,
}

-- a lies outside the interval from `from` up to and without `upto`.
abbrev pub Outside : ℕ → ℕ × ℕ → Type 0
Outside a (from, upto) = (a < from) ⊎ (upto ≤ a)

-- 0.0.0.0/8, 10/8, 100.64/10, 127/8, 169.254/16, 172.16/12, 192.0.0/24, 192.0.2/24, 192.88.99/24,
-- 192.168/16, 198.18/15, 198.51.100/24, 203.0.113/24, and all from 224.0.0.0 on.
abbrev pub reserved : List (ℕ × ℕ)
reserved =
    (0, octets 1 0 0 0)
    ∷ (octets 10 0 0 0, octets 11 0 0 0)
    ∷ (octets 100 64 0 0, octets 100 128 0 0)
    ∷ (octets 127 0 0 0, octets 128 0 0 0)
    ∷ (octets 169 254 0 0, octets 169 255 0 0)
    ∷ (octets 172 16 0 0, octets 172 32 0 0)
    ∷ (octets 192 0 0 0, octets 192 0 1 0)
    ∷ (octets 192 0 2 0, octets 192 0 3 0)
    ∷ (octets 192 88 99 0, octets 192 88 100 0)
    ∷ (octets 192 168 0 0, octets 192 169 0 0)
    ∷ (octets 198 18 0 0, octets 198 20 0 0)
    ∷ (octets 198 51 100 0, octets 198 51 101 0)
    ∷ (octets 203 0 113 0, octets 203 0 114 0)
    ∷ (octets 224 0 0 0, 2 ^ 32)
    ∷ []

unmap_mapped : (a : ℕ) → a < 2 ^ 32 → unmap (v6 (0xffff * 2 ^ 32 + a)) ≡ v4 a
unfolding unmap
unmap_mapped a h = ground arith

-- an IPv4 address is public exactly when it lies outside every reserved interval, and written as
-- an IPv4-mapped IPv6 address it is public exactly when it is so itself.
pub public_ip_v4 :
    (a : ℕ)
    → a < 2 ^ 32
    → ((public_ip (v4 a) ≡ true) ↔ All (Outside a) reserved)
      × (public_ip (v6 (0xffff * 2 ^ 32 + a)) ≡ public_ip (v4 a))
unfolding public_ip public_unmapped unmap ordinary_v4 excluded_v4
public_ip_v4 a h = ((λ p. ground arith, λ p. ground arith), ap public_unmapped (unmap_mapped a h))
