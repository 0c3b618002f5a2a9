-- ===== src/Monitor/Validation/Grammar.antt =====
-- What authorityPattern of backend/internal/monitor/validation.go says, independent of its matcher.
use uptime.Prelude.{ℕ, ◌≡◌, ◌≢◌, ◌⊎◌, Bool, true, ◌||◌, List, [], ◌∷◌, ◌++◌, ◌==◌, All}
use uptime.Monitor.Validation.Patterns.{
  long_s, is_digit, is_host_letter, is_ip_letter, same_letter, ends_authority,
}

abbrev pub Passes : (ℕ → Bool) → List ℕ → Type 0
Passes test cs = (cs ≢ []) × All (λ c. test c ≡ true) cs

-- https?
abbrev pub IsScheme : List ℕ → Type 0
IsScheme (h ∷ t ∷ u ∷ p ∷ rest) =
    (same_letter b'h' h ≡ true)
    × (same_letter b't' t ≡ true)
    × (same_letter b't' u ≡ true)
    × (same_letter b'p' p ≡ true)
    × ((rest ≡ []) ⊎ ((s : ℕ) × (rest ≡ s ∷ []) × ((same_letter b's' s || s == long_s) ≡ true)))
IsScheme _ = ⊥

-- \[[0-9a-f:.]+\]|[a-z0-9.-]+
abbrev pub IsHost : List ℕ → Type 0
IsHost host =
    ((front : List ℕ) × (host ≡ b'[' ∷ front ++ b']' ∷ []) × Passes is_ip_letter front)
    ⊎ Passes is_host_letter host

-- (?::([0-9]+))?, with the port and its text
abbrev pub IsPort : List ℕ → List ℕ → Type 0
IsPort port text = ((port ≡ []) × (text ≡ [])) ⊎ (Passes is_digit port × (text ≡ b':' ∷ port))

-- A text that the pattern matches with this host and this port.
pub record Authority (cs host port : List ℕ) : Type 0 where
  pub scheme : List ℕ
  pub port_text : List ℕ
  pub rest : List ℕ
  pub text : cs ≡ scheme ++ (b':' ∷ b'/' ∷ b'/' ∷ host ++ (port_text ++ rest))
  pub is_scheme : IsScheme scheme
  pub is_host : IsHost host
  pub is_port : IsPort port port_text
  pub ends : ends_authority rest ≡ true
