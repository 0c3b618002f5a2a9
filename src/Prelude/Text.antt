-- ===== src/Prelude/Text.antt =====
-- Byte strings taken apart, as strings.Split does.
use Prim.Native.Nat.{ℕ}
use mathlib.Core.List.{List, [], ◌∷◌}
use uptime.Prelude.Tests.{Bytes, ◌==◌, if◌then◌else◌}

-- The first piece grows by a byte.
abbrev extend : ℕ → List Bytes → List Bytes
extend c [] = (c ∷ []) ∷ []
extend c (p ∷ ps) = (c ∷ p) ∷ ps

-- The pieces between the separators: one more than there are separators.
unfoldable pub split : ℕ → Bytes → List Bytes
split sep [] = [] ∷ []
split sep (c ∷ cs) = let rest = split sep cs in if c == sep then [] ∷ rest else extend c rest
