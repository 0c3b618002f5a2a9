-- ===== src/Monitor/Favicon/Callers/Totals.antt =====
-- Sums over the callers of Monitor/Favicon/Callers.
use uptime.Prelude.{
  ℕ, zero, suc, ◌+◌, ◌≤◌, ◌<◌, ◌≡◌, ◌≢◌, refl, inl, inr, Bool-cases, arith, ◌==◌, ltb,
}

-- The sum over the callers.
unfoldable pub total : ℕ → (ℕ → ℕ) → ℕ
total zero f = 0
total (suc n) f = total n f + f n

pub total-same : (n : ℕ) (f g : ℕ → ℕ) → ((j : ℕ) → j < n → g j ≡ f j) → total n g ≡ total n f
unfolding total
total-same zero f g same = refl
total-same (suc n) f g same =
    omega (arith, total-same n f g (λ j lt. same j (omega (arith, lt))), same n (omega arith))

pub total-one :
    (n i : ℕ) (f g : ℕ → ℕ)
    → i < n
    → ((j : ℕ) → j ≢ i → g j ≡ f j)
    → total n g + f i ≡ total n f + g i
unfolding total
total-one zero i f g lt same = absurd (omega (arith, lt))
total-one (suc n) i f g lt same = elim (Bool-cases (i == n)) [
  | inl e ↦
      let at : i ≡ n = ground (arith, e) in
      rw at (omega (arith, total-same n f g (λ j below. same j (λ q. omega (arith, below, q, at)))))
  | inr e ↦
      omega
        (arith, total-one n i f g (ground (arith, e, lt)) same, same n (λ q. ground (arith, e, q)))
]

pub le-total : (n i : ℕ) (f : ℕ → ℕ) → i < n → f i ≤ total n f
unfolding total
le-total zero i f lt = absurd (omega (arith, lt))
le-total (suc n) i f lt = elim (Bool-cases (i == n)) [
  | inl e ↦ let at : i ≡ n = ground (arith, e) in rw at (omega arith)
  | inr e ↦ omega (arith, le-total n i f (ground (arith, e, lt)))
]

pub total-zero : (n : ℕ) (f : ℕ → ℕ) → ((j : ℕ) → f j ≡ 0) → total n f ≡ 0
unfolding total
total-zero zero f h = refl
total-zero (suc n) f h = omega (arith, total-zero n f h, h n)

pub total-pos : (n : ℕ) (f : ℕ → ℕ) → 0 < total n f → (i : ℕ) × (i < n) × (0 < f i)
unfolding total
total-pos zero f h = absurd (omega (arith, h))
total-pos (suc n) f h = elim (Bool-cases (ltb 0 (f n))) [
  | inl e ↦ (n, omega arith, ground (arith, e))
  | inr e ↦ let (i, lt, pos) = total-pos n f (ground (arith, e, h)) in (i, omega (arith, lt), pos)
]
