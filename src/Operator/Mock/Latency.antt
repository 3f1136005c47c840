-- ===== src/Operator/Mock/Latency.antt =====
-- The latency that the double of the operator simulates, in its int64 arithmetic.
use native.Mathlib.Decide.{dec_lt}
use arvan.Prelude.{
  ℕ, suc, ◌+◌, ◌<◌, ◌≤◌, true, false, Bool-cases, Option, none, some, ◌≡◌, refl, arith, inl, inr,
  zero,
}
use arvan.Prelude.Int.{
  ℤ, pos, negsuc, pos_part, int_laws, half_range, full_range, IsInt64, int64, int64-eq, ◌≤ℤ◌, leb_ℤ,
  ◌+ℤ◌, ◌-ℤ◌,
}
use arvan.Operator.Mock.{drawn_latency, simulated_latency}

-- The argument of Int63n, for a distance of the bounds: one more than it, where that fits.
argument-fits : (m : ℕ) → m + 1 < half_range → int64 (int64 (pos m) +ℤ pos 1) ≡ pos (suc m)
unfolding int64 ◌+ℤ◌
argument-fits m h = ground arith

-- No more than 0, where it does not.
argument-wraps :
    (m : ℕ) → half_range ≤ m + 1 → m < full_range → pos_part (int64 (int64 (pos m) +ℤ pos 1)) ≡ 0
unfolding int64 ◌+ℤ◌
argument-wraps m h k = ground arith

-- A latency lies between the bounds, or is the lower one where the upper is not above it; there is none
-- where the distance of the bounds and one more do not fit.
abbrev pub Delays : ℤ → ℤ → Option ℤ → Type 0
Delays min max none = half_range ≤ pos_part (max -ℤ min) + 1
Delays min max (some d) =
    (pos_part (max -ℤ min) + 1 < half_range)
    × (min ≤ℤ d)
    × (leb_ℤ max min ≡ false → d ≤ℤ max)
    × (leb_ℤ max min ≡ true → d ≡ min)

drawn_none : (int63n : ℕ → ℕ) (min n : ℤ) → pos_part n ≡ 0 → drawn_latency int63n min n ≡ none
unfolding drawn_latency
drawn_none int63n min (pos zero) h = refl
drawn_none int63n min (pos (suc n)) h = absurd (omega arith)
drawn_none int63n min (negsuc n) h = refl

-- A number above the lower bound, by no more than the distance, lies between the bounds.
sum-between :
    (min max : ℤ) (m k : ℕ)
    → max -ℤ min ≡ pos m
    → k ≤ m
    → (min ≤ℤ min +ℤ pos k) × (min +ℤ pos k ≤ℤ max)
unfolding ◌+ℤ◌ ◌-ℤ◌
sum-between min max m k is h = ground (arith, is)

between-IsInt64 : (min d max : ℤ) → IsInt64 min → IsInt64 max → min ≤ℤ d → d ≤ℤ max → IsInt64 d
between-IsInt64 (pos a) (pos b) (pos c) hmin hmax low high = omega arith
between-IsInt64 min d max hmin hmax low high = ground arith

module _ (int63n : ℕ → ℕ) (min max : ℤ) (below : (n : ℕ) → int63n (suc n) < suc n)
    (min_fits : IsInt64 min) (max_fits : IsInt64 max) where
  drawn-Delays :
      (m : ℕ)
      → leb_ℤ max min ≡ false
      → max -ℤ min ≡ pos m
      → m + 1 < half_range
      → Delays min max (some (int64 (min +ℤ pos (int63n (suc m)))))
  drawn-Delays m above is fits =
      let (low, high) = sum-between min max m (int63n (suc m)) is (omega (arith, below m)) in
      rw
        (int64-eq (min +ℤ pos (int63n (suc m)))
          (between-IsInt64 min _ max min_fits max_fits low high))
        (rw is fits, low, (λ h. high), (λ h. absurd (ground (arith, above, h))))

  above-Delays :
      (distance : ℤ)
      → leb_ℤ max min ≡ false
      → max -ℤ min ≡ distance
      → Delays min max (drawn_latency int63n min (int64 (int64 distance +ℤ pos 1)))
  unfolding drawn_latency
  above-Delays (negsuc m) above is = absurd (grind (int_laws, is, above))
  above-Delays (pos m) above is = elim (dec_lt (m + 1) half_range) [
    | yes fits ↦ rw (argument-fits m fits) (drawn-Delays m above is fits)
    | no wraps ↦
        rw (drawn_none int63n min _ (argument-wraps m (omega arith) (grind (int_laws, is))))
          (rw is (omega arith))
  ]

-- Where Int63n draws below its argument and the bounds are int64, as they are, the simulated latency lies
-- between its bounds, or is the lower one where the upper is not above it; and Int63n panics exactly
-- where the upper bound is above the lower by 2 ^ 63 - 1 or more.
pub simulated_latency-Delays :
    (int63n : ℕ → ℕ) (min max : ℤ)
    → ((n : ℕ) → int63n (suc n) < suc n)
    → IsInt64 min
    → IsInt64 max
    → Delays min max (simulated_latency int63n min max)
unfolding simulated_latency
simulated_latency-Delays int63n min max below min_fits max_fits =
    elim (Bool-cases (leb_ℤ max min)) [
      | inl not_above ↦
          rw not_above
            (grind (int_laws, not_above), omega arith, λ h. absurd (ground arith), λ h. refl)
      | inr above ↦ rw above (above-Delays int63n min max below min_fits max_fits _ above refl)
    ]
