-- ===== src/Cart/Sampling.antt =====
-- How many items simulator/cart_builder.py draws for a cart.
use fraud_forecast.Base.{
  ℕ, zero, suc, ◌+◌, ◌-◌, ◌≤◌, ◌<◌, min, max, ◌≡◌, refl, ap, ◌∙◌, true, false, some, arith,
}
use fraud_forecast.Base.Float.{Floats, Draws, next_draws}
use fraud_forecast.Cart.Build.{rounds, sample_item_count}

-- What `p` and the first `k` draws multiply to.
abbrev pub product : (F : Floats) → F.Float → Draws F.Float → ℕ → F.Float
product F p rng zero = p
product F p rng (suc k) = product F (F.mul p (rng 0)) (next_draws rng) k

rounds_stop :
    (F : Floats) (threshold p : F.Float) (k left counted : ℕ) (rng : Draws F.Float)
    → k < left
    → ((i : ℕ) → i < k → F.lt threshold (product F p rng i) ≡ true)
    → F.lt threshold (product F p rng k) ≡ false
    → rounds F threshold left p counted rng ≡ some (counted + k)
unfolding rounds
rounds_stop F threshold p k zero counted rng h above below = absurd (omega arith)
rounds_stop F threshold p zero (suc left) counted rng h above below =
    rw (below, rounds) (ap some (omega arith))
rounds_stop F threshold p (suc k) (suc left) counted rng h above below =
    rw (above 0 (omega arith), rounds)
      (rounds_stop F threshold (F.mul p (rng 0)) k left (suc counted) (next_draws rng) (omega arith)
          (λ i lt. above (suc i) (omega arith)) below
        ∙ ap some (omega arith))

-- Where the product of the draws is above the threshold up to the k-th and not after it, and more
-- rounds than k are given, a number is sampled: it is k - 1 kept between one and eight.
pub sample_item_count_stop :
    (F : Floats) (threshold : F.Float) (k left : ℕ) (rng : Draws F.Float)
    → k < left
    → ((i : ℕ) → i < k → F.lt threshold (product F (F.lit 1 1) rng i) ≡ true)
    → F.lt threshold (product F (F.lit 1 1) rng k) ≡ false
    → (n : ℕ) × (sample_item_count F threshold left rng ≡ some n)
      × (n ≡ max 1 (min 8 (k - 1)))
      × (1 ≤ n)
      × (n ≤ 8)
unfolding sample_item_count
sample_item_count_stop F threshold k left rng h above below =
    let stopped = rounds_stop F threshold (F.lit 1 1) k left 0 rng h above below in
    (
      max 1 (min 8 (k - 1)),
      rw (stopped, sample_item_count) (ap some (omega arith)),
      refl,
      omega arith,
      omega arith,
    )
