-- ===== src/Cart/Passes.antt =====
-- The passes of simulator/cart_builder.py that bring a cart down to eight units.
use fraud_forecast.Base.{
  ℕ, ◌+◌, ◌-◌, ◌≤◌, ◌<◌, ◌≡◌, min, ltb, Bool, inl, inr, List, length, elem, arith, Bool-cases,
}
use fraud_forecast.Cart.Menu.{CartItem, quantity}
use fraud_forecast.Cart.Build.{trim, no_id, trim_any, trim_mains_last}
use fraud_forecast.Cart.Trimming.{Positive, multiples, Balanced, trim-Balanced, trim-Exhausted}

-- What is trimmed has eight units, or what it had if that is fewer.
pub record Within (items items' : List CartItem) : Type 0 where
  pub units : quantity items' ≡ min 8 (quantity items)
  pub positive : Positive items'
  pub some_left : 1 ≤ length items → 1 ≤ length items'

last_pass :
    (items : List CartItem) (overflow : ℕ)
    → Positive items
    → multiples items ≤ 8
    → quantity items ≡ 8 + overflow
    → let (items', left) = trim no_id 0 items overflow in quantity items' ≡ 8
last_pass items overflow pos few q =
    let (items', left) = trim no_id 0 items overflow in
    let b = trim-Balanced no_id 0 items overflow pos in
    grind (
      arith,
      b.balance,
      λ (h : 0 < left). (trim-Exhausted 0 items overflow pos h).ones,
      λ (h : 0 < left). (trim-Exhausted 0 items overflow pos h).among,
    )

pub trim_any-Within :
    (items : List CartItem) → Positive items → multiples items ≤ 8 → Within items (trim_any items)
unfolding trim_any
trim_any-Within items pos few = elim (Bool-cases (ltb 8 (quantity items))) [
  | inl over ↦
      let b = trim-Balanced no_id 0 items (quantity items - 8) pos in
      rw over (
        let w : Within items _ = record {
          units = ground (arith, last_pass items (quantity items - 8) pos few);
          positive = b.positive;
          some_left = λ h. omega (arith, b.stays);
        } in
        w)
  | inr fits ↦ rw fits (
      let w : Within items items = record {
        units = ground arith;
        positive = pos;
        some_left = λ h. h;
      } in
      w)
]

module _ (main_ids : List ℕ) (items : List CartItem) (pos : Positive items)
    (few : multiples items ≤ 8) where
  abbrev spared : ℕ → Bool
  spared i = elem i main_ids

  abbrev first : List CartItem × ℕ
  first = trim spared 0 items (quantity items - 8)

  first-Balanced : Balanced 0 items (quantity items - 8) first.0 first.1
  first-Balanced = trim-Balanced spared 0 items (quantity items - 8) pos

  two_passes : 8 < quantity items → 0 < first.1 → Within items (trim no_id 0 first.0 first.1).0
  two_passes over more =
      let a = first-Balanced in
      let b = trim-Balanced no_id 0 first.0 first.1 a.positive in
      record {
        units = omega (
          arith,
          last_pass first.0 first.1 a.positive (omega (arith, a.fewer)) (omega (arith, a.balance)),
        );
        positive = b.positive;
        some_left = λ h. omega (arith, a.stays, b.stays);
      }

  one_pass : 8 < quantity items → ¬ (0 < first.1) → Within items first.0
  one_pass over done =
      let a = first-Balanced in
      record {
        units = omega (arith, a.balance);
        positive = a.positive;
        some_left = λ h. omega (arith, a.stays);
      }

  no_pass : ¬ (8 < quantity items) → Within items items
  no_pass fits = record { units = omega arith; positive = pos; some_left = λ h. h }

  pub trim_mains_last-Within : Within items (trim_mains_last main_ids items)
  unfolding trim_mains_last
  trim_mains_last-Within = elim (Bool-cases (ltb 8 (quantity items))) [
    | inl over ↦ elim (Bool-cases (ltb 0 first.1)) [
      | inl more ↦ rw (over, more) (two_passes (ground arith) (ground arith))
      | inr done ↦ rw (over, done) (one_pass (ground arith) (ground arith))
    ]
    | inr fits ↦ rw fits (no_pass (ground arith))
  ]
