-- ===== src/Cart/Trimming.antt =====
-- What the trimming loops of simulator/cart_builder.py keep.
use fraud_forecast.Base.{
  ℕ, suc, ◌+◌, ◌≤◌, ◌<◌, ◌≡◌, refl, ltb, Bool, false, List, [], ◌∷◌, ◌++◌, length, length-append,
  sum_by-append, All, All-append, arith, if◌then◌else◌, ◌⊎◌, inl,
}
use fraud_forecast.Cart.Menu.{CartItem, quantity}
use fraud_forecast.Cart.Build.{trim_item, trim, no_id}

-- Every entry has at least one unit.
abbrev pub Positive : List CartItem → Type 0
Positive = All (λ item. 1 ≤ item.qty)

-- The entries with more than one unit.
abbrev pub multiples : List CartItem → ℕ
multiples [] = 0
multiples (item ∷ items) = (if ltb 1 item.qty then 1 else 0) + multiples items

-- One entry: units leave the cart as they leave the overflow, and the last entry stays.
record Trimmed (item : CartItem) (overflow count : ℕ) (kept : List CartItem) (left : ℕ)
    : Type 0 where
  balance : quantity kept + overflow ≡ item.qty + left
  falls : left ≤ overflow
  positive : Positive kept
  stays : count ≤ 1 → length kept ≡ 1
  shrinks : length kept ≤ 1
  fewer : multiples kept ≤ (if ltb 1 item.qty then 1 else 0)

trim_item-Trimmed :
    (passed : Bool) (item : CartItem) (overflow count : ℕ)
    → 1 ≤ item.qty
    → let (kept, left) = trim_item passed item overflow count in
      Trimmed item overflow count kept left
unfolding trim_item
trim_item-Trimmed passed item overflow count h = record {
  balance = ground arith;
  falls = ground arith;
  positive = ground arith;
  stays = ground arith;
  shrinks = ground arith;
  fewer = ground arith;
}

-- One entry that is not passed over, where overflow is left: it has one unit, and if it had only one
-- before then it was the only entry.
trim_item_left :
    (item : CartItem) (overflow count : ℕ)
    → 1 ≤ item.qty
    → let (kept, left) = trim_item false item overflow count in
      0 < left
      → (quantity kept ≡ length kept)
        × (length kept ≤ (if ltb 1 item.qty then 1 else 0) ⊎ (count ≤ 1))
unfolding trim_item
trim_item_left item overflow count h = ground arith

-- The whole loop.
pub record Balanced (before : ℕ) (items : List CartItem) (overflow : ℕ) (items' : List CartItem)
    (left : ℕ) : Type 0 where
  pub balance : quantity items' + overflow ≡ quantity items + left
  pub falls : left ≤ overflow
  pub positive : Positive items'
  pub stays : 1 ≤ before + length items → 1 ≤ before + length items'
  pub shrinks : length items' ≤ length items
  pub fewer : multiples items' ≤ multiples items

multiples-append : (xs ys : List CartItem) → multiples (xs ++ ys) ≡ multiples xs + multiples ys
multiples-append [] ys = omega arith
multiples-append (x ∷ xs) ys = omega (arith, multiples-append xs ys)

pub trim-Balanced :
    (passes : ℕ → Bool) (before : ℕ) (items : List CartItem) (overflow : ℕ)
    → Positive items
    → let (items', left) = trim passes before items overflow in
      Balanced before items overflow items' left
unfolding trim
trim-Balanced passes before [] overflow h = record {
  balance = omega arith;
  falls = omega arith;
  positive = tt;
  stays = λ k. k;
  shrinks = omega arith;
  fewer = omega arith;
}
trim-Balanced passes before (item ∷ items) overflow h =
    let (items', overflow') = trim passes (suc before) items overflow in
    let rest = trim-Balanced passes (suc before) items overflow h.1 in
    let step =
      trim_item-Trimmed (passes item.item_id) item overflow' (before + suc (length items')) h.0 in
    let kept = (trim_item (passes item.item_id) item overflow' (before + suc (length items'))).0 in
    record {
      balance =
          omega (
            arith,
            sum_by-append (λ (x : CartItem). x.qty) kept items',
            step.balance,
            rest.balance,
          );
      falls = omega (arith, step.falls, rest.falls);
      positive = All-append (λ x. 1 ≤ x.qty) kept items' step.positive rest.positive;
      stays = λ k. stays kept items' step.stays;
      shrinks = omega (arith, length-append kept items', step.shrinks, rest.shrinks);
      fewer = omega (arith, multiples-append kept items', step.fewer, rest.fewer);
    }
  where
    stays :
        (kept items' : List CartItem)
        → (before + suc (length items') ≤ 1 → length kept ≡ 1)
        → 1 ≤ before + length (kept ++ items')
    stays kept items' one = grind (arith, length-append kept items')

-- Where overflow is left after a loop that passes nothing over, the entries that stay have one unit
-- each, and they are among the multiples, or there is one at most.
pub record Exhausted (before : ℕ) (items items' : List CartItem) : Type 0 where
  pub ones : quantity items' ≡ length items'
  pub among : (length items' ≤ multiples items) ⊎ ((before ≡ 0) × (length items' ≤ 1))

pub trim-Exhausted :
    (before : ℕ) (items : List CartItem) (overflow : ℕ)
    → Positive items
    → let (items', left) = trim no_id before items overflow in
      0 < left → Exhausted before items items'
unfolding trim
trim-Exhausted before [] overflow h some_left = record { ones = refl; among = inl (omega arith) }
trim-Exhausted before (item ∷ items) overflow h some_left =
    let (items', overflow') = trim no_id (suc before) items overflow in
    let count = before + suc (length items') in
    let (kept, left) = trim_item false item overflow' count in
    let falls = (trim_item-Trimmed false item overflow' count h.0).falls in
    let shrinks = (trim_item-Trimmed false item overflow' count h.0).shrinks in
    let rest = trim-Exhausted (suc before) items overflow h.1 (omega (arith, falls, some_left)) in
    let (ones, place) = trim_item_left item overflow' count h.0 some_left in
    record {
      ones = omega (
        arith,
        sum_by-append (λ (x : CartItem). x.qty) kept items',
        length-append kept items',
        ones,
        rest.ones,
      );
      among = grind (arith, length-append kept items', place, rest.among, shrinks);
    }
