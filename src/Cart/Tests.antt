-- ===== src/Cart/Tests.antt =====
-- Carts drawn from a small menu.
use fraud_forecast.Base.{
  ℕ, zero, suc, ◌-◌, ◌<◌, min, max, ◌≤◌, ◌≡◌, refl, ltb, true, false, some, List, [], ◌∷◌, length,
  arith, if◌then◌else◌,
}
use fraud_forecast.Base.Float.{millionths}
use fraud_forecast.Cart.Menu.{
  Category, main, side, MenuItem, Cart, item_count, unique_item_count, subtotal_pence,
}
use fraud_forecast.Cart.Build.{
  CartDraws, sample_item_count, raw_items, by_category, filled, sample_item_qty, merge, add_item,
  trim, trim_item, trim_any, trim_mains_last, force_main, main_item_ids, merged_items, any_main,
  build_realistic_cart,
}
use fraud_forecast.Cart.Trimming.{Positive}
use fraud_forecast.Cart.Sampling.{product, sample_item_count_stop}
use fraud_forecast.Cart.Totals.{build_realistic_cart_size}

program : Unit {0}
unfolding build_realistic_cart merged_items main_item_ids force_main trim_mains_last trim_any trim
    trim_item add_item merge raw_items by_category filled sample_item_qty
program = tt

abbrev item : ℕ → Category → MenuItem
item i category = record {
  item_id = i;
  item_name = "x";
  category = category;
  price_pence = 500;
  is_hot_food = true;
}

abbrev menu : List MenuItem
menu = item 1 side ∷ item 2 side ∷ item 3 main ∷ []

-- No rule applies; the further draws take the first item, two at a time.
abbrev draws : CartDraws
draws = record {
  applies = λ c. false;
  from_category = λ c. 0;
  from_menu = λ n. n;
  doubles = λ n. true;
  forced = 0;
}

abbrev cart : Cart
cart = record {
  store_id = 9;
  items =
      record { item_id = 3; name = "x"; qty = 2; unit_price_pence = 500; is_hot_food = true }
      ∷ record { item_id = 2; name = "x"; qty = 2; unit_price_pence = 500; is_hot_food = true }
      ∷ record { item_id = 1; name = "x"; qty = 2; unit_price_pence = 500; is_hot_food = true }
      ∷ [];
}

cart_built : build_realistic_cart 9 menu draws 3 ≡ some cart
unfolding program
cart_built = refl

build_realistic_cart_size_example :
    (3 ≤ item_count cart) × (item_count cart ≤ 8) × Positive cart.items × (1 ≤ length cart.items)
build_realistic_cart_size_example =
    build_realistic_cart_size 9 menu draws 3 cart (omega arith) (omega arith) cart_built

sample_item_count_stop_example :
    (n : ℕ) × (sample_item_count millionths 82_085 9 (λ n. if ltb n 2 then 500_000 else 1) ≡ some n)
    × (n ≡ max 1 (min 8 (3 - 1)))
    × (1 ≤ n)
    × (n ≤ 8)
sample_item_count_stop_example =
    sample_item_count_stop millionths 82_085 3 9 (λ n. if ltb n 2 then 500_000 else 1) (omega arith)
      above refl
  where
    above :
        (i : ℕ)
        → i < 3
        → ltb 82_085 (product millionths 1_000_000 (λ n. if ltb n 2 then 500_000 else 1) i) ≡ true
    above zero h = refl
    above (suc zero) h = refl
    above (suc (suc zero)) h = refl
    above (suc (suc (suc i))) h = absurd (omega arith)

cart_totals : (unique_item_count cart ≡ 3) × (subtotal_pence cart ≡ 3000)
unfolding unique_item_count subtotal_pence
cart_totals = (refl, refl)

-- Eight sides and one main dish.
abbrev full_menu : List MenuItem
full_menu =
    item 1 side
    ∷ item 2 side
    ∷ item 3 side
    ∷ item 4 side
    ∷ item 5 side
    ∷ item 6 side
    ∷ item 7 side
    ∷ item 8 side
    ∷ item 9 main
    ∷ []

-- The draws above take two of each side: the forced main dish is the first that the second pass deletes.
main_dropped :
    (c : Cart) × (build_realistic_cart 1 full_menu draws 8 ≡ some c)
    × (any_main (9 ∷ []) c.items ≡ false)
unfolding program
main_dropped = (_, refl, refl)
