-- ===== src/Cart/Totals.antt =====
-- How many units a cart of simulator/cart_builder.py holds.
use fraud_forecast.Base.{
  ℕ, ◌≤◌, ◌≡◌, subst, Option, none, some, List, [], ◌∷◌, length, arith, if_ind,
}
use fraud_forecast.Cart.Menu.{main, MenuItem, CartItem, Cart, quantity, item_count}
use fraud_forecast.Cart.Build.{
  add_forced, any_main, CartDraws, choice, in_category, raw_items, add_item, merge, trim_any,
  trim_mains_last, force_main, main_item_ids, merged_items, build_realistic_cart,
}
use fraud_forecast.Cart.Trimming.{Positive, multiples}
use fraud_forecast.Cart.Passes.{Within, trim_any-Within, trim_mains_last-Within}
use fraud_forecast.Cart.Merging.{add_item-Added, merge-Merged, raw_quantity_le, raw_items-Raw}

multiples-le-length : (items : List CartItem) → multiples items ≤ length items
multiples-le-length [] = omega arith
multiples-le-length (x ∷ xs) = ground (arith, multiples-le-length xs)

-- What the merged list is like when trimming begins.
record Ready (target : ℕ) (items : List CartItem) : Type 0 where
  enough : target ≤ quantity items
  positive : Positive items
  few : multiples items ≤ 8
  some_left : 1 ≤ length items

Within-Sized :
    {target : ℕ} {items items' : List CartItem}
    → target ≤ 8
    → Ready target items
    → Within items items'
    → (target ≤ quantity items') × (quantity items' ≤ 8) × Positive items' × (1 ≤ length items')
Within-Sized h r w =
    (omega (arith, r.enough, w.units), omega (arith, w.units), w.positive, w.some_left r.some_left)

module _ (menu : List MenuItem) (draws : CartDraws) (target : ℕ) (some_menu : 1 ≤ length menu)
    (least : 1 ≤ target) (most : target ≤ 8) where
  merged_items-Ready :
      Ready target (merged_items menu draws target) × (length (merged_items menu draws target) ≤ 8)
  unfolding merged_items
  merged_items-Ready =
      let r = raw_items-Raw menu draws some_menu target in
      let m = merge-Merged [] (raw_items menu draws target) tt r.positive in
      (
        record {
          enough =
              omega (
                arith,
                m.units,
                r.enough,
                raw_quantity_le (raw_items menu draws target) r.positive,
              );
          positive = m.positive;
          few = omega (
            arith,
            m.longer,
            r.short,
            multiples-le-length (merge [] (raw_items menu draws target)),
          );
          some_left = m.some_left (omega (arith, r.enough));
        },
        omega (arith, m.longer, r.short),
      )

  add_forced-Ready :
      (o : Option MenuItem) (items : List CartItem)
      → Ready target items
      → length items ≤ 8
      → Ready target (add_forced o items)
  add_forced-Ready none items r h = r
  add_forced-Ready (some item) items r h =
      let a = add_item-Added item 1 items (omega arith) r.positive in
      record {
        enough = omega (arith, a.units, r.enough);
        positive = a.positive;
        few = grind (arith, a.few, r.few, multiples-le-length (add_item item 1 items));
        some_left = a.some_left;
      }

  force_main-Ready :
      (main_ids : List ℕ)
      → Ready target (force_main menu draws main_ids (merged_items menu draws target))
  unfolding force_main
  force_main-Ready main_ids =
      let merged = merged_items menu draws target in
      let (r, h) = merged_items-Ready in
      if_ind (Ready target) (any_main main_ids merged) _ _ r
        (add_forced-Ready (choice (in_category main menu) draws.forced) merged r h)

-- A cart for a sampled number of one to eight holds at least that many units and never more than
-- eight, every entry has a unit, and there is an entry, whatever the menu and the draws.
pub build_realistic_cart_size :
    (store_id : ℕ) (menu : List MenuItem) (draws : CartDraws) (target : ℕ) (cart : Cart)
    → 1 ≤ target
    → target ≤ 8
    → build_realistic_cart store_id menu draws target ≡ some cart
    → (target ≤ item_count cart)
      × (item_count cart ≤ 8)
      × Positive cart.items
      × (1 ≤ length cart.items)
unfolding build_realistic_cart item_count
build_realistic_cart_size store_id [] draws target cart least most e = absurd (cc e)
build_realistic_cart_size store_id (m ∷ ms) draws target cart least most e =
    subst (λ o. Sized o) e (if_ind Items _ _ _ any_case mains_case)
  where
    menu : List MenuItem
    menu = m ∷ ms

    Items : List CartItem → Type 0
    Items items =
        (target ≤ quantity items) × (quantity items ≤ 8) × Positive items × (1 ≤ length items)

    Sized : Option Cart → Type 0
    Sized none = Unit
    Sized (some c) = Items c.items

    any_case : Items (trim_any (merged_items menu draws target))
    any_case =
        let (r, h) = merged_items-Ready menu draws target (omega arith) least most in
        Within-Sized most r (trim_any-Within _ r.positive r.few)

    mains_case : Items (
        trim_mains_last
          (main_item_ids menu)
          (force_main menu draws (main_item_ids menu) (merged_items menu draws target)))
    mains_case =
        let r = force_main-Ready menu draws target (omega arith) least most (main_item_ids menu) in
        Within-Sized most r (trim_mains_last-Within (main_item_ids menu) _ r.positive r.few)
