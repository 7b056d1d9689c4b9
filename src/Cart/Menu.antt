-- ===== src/Cart/Menu.antt =====
-- The data of simulator/cart_builder.py, and what `Cart` computes from its items.
use fraud_forecast.Base.{ℕ, ◌+◌, ◌*◌, Bool, List, [], ◌∷◌, sum_by, elem, if◌then◌else◌, String}

pub data Category : Type 0 where
  main side drink : Category
  other : String → Category

pub record MenuItem : Type 0 where
  pub item_id : ℕ
  pub item_name : String
  pub category : Category
  pub price_pence : ℕ
  pub is_hot_food : Bool

pub record CartItem : Type 0 where
  pub item_id : ℕ
  pub name : String
  pub qty : ℕ
  pub unit_price_pence : ℕ
  pub is_hot_food : Bool

pub record Cart : Type 0 where
  pub store_id : ℕ
  pub items : List CartItem

abbrev pub quantity : List CartItem → ℕ
quantity = sum_by (λ item. item.qty)

unfoldable pub line_total_pence : CartItem → ℕ
line_total_pence item = item.qty * item.unit_price_pence

unfoldable pub subtotal_pence : Cart → ℕ
unfolding line_total_pence
subtotal_pence cart = sum_by line_total_pence cart.items

unfoldable pub item_count : Cart → ℕ
item_count cart = quantity cart.items

-- `len({item.item_id for item in self.items})`
abbrev ids_seen : List ℕ → List CartItem → ℕ
ids_seen seen [] = 0
ids_seen seen (item ∷ items) =
    (if elem item.item_id seen then 0 else 1) + ids_seen (item.item_id ∷ seen) items

unfoldable pub unique_item_count : Cart → ℕ
unique_item_count cart = ids_seen [] cart.items
