-- ===== src/Cart/Build.antt =====
-- `build_realistic_cart` of simulator/cart_builder.py.
use fraud_forecast.Base.{
  ℕ, zero, suc, ◌+◌, ◌-◌, ◌%◌, min, max, ltb, leb, ◌==◌, Bool, true, false, ◌||◌, Option, none,
  some, List, [], ◌∷◌, ◌++◌, map, length, get_elem?, filter_by, elem, if◌then◌else◌,
}
use fraud_forecast.Base.Float.{Floats, Draws, next_draws}
use fraud_forecast.Cart.Menu.{Category, main, side, drink, MenuItem, CartItem, Cart, quantity}

-- The `while` loop of `_sample_item_count`, with `math.exp(-lam)` as the threshold. It ends when the
-- product has fallen to the threshold; `none` means that the rounds given were not enough.
module _ (F : Floats) (threshold : F.Float) where
  open F use {Float, mul, lt, lit}

  unfoldable pub rounds : ℕ → Float → ℕ → Draws Float → Option ℕ
  rounds zero p k rng = none
  rounds (suc left) p k rng = elim (lt threshold p) [
    | true ↦ rounds left (mul p (rng 0)) (suc k) (next_draws rng)
    | false ↦ some k
  ]

  unfoldable pub sample_item_count : ℕ → Draws Float → Option ℕ
  unfolding rounds
  sample_item_count left rng = elim (rounds left (lit 1 1) 0 rng) [
    | none ↦ none
    | some k ↦ some (max 1 (min 8 (k - 1)))
  ]

-- What the other draws give: whether a category's rule applies and which of its items it takes, the
-- item and the quantity of each further draw, and the item that is forced.
pub record CartDraws : Type 0 where
  pub applies : Category → Bool
  pub from_category : Category → ℕ
  pub from_menu : ℕ → ℕ
  pub doubles : ℕ → Bool
  pub forced : ℕ

-- `rng.choice(xs)`, where the draw picks among the entries; an empty list raises.
abbrev pub choice {ℓ} : {A : Type ℓ} → List A → ℕ → Option A
choice [] draw = none
choice (x ∷ xs) draw = get_elem? (x ∷ xs) (draw % suc (length xs))

abbrev same_category : Category → Category → Bool
same_category main main = true
same_category side side = true
same_category drink drink = true
same_category _ _ = false

abbrev pub in_category : Category → List MenuItem → List MenuItem
in_category category = filter_by (λ item. same_category item.category category)

-- `_sample_item_qty`
unfoldable pub sample_item_qty : Bool → ℕ
sample_item_qty doubles = if doubles then 2 else 1

abbrev pub listed : Option MenuItem → ℕ → List (MenuItem × ℕ)
listed none qty = []
listed (some item) qty = (item, qty) ∷ []

module _ (menu : List MenuItem) (draws : CartDraws) where
  -- One round of the first loop: `continue` where the category has no item.
  unfoldable pub by_category : Category → List (MenuItem × ℕ)
  by_category category =
      if draws.applies category
      then listed (choice (in_category category menu) (draws.from_category category)) 1
      else []

  -- The `while` loop that fills the list up, by the number still missing.
  unfoldable pub filled : ℕ → List (MenuItem × ℕ)
  unfolding sample_item_qty
  filled zero = []
  filled (suc missing) =
      listed (choice menu (draws.from_menu missing)) (sample_item_qty (draws.doubles missing))
      ++ filled missing

  unfoldable pub raw_items : ℕ → List (MenuItem × ℕ)
  unfolding by_category filled
  raw_items target =
      let ruled = by_category main ++ (by_category side ++ by_category drink) in
      ruled ++ filled (target - length ruled)

abbrev pub new_item : MenuItem → ℕ → CartItem
new_item item qty = record {
  item_id = item.item_id;
  name = item.item_name;
  qty = qty;
  unit_price_pence = item.price_pence;
  is_hot_food = item.is_hot_food;
}

-- `existing_item.qty += qty`, or a new entry at the end.
unfoldable pub add_item : MenuItem → ℕ → List CartItem → List CartItem
add_item item qty [] = new_item item qty ∷ []
add_item item qty (x ∷ xs) =
    if x.item_id == item.item_id
    then record x { qty = x.qty + qty } ∷ xs
    else x ∷ add_item item qty xs

unfoldable pub merge : List CartItem → List (MenuItem × ℕ) → List CartItem
unfolding add_item
merge merged [] = merged
merge merged ((item, qty) ∷ raw) = merge (add_item item qty merged) raw

-- What the loop over `reversed(ordered_item_ids)` does to one entry, with the overflow still to take
-- off and the number of entries that there are.
unfoldable pub trim_item : Bool → CartItem → (overflow count : ℕ) → List CartItem × ℕ
trim_item passed item overflow count =
    if leb overflow 0 || passed
    then (item ∷ [], overflow)
    else if ltb 1 item.qty
    then (
      record item { qty = item.qty - min (item.qty - 1) overflow } ∷ [],
      overflow - min (item.qty - 1) overflow,
    )
    else if ltb 1 count
    then ([], overflow - 1)
    else (item ∷ [], overflow)

-- The loop itself: the entries behind an entry come first. `before` counts the entries before it, and
-- `passes` says which ids `continue` skips.
unfoldable pub trim : (ℕ → Bool) → (before : ℕ) → List CartItem → ℕ → List CartItem × ℕ
unfolding trim_item
trim passes before [] overflow = ([], overflow)
trim passes before (item ∷ items) overflow =
    let (items', overflow') = trim passes (suc before) items overflow in
    let (kept, left) =
      trim_item (passes item.item_id) item overflow' (before + suc (length items')) in
    (kept ++ items', left)

abbrev pub no_id : ℕ → Bool
no_id i = false

-- Down to eight units where no item is protected.
unfoldable pub trim_any : List CartItem → List CartItem
trim_any merged =
    if ltb 8 (quantity merged) then (trim no_id 0 merged (quantity merged - 8)).0 else merged

-- The same with a first pass that spares the main items, and a second pass over what is left.
unfoldable pub trim_mains_last : List ℕ → List CartItem → List CartItem
trim_mains_last main_ids merged =
    let (items, overflow) = trim (λ i. elem i main_ids) 0 merged (quantity merged - 8) in
    if ltb 8 (quantity merged)
    then (if ltb 0 overflow then (trim no_id 0 items overflow).0 else items)
    else merged

abbrev pub any_main : List ℕ → List CartItem → Bool
any_main main_ids [] = false
any_main main_ids (x ∷ xs) = elem x.item_id main_ids || any_main main_ids xs

abbrev pub add_forced : Option MenuItem → List CartItem → List CartItem
add_forced none merged = merged
add_forced (some item) merged = add_item item 1 merged

-- The statement that forces a main item.
unfoldable pub force_main : List MenuItem → CartDraws → List ℕ → List CartItem → List CartItem
unfolding add_item
force_main menu draws main_ids merged =
    if any_main main_ids merged
    then merged
    else add_forced (choice (in_category main menu) draws.forced) merged

unfoldable pub main_item_ids : List MenuItem → List ℕ
main_item_ids menu = map (λ item. item.item_id) (in_category main menu)

-- The entries before trimming.
unfoldable pub merged_items : List MenuItem → CartDraws → ℕ → List CartItem
unfolding raw_items merge
merged_items menu draws target = merge [] (raw_items menu draws target)

abbrev pub is_nil {ℓ} : {A : Type ℓ} → List A → Bool
is_nil [] = true
is_nil (_ ∷ _) = false

-- The cart, for a number of items that was sampled; `none` is the ValueError of an empty menu.
unfoldable pub build_realistic_cart : ℕ → List MenuItem → CartDraws → ℕ → Option Cart
build_realistic_cart store_id [] draws target = none
build_realistic_cart store_id (m ∷ ms) draws target =
    let menu = m ∷ ms in
    let main_ids = main_item_ids menu in
    let merged = merged_items menu draws target in
    let items =
      if is_nil main_ids
      then trim_any merged
      else trim_mains_last main_ids (force_main menu draws main_ids merged) in
    some (record { store_id = store_id; items = items })
