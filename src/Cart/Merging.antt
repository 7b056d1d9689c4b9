-- ===== src/Cart/Merging.antt =====
-- The raw draws of simulator/cart_builder.py and their merging by item.
use fraud_forecast.Base.{
  ℕ, zero, suc, ◌+◌, ◌-◌, ◌%◌, ◌≤◌, ◌<◌, ◌≡◌, refl, max, ltb, ◌==◌, true, ◌⊎◌, inl, inr, Option,
  none, some, is_some, List, [], ◌∷◌, ◌++◌, length, length-append, get_elem?, sum_by, All,
  All-append, arith, if◌then◌else◌, Bool-cases,
}
use fraud_forecast.Cart.Menu.{Category, main, side, drink, MenuItem, CartItem, quantity}
use fraud_forecast.Cart.Build.{
  listed, CartDraws, choice, in_category, sample_item_qty, by_category, filled, raw_items, add_item,
  merge,
}
use fraud_forecast.Cart.Trimming.{Positive, multiples}

abbrev pub PositiveRaw : List (MenuItem × ℕ) → Type 0
PositiveRaw = All (λ p. 1 ≤ p.1)

pub record Added (qty : ℕ) (items items' : List CartItem) : Type 0 where
  pub units : quantity items' ≡ quantity items + qty
  pub positive : Positive items'
  pub longer : length items' ≤ suc (length items)
  pub some_left : 1 ≤ length items'
  pub few :
      (length items' ≤ length items)
      ⊎ (multiples items' ≤ multiples items + (if ltb 1 qty then 1 else 0))

pub add_item-Added :
    (item : MenuItem) (qty : ℕ) (items : List CartItem)
    → 1 ≤ qty
    → Positive items
    → Added qty items (add_item item qty items)
unfolding add_item
add_item-Added item qty [] h pos = record {
  units = omega arith;
  positive = (h, tt);
  longer = omega arith;
  some_left = omega arith;
  few = ground arith;
}
add_item-Added item qty (x ∷ xs) h pos =
    let rest = add_item-Added item qty xs h pos.1 in
    elim (Bool-cases (x.item_id == item.item_id)) [
      | inl same ↦ rw same (
          let a : Added qty (x ∷ xs) (record x { qty = x.qty + qty } ∷ xs) = record {
            units = omega arith;
            positive = (omega (arith, pos), pos.1);
            longer = omega arith;
            some_left = omega arith;
            few = inl (omega arith);
          } in
          a)
      | inr differs ↦ rw differs (
          let a : Added qty (x ∷ xs) (x ∷ add_item item qty xs) = record {
            units = omega (arith, rest.units);
            positive = (pos.0, rest.positive);
            longer = omega (arith, rest.longer);
            some_left = omega arith;
            few = grind (arith, rest.few);
          } in
          a)
    ]

abbrev pub raw_quantity : List (MenuItem × ℕ) → ℕ
raw_quantity = sum_by (λ (p : MenuItem × ℕ). p.1)

pub record Merged (items : List CartItem) (raw : List (MenuItem × ℕ)) (items' : List CartItem)
    : Type 0 where
  pub units : quantity items' ≡ quantity items + raw_quantity raw
  pub positive : Positive items'
  pub longer : length items' ≤ length items + length raw
  pub some_left : 1 ≤ length items + length raw → 1 ≤ length items'

pub merge-Merged :
    (items : List CartItem) (raw : List (MenuItem × ℕ))
    → Positive items
    → PositiveRaw raw
    → Merged items raw (merge items raw)
unfolding merge
merge-Merged items [] pos praw = record {
  units = omega arith;
  positive = pos;
  longer = omega arith;
  some_left = λ h. omega arith;
}
merge-Merged items ((item, qty) ∷ raw) pos praw =
    let a = add_item-Added item qty items praw.0 pos in
    let m = merge-Merged (add_item item qty items) raw a.positive praw.1 in
    record {
      units = omega (arith, a.units, m.units);
      positive = m.positive;
      longer = omega (arith, a.longer, m.longer);
      some_left = λ h. m.some_left (omega (arith, a.some_left));
    }

-- The raw draws.
get_elem?_some : (xs : List MenuItem) (i : ℕ) → i < length xs → is_some (get_elem? xs i) ≡ true
get_elem?_some [] i l = elim l [ ]
get_elem?_some (x ∷ xs) zero l = refl
get_elem?_some (x ∷ xs) (suc i) l = get_elem?_some xs i (omega arith)

choice_some :
    (menu : List MenuItem) (draw : ℕ) → 1 ≤ length menu → is_some (choice menu draw) ≡ true
choice_some [] draw h = elim h [ ]
choice_some (m ∷ ms) draw h = get_elem?_some (m ∷ ms) (draw % suc (length ms)) (omega arith)

record Drawn (o : Option MenuItem) (qty : ℕ) : Type 0 where
  positive : PositiveRaw (listed o qty)
  short : length (listed o qty) ≤ 1
  full : is_some o ≡ true → length (listed o qty) ≡ 1

listed-Drawn : (o : Option MenuItem) (qty : ℕ) → 1 ≤ qty → Drawn o qty
listed-Drawn none qty h = record { positive = tt; short = omega arith; full = λ e. cc }
listed-Drawn (some m) qty h = record { positive = (h, tt); short = omega arith; full = λ e. refl }

pub raw_quantity_le : (raw : List (MenuItem × ℕ)) → PositiveRaw raw → length raw ≤ raw_quantity raw
raw_quantity_le [] h = omega arith
raw_quantity_le (p ∷ raw) h = omega (arith, h, raw_quantity_le raw h.1)

module _ (menu : List MenuItem) (draws : CartDraws) (some_menu : 1 ≤ length menu) where
  by_category-Positive :
      (c : Category)
      → PositiveRaw (by_category menu draws c) × (length (by_category menu draws c) ≤ 1)
  unfolding by_category
  by_category-Positive c = elim (Bool-cases (draws.applies c)) [
    | inl e ↦
        let l =
          listed-Drawn (choice (in_category c menu) (draws.from_category c)) 1 (omega arith) in
        rw e (l.positive, l.short)
    | inr e ↦ rw e (tt, omega arith)
  ]

  filled-Positive :
      (missing : ℕ)
      → PositiveRaw (filled menu draws missing) × (length (filled menu draws missing) ≡ missing)
  unfolding filled sample_item_qty
  filled-Positive zero = (tt, refl)
  filled-Positive (suc missing) =
      let item = choice menu (draws.from_menu missing) in
      let qty = sample_item_qty (draws.doubles missing) in
      let l = listed-Drawn item qty (ground arith) in
      let (pos, len) = filled-Positive missing in
      (
        All-append (λ (p : MenuItem × ℕ). 1 ≤ p.1) (listed item qty) (filled menu draws missing)
            l.positive pos,
        omega (
          arith,
          length-append (listed item qty) (filled menu draws missing),
          l.full (choice_some menu _ some_menu),
          len,
        ),
      )

  -- The list before merging: every quantity is positive, and there are as many entries as were asked for,
  -- or up to three where the category rules give more.
  pub record Raw (target : ℕ) (raw : List (MenuItem × ℕ)) : Type 0 where
    pub positive : PositiveRaw raw
    pub enough : target ≤ length raw
    pub short : length raw ≤ max 3 target

  pub raw_items-Raw : (target : ℕ) → Raw target (raw_items menu draws target)
  unfolding raw_items
  raw_items-Raw target =
      let m = by_category menu draws main in
      let s = by_category menu draws side in
      let d = by_category menu draws drink in
      let ruled = m ++ (s ++ d) in
      let f = filled menu draws (target - length ruled) in
      let P = λ (p : MenuItem × ℕ). 1 ≤ p.1 in
      let (mp, ml) = by_category-Positive main in
      let (sp, sl) = by_category-Positive side in
      let (dp, dl) = by_category-Positive drink in
      let (fp, fl) = filled-Positive (target - length ruled) in
      record {
        positive = All-append P ruled f (All-append P m (s ++ d) mp (All-append P s d sp dp)) fp;
        enough = omega (arith, length-append ruled f, fl);
        short = omega (
          arith,
          length-append ruled f,
          length-append m (s ++ d),
          length-append s d,
          ml,
          sl,
          dl,
          fl,
        );
      }
