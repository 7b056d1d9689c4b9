-- ===== src/Money/Rounding.antt =====
-- How far the rounded amounts of shared/money.py lie from the exact ones.
use fraud_forecast.Base.{
  ℕ, suc, ◌+◌, ◌*◌, ◌^◌, ◌≤◌, ◌<◌, ◌≡◌, refl, Bool, true, false, List, [], ◌∷◌, arith,
  if◌then◌else◌, ◌∙◌, ap,
}
use fraud_forecast.Base.Int.{ℤ, pos, negsuc, pos_part, neg_part, ◌+ℤ◌, abs, int_laws}
use fraud_forecast.Money.{
  Decimal, signed_digits, hundredfold, VatLineItem, round_half_up, quantize, pounds_to_pence,
  line_vat, vat_from, calculate_vat,
}
use native.Mathlib.Nat.{one-le-pow}

-- Half up rounding is nearest rounding: the exact half goes up.
round_half_up_bounds :
    (n d : ℕ)
    → 0 < d
    → (2 * (round_half_up n d * d) ≤ 2 * n + d) × (2 * n + d < 2 * (round_half_up n d * d) + 2 * d)
unfolding round_half_up
round_half_up_bounds n d h = (grind arith, grind arith)

abbrev pub hot_total : List VatLineItem → ℤ
hot_total [] = pos 0
hot_total (item ∷ items) =
    if item.is_hot_food then item.line_total_pence +ℤ hot_total items else hot_total items

abbrev pub hot_lines : List VatLineItem → ℕ
hot_lines [] = 0
hot_lines (item ∷ items) = if item.is_hot_food then suc (hot_lines items) else hot_lines items

-- `a` lies within `e` of a fifth of `b`, in fifths.
pub record Near (e : ℕ) (a b : ℤ) : Type 0 where
  pub above : 5 * pos_part a + neg_part b ≤ 5 * neg_part a + pos_part b + e
  pub below : 5 * neg_part a + pos_part b ≤ 5 * pos_part a + neg_part b + e

line_vat-Near :
    (item : VatLineItem)
    → Near
        (if item.is_hot_food then 2 else 0)
        (line_vat item)
        (if item.is_hot_food then item.line_total_pence else pos 0)
unfolding line_vat
line_vat-Near item = ground arith

Near-add : {d e : ℕ} {a b x y : ℤ} → Near d a b → Near e x y → Near (d + e) (a +ℤ x) (b +ℤ y)
Near-add near far = record {
  above = omega (int_laws, near.above, far.above);
  below = omega (int_laws, near.below, far.below);
}

Near-cast : {d e : ℕ} {a b c : ℤ} → d ≡ e → b ≡ c → Near d a b → Near e a c
Near-cast p q near = rw (← p, ← q) near

vat_from-Near :
    (total base : ℤ) (e : ℕ) (items : List VatLineItem)
    → Near e total base
    → Near (e + 2 * hot_lines items) (vat_from total items) (base +ℤ hot_total items)
unfolding vat_from
vat_from-Near total base e [] near = record {
  above = omega (int_laws, near.above);
  below = omega (int_laws, near.below);
}
vat_from-Near total base e (item ∷ items) near =
    Near-cast (ground arith) (regroup item.is_hot_food)
      (vat_from-Near (total +ℤ line_vat item) _ _ items (Near-add near (line_vat-Near item)))
  where
    regroup :
        (hot : Bool)
        → (base +ℤ (if hot then item.line_total_pence else pos 0)) +ℤ hot_total items
          ≡ base +ℤ (if hot then item.line_total_pence +ℤ hot_total items else hot_total items)
    regroup true = omega int_laws
    regroup false = omega int_laws

-- The VAT charged on an order, five times over, lies within two pence per hot line of the total of
-- its hot lines, whatever the signs of the line totals; cold lines add nothing.
pub calculate_vat-Near :
    (items : List VatLineItem) → Near (2 * hot_lines items) (calculate_vat items) (hot_total items)
unfolding calculate_vat
calculate_vat-Near items =
    Near-cast (omega arith) (omega int_laws)
      (vat_from-Near (pos 0) (pos 0) 0 items (record { above = omega arith; below = omega arith }))

-- The sign of an amount, its magnitude and the unit of its last place.
abbrev pub unit : Decimal → ℕ
unit amount = 10 ^ amount.places

unit_pos : (k : ℕ) → 0 < 10 ^ k
unit_pos k = one-le-pow k 10 (omega arith)

abs-quantize : (n : ℤ) (d : ℕ) → abs (quantize n d) ≡ round_half_up (abs n) d
abs-quantize (pos n) d = let e : n + 0 ≡ n = omega arith in rw e (abs-quantize_pos n d)
  where
    abs-quantize_pos : (k d : ℕ) → abs (quantize (pos k) d) ≡ round_half_up k d
    abs-quantize_pos k d = unfold quantize in omega arith
abs-quantize (negsuc n) d = unfold quantize in ground arith

neg_part-quantize : (n : ℤ) (d : ℕ) → neg_part n ≡ 0 → neg_part (quantize n d) ≡ 0
unfolding quantize
neg_part-quantize (pos n) d h = refl
neg_part-quantize (negsuc n) d h = absurd (omega arith)

pos_part-quantize : (n : ℤ) (d : ℕ) → 0 < d → pos_part n ≡ 0 → pos_part (quantize n d) ≡ 0
unfolding quantize
pos_part-quantize (pos n) d pd h = let e : n ≡ 0 = h in rw e (grind arith)
pos_part-quantize (negsuc n) d pd h = ground arith

abbrev scaled : Decimal → ℤ
scaled amount = hundredfold (signed_digits amount)

scaled_parts :
    (amount : Decimal)
    → (abs (scaled amount) ≡ amount.digits * 100)
      × (amount.negative ≡ false → neg_part (scaled amount) ≡ 0)
      × (amount.negative ≡ true → pos_part (scaled amount) ≡ 0)
scaled_parts amount = (ground arith, λ h. ground arith, λ h. ground arith)

-- The pence of an amount are the nearest to it: the magnitude, counted in units of the amount's last
-- place, differs from a hundred times the digits by at most half of a unit of pence, an exact half
-- going away from zero, and only an amount below zero gives a negative number of pence.
pub pounds_to_pence_nearest :
    (amount : Decimal)
    → let pence = pounds_to_pence amount in
      (2 * (abs pence * unit amount) ≤ 2 * (amount.digits * 100) + unit amount)
      × (2 * (amount.digits * 100) + unit amount < 2 * (abs pence * unit amount) + 2 * unit amount)
      × (amount.negative ≡ false → neg_part pence ≡ 0)
      × (amount.negative ≡ true → pos_part pence ≡ 0)
pounds_to_pence_nearest amount =
    let (size, plus, minus) = scaled_parts amount in
    let (low, high) =
      round_half_up_bounds (amount.digits * 100) (unit amount) (unit_pos amount.places) in
    let e : abs (pounds_to_pence amount) ≡ round_half_up (amount.digits * 100) (unit amount) =
      unfold pounds_to_pence in
      (abs-quantize (scaled amount) (unit amount) ∙ ap (λ k. round_half_up k (unit amount)) size) in
    (
      rw e low,
      rw e high,
      λ h. unfold pounds_to_pence in neg_part-quantize (scaled amount) (unit amount) (plus h),
      λ h.
          unfold pounds_to_pence in
          pos_part-quantize (scaled amount) (unit amount) (unit_pos amount.places) (minus h),
    )
