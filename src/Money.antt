-- ===== src/Money.antt =====
-- shared/money.py: pounds to integer pence, the printed price, VAT over line items, order totals.
-- A `Decimal` is its sign, its digits as one number and its places after the point; the context
-- precision of 28 digits is not modelled. Texts are lists of code points.
pub mod Rounding
pub mod Price
mod Tests
use fraud_forecast.Base.{
  ℕ, zero, suc, ◌+◌, ◌*◌, ◌/◌, ◌%◌, ◌^◌, Bool, List, [], ◌∷◌, ◌++◌, ltb, if◌then◌else◌,
}
use fraud_forecast.Base.Int.{ℤ, pos, negsuc, ◌+ℤ◌, ◌-ℤ◌, abs, sub_ℕ, ltb_ℤ}

pub record Decimal : Type 0 where
  pub negative : Bool
  pub digits : ℕ
  pub places : ℕ

-- `(n / d).quantize(Decimal("1"), rounding=ROUND_HALF_UP)`, on a magnitude.
unfoldable pub round_half_up : ℕ → ℕ → ℕ
round_half_up n d = (2 * n + d) / (2 * d)

-- The same on a signed numerator: half up rounds away from zero.
unfoldable pub quantize : ℤ → ℕ → ℤ
unfolding round_half_up
quantize (pos n) d = pos (round_half_up n d)
quantize (negsuc n) d = sub_ℕ 0 (round_half_up (suc n) d)

abbrev signed_digits : Decimal → ℤ
signed_digits a = if a.negative then sub_ℕ 0 a.digits else pos a.digits

abbrev hundredfold : ℤ → ℤ
hundredfold (pos n) = pos (n * 100)
hundredfold (negsuc n) = sub_ℕ 0 (suc n * 100)

unfoldable pub pounds_to_pence : Decimal → ℤ
unfolding quantize
pounds_to_pence amount = quantize (hundredfold (signed_digits amount)) (10 ^ amount.places)

-- `str(n)` for n >= 0, with the number of digits bounded by the first argument.
decimal_digits : ℕ → ℕ → List ℕ
decimal_digits zero n = []
decimal_digits (suc bound) n =
    let front = decimal_digits bound (n / 10) in
    if ltb n 10 then (48 + n) ∷ [] else front ++ (48 + n % 10) ∷ []

-- `f"£{pounds}.{p:02d}"` for the quotient and the remainder by 100.
unfoldable pub pounds_text : ℕ → List ℕ
unfolding decimal_digits
pounds_text abs_pence =
    let pounds = abs_pence / 100 in
    let p = abs_pence % 100 in
    163 ∷ (decimal_digits (suc pounds) pounds ++ b'.' ∷ (48 + p / 10) ∷ (48 + p % 10) ∷ [])

unfoldable pub pence_to_pounds_str : ℤ → List ℕ
pence_to_pounds_str pence =
    let text = pounds_text (abs pence) in if ltb_ℤ pence (pos 0) then b'-' ∷ text else text

pub record VatLineItem : Type 0 where
  pub line_total_pence : ℤ
  pub is_hot_food : Bool

-- The rates in hundredths.
abbrev vat_rate_standard : ℕ
vat_rate_standard = 20

abbrev vat_rate_zero_rated : ℕ
vat_rate_zero_rated = 0

abbrev times : ℕ → ℤ → ℤ
times k (pos n) = pos (n * k)
times k (negsuc n) = sub_ℕ 0 (suc n * k)

-- The body of the loop: the VAT of one line.
unfoldable pub line_vat : VatLineItem → ℤ
unfolding quantize
line_vat item =
    let rate = if item.is_hot_food then vat_rate_standard else vat_rate_zero_rated in
    quantize (times rate item.line_total_pence) 100

vat_from : ℤ → List VatLineItem → ℤ
unfolding line_vat
vat_from total [] = total
vat_from total (item ∷ items) = vat_from (total +ℤ line_vat item) items

unfoldable pub calculate_vat : List VatLineItem → ℤ
unfolding vat_from
calculate_vat = vat_from (pos 0)

unfoldable pub calculate_total : (subtotal vat delivery_fee service_fee tip discount : ℤ) → ℤ
calculate_total subtotal vat delivery_fee service_fee tip discount =
    subtotal +ℤ vat +ℤ delivery_fee +ℤ service_fee +ℤ tip -ℤ discount
