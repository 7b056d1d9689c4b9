-- ===== src/Money/Tests.antt =====
-- Runs of the money helpers.
use fraud_forecast.Base.{◌+◌, ◌*◌, ◌≤◌, ◌<◌, ◌≡◌, refl, true, false, some, List, [], ◌∷◌}
use fraud_forecast.Base.Int.{pos, negsuc, pos_part, neg_part}
use fraud_forecast.Money.{
  Decimal, VatLineItem, pounds_to_pence, pounds_text, pence_to_pounds_str, calculate_vat,
}
use fraud_forecast.Money.Rounding.{
  unit, pounds_to_pence_nearest, Near, hot_lines, hot_total, calculate_vat-Near,
}
use fraud_forecast.Money.Price.{read_price, read_price-pence_to_pounds_str}

half_penny : pounds_to_pence (record { negative = true; digits = 12345; places = 3 }) ≡ negsuc 1234
unfolding pounds_to_pence
half_penny = refl

five_pence : pence_to_pounds_str (negsuc 4) ≡ b'-' ∷ 163 ∷ b'0' ∷ b'.' ∷ b'0' ∷ b'5' ∷ []
unfolding pence_to_pounds_str pounds_text
five_pence = refl

read_price-pence_to_pounds_str_example :
    read_price (pence_to_pounds_str (negsuc 4)) ≡ some (negsuc 4)
read_price-pence_to_pounds_str_example = read_price-pence_to_pounds_str (negsuc 4)

abbrev amount : Decimal
amount = record { negative = true; digits = 12345; places = 3 }

pounds_to_pence_nearest_example :
    (2 * (1235 * unit amount) ≤ 2 * (12345 * 100) + unit amount)
    × (2 * (12345 * 100) + unit amount < 2 * (1235 * unit amount) + 2 * unit amount)
    × (true ≡ false → neg_part (negsuc 1234) ≡ 0)
    × (true ≡ true → pos_part (negsuc 1234) ≡ 0)
unfolding pounds_to_pence
pounds_to_pence_nearest_example = pounds_to_pence_nearest amount

abbrev lines : List VatLineItem
lines =
    record { line_total_pence = pos 1250; is_hot_food = true }
    ∷ record { line_total_pence = pos 99; is_hot_food = false }
    ∷ []

calculate_vat-Near_example : Near (2 * hot_lines lines) (calculate_vat lines) (hot_total lines)
calculate_vat-Near_example = calculate_vat-Near lines
