-- ===== src/Money/Price.antt =====
-- The printed price of shared/money.py read back.
use fraud_forecast.Base.{
  ℕ, zero, suc, ◌+◌, ◌-◌, ◌*◌, ◌/◌, ◌%◌, ◌<◌, ◌≡◌, refl, Bool, true, false, ◌&&◌, Option, none,
  some, List, [], ◌∷◌, ◌++◌, arith, leb, ltb, ◌==◌, if◌then◌else◌, Bool-cases, inl, inr, ap, ◌∙◌,
}
use fraud_forecast.Base.Int.{ℤ, pos, negsuc, sub_ℕ}
use fraud_forecast.Money.{decimal_digits, pounds_text, pence_to_pounds_str}
use mathlib.Core.List.{append_assoc}

abbrev is_digit : ℕ → Bool
is_digit c = leb b'0' c && leb c b'9'

-- The digits up to the point, as a number, and what follows the point.
read_pounds : ℕ → List ℕ → Option (ℕ × List ℕ)
read_pounds acc [] = none
read_pounds acc (c ∷ cs) =
    let rest = read_pounds (acc * 10 + (c - 48)) cs in
    if c == b'.' then some (acc, cs) else if is_digit c then rest else none

-- Two digits and no more.
read_fraction : List ℕ → Option ℕ
read_fraction (t ∷ u ∷ []) =
    if is_digit t && is_digit u then some ((t - 48) * 10 + (u - 48)) else none
read_fraction _ = none

abbrev finish : Option (ℕ × List ℕ) → Option ℕ
finish none = none
finish (some (pounds, rest)) = elim (read_fraction rest) [
  | none ↦ none
  | some p ↦ some (pounds * 100 + p)
]

read_amount : List ℕ → Option ℕ
unfolding read_pounds read_fraction
read_amount [] = none
read_amount (c ∷ cs) = if c == 163 then finish (read_pounds 0 cs) else none

-- A reader of prices that is written without regard to the printer: an optional minus sign, the
-- pound sign, digits, a point and exactly two digits.
pub read_price : List ℕ → Option ℤ
read_price [] = none
read_price (c ∷ cs) =
    if c == b'-'
    then elim (read_amount cs) [ none ↦ none | some n ↦ some (sub_ℕ 0 n) ]
    else elim (read_amount (c ∷ cs)) [ none ↦ none | some n ↦ some (pos n) ]

decimal_digits_small :
    (bound n : ℕ) → ltb n 10 ≡ true → decimal_digits (suc bound) n ≡ (48 + n) ∷ []
unfolding decimal_digits
decimal_digits_small bound n h = rw h

decimal_digits_large :
    (bound n : ℕ)
    → ltb n 10 ≡ false
    → decimal_digits (suc bound) n ≡ decimal_digits bound (n / 10) ++ (48 + n % 10) ∷ []
unfolding decimal_digits
decimal_digits_large bound n h = rw h

read_pounds_digit :
    (acc d : ℕ) (rest : List ℕ)
    → d < 10
    → read_pounds acc ((48 + d) ∷ rest) ≡ read_pounds (acc * 10 + d) rest
unfolding read_pounds
read_pounds_digit acc d rest h =
    let e : acc * 10 + (48 + d - 48) ≡ acc * 10 + d = omega arith in ground arith

read_pounds_digits :
    (bound n : ℕ) (rest : List ℕ)
    → n < bound
    → read_pounds 0 (decimal_digits bound n ++ rest) ≡ read_pounds n rest
read_pounds_digits zero n rest h = elim h [ ]
read_pounds_digits (suc bound) n rest h = elim (Bool-cases (ltb n 10)) [
  | inl small ↦
      rw (decimal_digits_small bound n small) (
        rw (read_pounds_digit 0 n rest (ground arith)) (ap (λ k. read_pounds k rest) (omega arith)))
  | inr large ↦ rw (decimal_digits_large bound n large) (
      rw append_assoc (
        rw (read_pounds_digits bound (n / 10) ((48 + n % 10) ∷ rest) (ground arith)) (
          rw (read_pounds_digit (n / 10) (n % 10) rest (omega arith))
            (ap (λ k. read_pounds k rest) (omega arith)))))
]

read_fraction_digits :
    (p : ℕ) → p < 100 → read_fraction ((48 + p / 10) ∷ (48 + p % 10) ∷ []) ≡ some p
unfolding read_fraction
read_fraction_digits p h = ground arith

read_pounds_point : (n : ℕ) (rest : List ℕ) → read_pounds n (b'.' ∷ rest) ≡ some (n, rest)
unfolding read_pounds
read_pounds_point n rest = refl

read_amount_pounds : (cs : List ℕ) → read_amount (163 ∷ cs) ≡ finish (read_pounds 0 cs)
unfolding read_amount
read_amount_pounds cs = refl

read_amount-pounds_text : (n : ℕ) → read_amount (pounds_text n) ≡ some n
unfolding pounds_text
read_amount-pounds_text n = rw read_amount_pounds (
    rw (read_pounds_digits (suc (n / 100)) (n / 100) _ (omega arith)) (
      rw read_pounds_point
        (rw (read_fraction_digits (n % 100) (omega arith), finish) (ap some (omega arith)))))

pence_to_pounds_str_pos : (n : ℕ) → pence_to_pounds_str (pos n) ≡ pounds_text n
unfolding pence_to_pounds_str
pence_to_pounds_str_pos n = ground arith

pence_to_pounds_str_neg : (n : ℕ) → pence_to_pounds_str (negsuc n) ≡ b'-' ∷ pounds_text (suc n)
unfolding pence_to_pounds_str
pence_to_pounds_str_neg n = ground arith

read_price_plain :
    (cs : List ℕ) {n : ℕ} → read_amount (163 ∷ cs) ≡ some n → read_price (163 ∷ cs) ≡ some (pos n)
unfolding read_price
read_price_plain cs e = ground arith

read_price_minus :
    (cs : List ℕ) {n : ℕ} → read_amount cs ≡ some n → read_price (b'-' ∷ cs) ≡ some (sub_ℕ 0 n)
unfolding read_price
read_price_minus cs e = ground arith

-- A printed price reads back as the pence it was printed from, for every integer.
pub read_price-pence_to_pounds_str :
    (pence : ℤ) → read_price (pence_to_pounds_str pence) ≡ some pence
read_price-pence_to_pounds_str (pos n) =
    rw pence_to_pounds_str_pos
      (unfold pounds_text in read_price_plain _ (read_amount-pounds_text n))
read_price-pence_to_pounds_str (negsuc n) =
    rw pence_to_pounds_str_neg
      (read_price_minus _ (read_amount-pounds_text (suc n)) ∙ ap some (ground arith))
