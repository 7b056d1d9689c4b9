-- ===== src/Chargebacks/Paging.antt =====
-- The paged loop that generate_chargebacks and generate_refunds of simulator/chargebacks.py share: fetch the
-- candidates after a cursor, handle a page of them, and go on behind the last.
use fraud_forecast.Base.{ℕ, zero, suc, List, [], ◌∷◌, ltb, length, max, if◌then◌else◌}

abbrev pub take {ℓ} : {A : Type ℓ} → ℕ → List A → List A
take zero xs = []
take (suc n) [] = []
take (suc n) (x ∷ xs) = x ∷ take n xs

module _ {Row State : Type 0} (id_of : Row → ℕ) (handle : Row → State → State) where
  -- `for row in candidate_rows`
  abbrev pub handle_all : List Row → State → State
  handle_all [] s = s
  handle_all (r ∷ rows) s = handle_all rows (handle r s)

  -- `max(… for row in candidate_rows)`, where the cursor is below every row of the page.
  abbrev pub last_id : ℕ → List Row → ℕ
  last_id cursor [] = cursor
  last_id cursor (r ∷ rows) = last_id (max cursor (id_of r)) rows

  module _ (fetch : ℕ → State → List Row) (batch_size : ℕ) where
    -- The loop, with a bound on its pages.
    unfoldable pub pages : (bound cursor : ℕ) → State → State
    pages zero cursor s = s
    pages (suc bound) cursor s =
        let page = take batch_size (fetch cursor s) in
        let after = handle_all page s in
        let rest = pages bound (last_id cursor page) after in
        if ltb (length page) batch_size then after else rest
