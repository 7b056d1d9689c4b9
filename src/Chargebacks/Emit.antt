-- ===== src/Chargebacks/Emit.antt =====
-- The statements of simulator/chargebacks.py that write, and the two functions that handle one order.
use fraud_forecast.Base.{
  ℕ, ◌==◌, Bool, true, false, not, ◌&&◌, ◌||◌, Option, none, some, is_some, List, [], ◌∷◌, ◌++◌,
  map, if◌then◌else◌,
}
use fraud_forecast.Base.Int.{ℤ}
use fraud_forecast.Base.Float.{Floats}
use fraud_forecast.Tables.{
  FraudOutcome, legit, ReasonCategory, category_fraud, category_other, OrderRow, Chargeback, Refund,
  Database, Key, row_key, key_eq,
}
use fraud_forecast.Chargebacks.{FraudCategory, Truth, Python, should_chargeback_now}

-- A row of the candidates: an order with its ground truth.
pub record Candidate : Type 0 where
  pub order_id : ℕ
  pub order_placed_at : ℕ
  pub delivered_at : ℕ
  pub total_pence : ℤ
  pub is_fraud : Bool
  pub fraud_category : Option FraudCategory

abbrev pub candidate_key : Candidate → Key
candidate_key c = record { order_id = c.order_id; placed_at = c.order_placed_at }

-- `EXISTS (SELECT 1 FROM chargebacks cb WHERE cb.order_id = …)`
abbrev pub has_chargeback : ℕ → List Chargeback → Bool
has_chargeback order_id [] = false
has_chargeback order_id (cb ∷ cbs) = cb.order_id == order_id || has_chargeback order_id cbs

abbrev pub has_refund : ℕ → List Refund → Bool
has_refund order_id [] = false
has_refund order_id (r ∷ rs) = r.order_id == order_id || has_refund order_id rs

-- `INSERT … ON CONFLICT DO NOTHING`, against the unique order ids.
unfoldable pub insert_chargeback : Chargeback → List Chargeback → List Chargeback
insert_chargeback cb cbs = if has_chargeback cb.order_id cbs then cbs else cbs ++ cb ∷ []

unfoldable pub insert_refund : Refund → List Refund → List Refund
insert_refund r rs = if has_refund r.order_id rs then rs else rs ++ r ∷ []

abbrev pub charge : (received_at : ℕ) → ℤ → FraudOutcome → OrderRow → OrderRow
charge received_at amount outcome r = record r {
  chargeback_received_at = some received_at;
  chargeback_amount_pence = some amount;
  fraud_outcome = some outcome;
}

-- `UPDATE … WHERE order_id = $1 AND placed_at = $2`
unfoldable pub update_charged :
    Key → (received_at : ℕ) → ℤ → FraudOutcome → List OrderRow → List OrderRow
update_charged k received_at amount outcome =
    map (λ r. if key_eq (row_key r) k then charge received_at amount outcome r else r)

abbrev pub reason_of : Bool → ReasonCategory
reason_of true = category_fraud
reason_of false = category_other

abbrev pub outcome_of : Bool → FraudOutcome
outcome_of true = FraudOutcome.chargeback
outcome_of false = legit

-- The transaction of a chargeback.
unfoldable pub emit : Candidate → (received_at : ℕ) → Database → Database
emit c received_at db = record db {
  chargebacks =
      insert_chargeback
        (record {
          order_id = c.order_id;
          order_placed_at = c.order_placed_at;
          reason_category = reason_of c.is_fraud;
          amount_pence = c.total_pence;
          received_at = received_at;
        })
        db.chargebacks;
  orders =
      update_charged (candidate_key c) received_at c.total_pence (outcome_of c.is_fraud) db.orders;
  orders_archive =
      update_charged (candidate_key c) received_at c.total_pence (outcome_of c.is_fraud)
        db.orders_archive;
}

module _ (truths : ℕ → Option Truth) where
  -- The join: an order with a delivery time and a ground truth.
  abbrev pub join : OrderRow → Option ℕ → Option Truth → Option Candidate
  join r none truth = none
  join r (some delivered_at) none = none
  join r (some delivered_at) (some truth) = some (record {
    order_id = r.order_id;
    order_placed_at = r.placed_at;
    delivered_at = delivered_at;
    total_pence = r.total_pence;
    is_fraud = truth.is_fraud;
    fraud_category = truth.fraud_category;
  })

  abbrev pub candidate : OrderRow → Option Candidate
  candidate r = join r r.delivered_at (truths r.order_id)

  abbrev pub unlabelled : OrderRow → Bool
  unlabelled r = not (is_some r.chargeback_received_at) && not (is_some r.fraud_outcome)

  -- The query for one order: the first row that it meets.
  unfoldable pub find_candidate : ℕ → List Chargeback → List OrderRow → Option Candidate
  find_candidate order_id cbs [] = none
  find_candidate order_id cbs (r ∷ rows) =
      let rest = find_candidate order_id cbs rows in
      if r.order_id == order_id && (unlabelled r && not (has_chargeback r.order_id cbs))
      then (elim (candidate r) [ none ↦ rest | some c ↦ some c ])
      else rest

  abbrev pub one_candidate : ℕ → Database → Option Candidate
  one_candidate order_id db =
      find_candidate order_id db.chargebacks (db.orders ++ db.orders_archive)

  abbrev pub emit_found : Option Candidate → (received_at : ℕ) → Database → Database
  emit_found none received_at db = db
  emit_found (some c) received_at db = emit c received_at db

  unfoldable pub bulk_emit_chargeback : (order_id received_at : ℕ) → Database → Database
  bulk_emit_chargeback order_id received_at db =
      emit_found (one_candidate order_id db) received_at db

  module _ (F : Floats) (py : Python F.Float) where
    abbrev pub should_emit : (now : ℕ) → Candidate → Bool
    should_emit now c =
        should_chargeback_now F py now c.order_id c.delivered_at c.is_fraud c.fraud_category

    abbrev pub emit_due : (now received_at : ℕ) → Candidate → Database → Database
    emit_due now received_at c db = if should_emit now c then emit c received_at db else db

    abbrev pub emit_found_due : (now : ℕ) → Option Candidate → Database → Database
    emit_found_due now none db = db
    emit_found_due now (some c) db = emit_due now now c db

    unfoldable pub maybe_emit_chargeback : (order_id now : ℕ) → Database → Database
    maybe_emit_chargeback order_id now db = emit_found_due now (one_candidate order_id db) db
