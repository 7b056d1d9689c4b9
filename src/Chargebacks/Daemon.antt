-- ===== src/Chargebacks/Daemon.antt =====
-- One iteration of the daemon of simulator/chargebacks.py: chargebacks, refunds, and the labels of old
-- orders.
use fraud_forecast.Base.{
  ℕ, ◌+◌, ◌*◌, Bool, true, false, not, ◌&&◌, Option, none, some, is_some, List, [], ◌∷◌, ◌++◌, map,
  leb, ltb, if◌then◌else◌,
}
use fraud_forecast.Base.Float.{Floats}
use fraud_forecast.Tables.{FraudOutcome, legit, OrderRow, Refund, Database}
use fraud_forecast.Chargebacks.{
  FraudCategory, Truth, Python, refund_age_allowed, refund_due_at_hours,
}
use fraud_forecast.Chargebacks.Emit.{
  Candidate, candidate, unlabelled, emit_due, has_refund, insert_refund,
}
use fraud_forecast.Chargebacks.Paging.{pages}

abbrev pub days : ℕ → ℕ
days n = n * 86_400 * 1_000_000

-- `ORDER BY order_id`
abbrev pub place : Candidate → List Candidate → List Candidate
place c [] = c ∷ []
place c (d ∷ ds) =
    let rest = place c ds in if leb c.order_id d.order_id then c ∷ d ∷ ds else d ∷ rest

abbrev pub listed : Option Candidate → List Candidate → List Candidate
listed none rest = rest
listed (some c) rest = place c rest

-- `delivered_at >= NOW() - INTERVAL '90 days'`, which NULL does not satisfy.
abbrev pub delivered_since : ℕ → Option ℕ → Bool
delivered_since sql_now none = false
delivered_since sql_now (some at) = leb sql_now (at + days 90)

-- `gt.fraud_category = 'refund_abuse'`
abbrev pub is_refund_abuse : Option FraudCategory → Bool
is_refund_abuse (some FraudCategory.refund_abuse) = true
is_refund_abuse _ = false

abbrev pub truth_is_refund_abuse : Option Truth → Bool
truth_is_refund_abuse none = false
truth_is_refund_abuse (some truth) = is_refund_abuse truth.fraud_category

module _ (truths : ℕ → Option Truth) where
  -- The rows of the query that pass a test, joined and in order.
  unfoldable pub select : (OrderRow → Bool) → List OrderRow → List Candidate
  select test [] = []
  select test (r ∷ rows) =
      let rest = select test rows in if test r then listed (candidate truths r) rest else rest

  abbrev pub chargeback_test : (sql_now cursor : ℕ) → OrderRow → Bool
  chargeback_test sql_now cursor r =
      delivered_since sql_now r.delivered_at && (unlabelled truths r && ltb cursor r.order_id)

  -- The query of `generate_chargebacks` without its LIMIT.
  unfoldable pub chargeback_candidates : (sql_now cursor : ℕ) → Database → List Candidate
  chargeback_candidates sql_now cursor db =
      select (chargeback_test sql_now cursor) (db.orders ++ db.orders_archive)

  abbrev pub refund_test : (sql_now cursor : ℕ) → List Refund → OrderRow → Bool
  refund_test sql_now cursor refunds r =
      delivered_since sql_now r.delivered_at
      && (truth_is_refund_abuse (truths r.order_id)
          && (not (has_refund r.order_id refunds) && ltb cursor r.order_id))

  -- The query of `generate_refunds` without its LIMIT.
  unfoldable pub refund_candidates : (sql_now cursor : ℕ) → Database → List Candidate
  refund_candidates sql_now cursor db =
      select (refund_test sql_now cursor db.refunds) (db.orders ++ db.orders_archive)

  module _ (F : Floats) (py : Python F.Float) where
    open F use {lt}

    -- `clock` gives the NOW() of each order's transaction.
    abbrev pub handle_chargeback : (now : ℕ) → (clock : ℕ → ℕ) → Candidate → Database → Database
    handle_chargeback now clock c db = emit_due truths F py now (clock c.order_id) c db

    unfoldable pub generate_chargebacks :
        (bound batch_size now sql_now : ℕ) → (clock : ℕ → ℕ) → Database → Database
    generate_chargebacks bound batch_size now sql_now clock db =
        pages (λ c. c.order_id) (handle_chargeback now clock) (chargeback_candidates sql_now)
          batch_size bound 0 db

    abbrev pub issue : Candidate → Database → Database
    issue c db = record db {
      refunds =
          insert_refund
            (record {
              order_id = c.order_id;
              order_placed_at = c.order_placed_at;
              amount_pence = c.total_pence;
              issued_at = py.plus_hours c.delivered_at (refund_due_at_hours F py c.order_id);
            })
            db.refunds;
    }

    abbrev pub refund_due : (now : ℕ) → Candidate → Bool
    refund_due now c =
        refund_age_allowed F py (py.hours_since now c.delivered_at)
        && not (lt (py.hours_since now c.delivered_at) (refund_due_at_hours F py c.order_id))

    unfoldable pub handle_refund : (now : ℕ) → Candidate → Database → Database
    handle_refund now c db = if refund_due now c then issue c db else db

    unfoldable pub generate_refunds : (bound batch_size now sql_now : ℕ) → Database → Database
    generate_refunds bound batch_size now sql_now db =
        pages (λ c. c.order_id) (handle_refund now) (refund_candidates sql_now) batch_size bound 0
          db

-- `delivered_at < NOW() - INTERVAL '60 days'`, which NULL does not satisfy.
abbrev pub delivered_before : ℕ → Option ℕ → Bool
delivered_before now none = false
delivered_before now (some at) = ltb (at + days 60) now

abbrev pub is_stale : ℕ → OrderRow → Bool
is_stale now r = delivered_before now r.delivered_at && not (is_some r.fraud_outcome)

abbrev pub label : FraudOutcome → OrderRow → OrderRow
label outcome r = record r { fraud_outcome = some outcome }

-- The statement that labels stale orders without a refund, and the one for orders with a refund.
unfoldable pub finalize_legit : ℕ → List Refund → List OrderRow → List OrderRow
finalize_legit now refunds =
    map (λ r. if is_stale now r && not (has_refund r.order_id refunds) then label legit r else r)

unfoldable pub finalize_refund_abuse : ℕ → List Refund → List OrderRow → List OrderRow
finalize_refund_abuse now refunds = map (λ r.
    if is_stale now r && has_refund r.order_id refunds
    then label FraudOutcome.refund_abuse r
    else r)

-- The four statements, each with its own NOW().
unfoldable pub finalize_stale_labels : (now1 now2 now3 now4 : ℕ) → Database → Database
finalize_stale_labels now1 now2 now3 now4 db = record db {
  orders = finalize_refund_abuse now3 db.refunds (finalize_legit now1 db.refunds db.orders);
  orders_archive =
      finalize_refund_abuse now4 db.refunds (finalize_legit now2 db.refunds db.orders_archive);
}
