-- ===== src/Chargebacks/Tests.antt =====
-- Runs of the chargeback daemon over millionths of a day and of an hour.
use fraud_forecast.Base.{
  ℕ, ◌+◌, ◌-◌, ◌*◌, ◌/◌, ◌≡◌, refl, arith, true, some, none, Option, [], ◌∷◌, map,
}
use fraud_forecast.Base.Int.{pos}
use fraud_forecast.Base.Float.{millionths}
use fraud_forecast.Lifecycle.Order.{delivered}
use fraud_forecast.Tables.{OrderRow, Database}
use fraud_forecast.Chargebacks.{
  stolen_card, refund_abuse, Truth, Python, bulk_chargeback_received_at,
  days_to_chargeback_threshold, chargeback_age_allowed, chargeback_probability, refund_age_allowed,
  refund_due_at_hours, should_chargeback_now,
}
use fraud_forecast.Chargebacks.Emit.{emit, insert_chargeback, insert_refund, update_charged}
use fraud_forecast.Chargebacks.Paging.{pages, handle_all}
use fraud_forecast.Chargebacks.Daemon.{
  days, select, chargeback_candidates, refund_candidates, handle_chargeback, generate_chargebacks,
  handle_refund, generate_refunds, finalize_stale_labels, finalize_legit, finalize_refund_abuse,
}
use fraud_forecast.Chargebacks.Queries.{generate_chargebacks_all, generate_refunds_all}
use fraud_forecast.Chargebacks.Labels.{Labelled, AllLabelled}
use fraud_forecast.Chargebacks.Steps.{Steps, done, then_step, charges, finalizes, Steps-AllLabelled}
use fraud_forecast.Chargebacks.Decisions.{
  ChargedBackAt, bulk_chargeback_received_at-ChargedBackAt, final, finalize_stale_labels_pass,
}

-- Ten days, or five hours, for every seed.
abbrev py : Python ℕ
py = record {
  log = λ n. n * 1_000_000;
  lognormvariate = λ seed mu sigma. 10_000_000;
  random_after = λ seed. 1_000;
  uniform = λ seed a b. 5_000_000;
  days_since = λ later earlier. (later - earlier) / 86_400;
  hours_since = λ later earlier. (later - earlier) / 3_600;
  plus_days = λ at d. at + d * 86_400;
  plus_hours = λ at h. at + h * 3_600;
}

abbrev truths : ℕ → Option Truth
truths order_id = some (record { is_fraud = true; fraud_category = some refund_abuse })

abbrev order : ℕ → OrderRow
order i = record {
  order_id = i;
  placed_at = 10;
  order_status = delivered;
  terminal_state_reached_at = some 20;
  delivered_at = some 20;
  total_pence = pos 999;
  chargeback_received_at = none;
  chargeback_amount_pence = none;
  fraud_outcome = none;
}

abbrev db : Database
db = record {
  orders = order 4 ∷ order 2 ∷ [];
  orders_archive = order 3 ∷ [];
  order_items = [];
  order_items_archive = [];
  order_events = [];
  order_events_archive = [];
  chargebacks = [];
  refunds = [];
}

program : Unit {0}
unfolding generate_chargebacks generate_refunds pages select chargeback_candidates refund_candidates
    should_chargeback_now chargeback_age_allowed chargeback_probability days_to_chargeback_threshold
    emit insert_chargeback insert_refund update_charged handle_refund refund_age_allowed
    refund_due_at_hours bulk_chargeback_received_at finalize_stale_labels finalize_legit
    finalize_refund_abuse
program = tt

-- Pages of one order charge all three back.
three_charged :
    map
      (λ cb. cb.order_id)
      (generate_chargebacks truths millionths py 9 1 (days 20) (days 20) (λ i. 77) db).chargebacks
    ≡ 2 ∷ 3 ∷ 4 ∷ []
unfolding program
three_charged = refl

generate_chargebacks_all_example :
    generate_chargebacks truths millionths py 9 1 (days 20) (days 20) (λ i. 77) db
    ≡ handle_all
        (λ c. c.order_id)
        (handle_chargeback truths millionths py (days 20) (λ i. 77))
        (chargeback_candidates truths (days 20) 0 db)
        db
unfolding program
generate_chargebacks_all_example =
    generate_chargebacks_all truths millionths py 9 1 (days 20) (days 20) (λ i. 77) db (omega arith)
      (omega arith) (refl, (refl, (refl, tt)))

generate_refunds_all_example :
    generate_refunds truths millionths py 9 1 (days 1) (days 1) db
    ≡ handle_all
        (λ c. c.order_id)
        (handle_refund truths millionths py (days 1))
        (refund_candidates truths (days 1) 0 db)
        db
unfolding program
generate_refunds_all_example =
    generate_refunds_all truths millionths py 9 1 (days 1) (days 1) db (omega arith) (omega arith)
      (refl, (refl, (refl, tt)))

order-Labelled : (i : ℕ) → Labelled [] [] (order i)
order-Labelled i = record {
  amount = refl;
  recorded = λ e. cc;
  labelled = λ e. cc;
  charged = λ e. cc;
  refunded = λ e. cc;
}

daemon_ran : Steps truths millionths py db (
    finalize_stale_labels 5 5 5 5
      (generate_chargebacks truths millionths py 9 1 (days 20) (days 20) (λ i. 77) db))
daemon_ran =
    then_step (then_step done (charges 9 1 (days 20) (days 20) (λ i. 77))) (finalizes 5 5 5 5)

Steps-AllLabelled_example : AllLabelled (
    finalize_stale_labels 5 5 5 5
      (generate_chargebacks truths millionths py 9 1 (days 20) (days 20) (λ i. 77) db))
Steps-AllLabelled_example =
    Steps-AllLabelled truths millionths py daemon_ran
      ((order-Labelled 4, (order-Labelled 2, tt)), (order-Labelled 3, tt))

bulk_chargeback_received_at-ChargedBackAt_example :
    ChargedBackAt millionths py 4 20 true (some stolen_card) (days 30) (20 + days 10)
unfolding program
bulk_chargeback_received_at-ChargedBackAt_example =
    bulk_chargeback_received_at-ChargedBackAt millionths py 4 20 true (some stolen_card) (days 30)
      (20 + days 10) refl

finalize_stale_labels_pass_example :
    finalize_stale_labels (days 61) (days 61) (days 61) (days 61) db ≡ (record db {
      orders = map (final (days 61) []) db.orders;
      orders_archive = map (final (days 61) []) db.orders_archive;
    })
finalize_stale_labels_pass_example = finalize_stale_labels_pass (days 61) db
