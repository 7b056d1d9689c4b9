-- ===== src/Archiver/Tests.antt =====
-- Runs of the archiver over three orders.
use fraud_forecast.Base.{ℕ, ◌+◌, ◌-◌, ◌*◌, min, ◌≡◌, refl, arith, false, some, none, [], ◌∷◌}
use fraud_forecast.Base.Int.{pos}
use fraud_forecast.Lifecycle.Order.{delivered, placed}
use fraud_forecast.Tables.{OrderRow, Database}
use fraud_forecast.Archiver.{
  Sweep, eligible, terminal_orders, move, archive_one_batch, passes, run_once, forty_eight_hours,
}
use fraud_forecast.Archiver.Moved.{Conserved, run_once-Conserved}
use fraud_forecast.Archiver.Together.{Together, run_once-Together}
use fraud_forecast.Archiver.Complete.{waiting, run_once_complete}

abbrev old_order : ℕ → OrderRow
old_order i = record {
  order_id = i;
  placed_at = 10;
  order_status = delivered;
  terminal_state_reached_at = some 20;
  delivered_at = some 20;
  total_pence = pos 999;
  chargeback_received_at = none;
  chargeback_amount_pence = none;
  fraud_outcome = none;
}

abbrev young_order : OrderRow
young_order = record (old_order 7) { order_status = placed; terminal_state_reached_at = none }

abbrev db : Database
db = record {
  orders = old_order 1 ∷ young_order ∷ old_order 2 ∷ [];
  orders_archive = old_order 9 ∷ [];
  order_items = record { order_id = 2; order_placed_at = 10; content = 5 } ∷ [];
  order_items_archive = [];
  order_events = [];
  order_events_archive = [];
  chargebacks = [];
  refunds = [];
}

abbrev sweep : Sweep
sweep = record { now = forty_eight_hours + 100; locked = λ k. false; fails = false }

both_moved : (run_once 1 5 (λ i. sweep) db).0 ≡ some 2
unfolding run_once passes archive_one_batch move terminal_orders eligible
both_moved = refl

one_moved : (run_once 1 1 (λ i. sweep) db).0 ≡ some 1
unfolding both_moved
one_moved = refl

run_once-Conserved_example : Conserved db (run_once 1 5 (λ i. sweep) db).1
run_once-Conserved_example = run_once-Conserved 1 5 (λ i. sweep) db

run_once-Together_example : Together (run_once 1 5 (λ i. sweep) db).1
run_once-Together_example =
    run_once-Together 1 5 (λ i. sweep) db
      (record {
        hot_items = (refl, tt);
        archived_items = tt;
        hot_events = tt;
        archived_events = tt;
      })

run_once_complete_example :
    ((run_once 1 5 (λ i. sweep) db).0 ≡ some (min (waiting 1 sweep refl (omega arith) db) (5 * 1)))
    × (waiting 1 sweep refl (omega arith) (run_once 1 5 (λ i. sweep) db).1
        ≡ waiting 1 sweep refl (omega arith) db - 5 * 1)
run_once_complete_example =
    run_once_complete 1 sweep refl (omega arith) 5 db (refl, (refl, (refl, tt)))
