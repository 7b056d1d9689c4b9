-- ===== src/Lifecycle/Tests.antt =====
-- Runs of the lifecycle on small tables, over millionths.
use fraud_forecast.Base.{
  ℕ, ◌≡◌, ◌≤◌, ◌*◌, refl, inl, Option, none, some, [], ◌∷◌, String, true, length, All,
}
use fraud_forecast.Base.Float.{Draws, millionths}
use fraud_forecast.Lifecycle.Order.{
  placed, accepted, ready, cancelled, delivery, pickup, no_show, Order,
}
use fraud_forecast.Lifecycle.Transition.{Namespace, compute_transition, from_status}
use fraud_forecast.Lifecycle.Edges.{
  Edge, give_up, constant, compute_transition-Edge, Edge-compute_transition,
}
use fraud_forecast.Lifecycle.Advance.{
  Tables, advance_order, take_step, transition_of, advance_to, commit, update_orders, update_parts,
  event_row,
}
use fraud_forecast.Lifecycle.Invariant.{IsConsistent, advance_order-IsConsistent}
use fraud_forecast.Lifecycle.Progress.{
  Reported, advance_order-Reported, Calls, none_left, call, Calls-length,
}

abbrev seeded : ℕ → Namespace → Draws ℕ
seeded order_id namespace = constant 0

abbrev drivers : String → Option ℕ
drivers city = some 77

abbrev order : Order ℕ
order = record {
  order_id = 5;
  placed_at = 1;
  order_status = placed;
  order_type = delivery;
  store_id = some 3;
  store_city = some "Leeds";
  delivery_distance_km = none;
  driver_id = none;
  timestamp = λ f. none;
  terminal_state_reached_at = none;
  cancellation_reason = none;
  cancelled_by = none;
}

abbrev tables : Tables ℕ
tables = record { orders = order ∷ []; order_events = [] }

abbrev no_times : ℕ → Option ℕ
no_times store = none

program : Unit {0}
unfolding advance_order take_step transition_of advance_to commit update_orders update_parts
    event_row compute_transition from_status
program = tt

accepted_after :
    (advance_order millionths seeded drivers tables order 0 (constant 0) 60 no_times 1_000_000).0
    ≡ true
unfolding program
accepted_after = refl

order-IsConsistent : IsConsistent order
order-IsConsistent = record {
  terminal = refl;
  stamped = refl;
  driven = λ h. cc;
  explained = λ h. cc;
}

advance_order-IsConsistent_example :
    All IsConsistent
      (advance_order millionths seeded drivers tables order 0
        (constant 0)
        60
        no_times
        1_000_000).1.orders
advance_order-IsConsistent_example =
    advance_order-IsConsistent millionths seeded drivers tables order 0 (constant 0) 60 no_times
      1_000_000 order-IsConsistent (order-IsConsistent, tt) ((λ p q. refl), tt)

advance_order-Reported_example :
    Reported tables order
      (advance_order millionths seeded drivers tables order 0 (constant 0) 60 no_times 1_000_000)
advance_order-Reported_example =
    advance_order-Reported millionths seeded drivers tables order 0 (constant 0) 60 no_times
      1_000_000 (inl refl) ((λ p q. refl), tt)

compute_transition-Edge_example : Edge placed delivery accepted none
unfolding program
compute_transition-Edge_example =
    compute_transition-Edge millionths seeded placed delivery 30_000_000 (constant 0) (some 5) none
      none refl

Edge-compute_transition_example :
    (elapsed : ℕ) × (rng : Draws ℕ) × (seeded_rng : ℕ → Namespace → Draws ℕ) × (compute_transition
        millionths seeded_rng ready pickup elapsed rng
        (some 1)
        none
        none
      ≡ some (cancelled, some no_show))
Edge-compute_transition_example = Edge-compute_transition give_up

one_call :
    Calls millionths seeded drivers tables 1
      (advance_order millionths seeded drivers tables order 0 (constant 0) 60 no_times 1_000_000).1
unfolding program
one_call =
    call order 0 (constant 0) 60 no_times 1_000_000 (inl refl) ((λ p q. refl), tt) refl none_left

Calls-length_example : 1 ≤ 6 * length tables.orders
Calls-length_example = Calls-length millionths seeded drivers one_call
