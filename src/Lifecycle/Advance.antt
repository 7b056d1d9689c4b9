-- ===== src/Lifecycle/Advance.antt =====
-- `advance_order` of simulator/lifecycle.py on the two tables that its transaction writes. The rows
-- of `drivers` and of `stores` are read by queries, which are arguments.
use fraud_forecast.Base.{
  ℕ, ◌-◌, ◌==◌, Bool, true, false, ◌&&◌, Option, none, some, is_some, List, [], ◌∷◌, ◌++◌, String,
  if◌then◌else◌,
}
use fraud_forecast.Base.Float.{Floats, Draws}
use fraud_forecast.Lifecycle.Order.{
  Status, accepted, preparing, picked_up, in_transit, delivered, cancelled, failed, OrderType,
  delivery, CancelledBy, Reason, TimestampField, Order, Event, system, driver, is_terminal,
  status_timestamp_by_state, event_by_state,
}
use fraud_forecast.Lifecycle.Transition.{Namespace, compute_transition, cancelled_by_from_reason}

-- An entry of `update_parts` with its value of `update_values`.
pub data Assignment : Type 0 where
  set_order_status : Status → Assignment
  set_timestamp : TimestampField → ℕ → Assignment
  set_terminal_state_reached_at : ℕ → Assignment
  set_cancellation_reason : Option Reason → Assignment
  set_cancelled_by : Option CancelledBy → Assignment
  set_driver_id : ℕ → Assignment

abbrev field_index : TimestampField → ℕ
field_index TimestampField.accepted_at = 0
field_index TimestampField.ready_at = 1
field_index TimestampField.picked_up_at = 2
field_index TimestampField.delivered_at = 3
field_index TimestampField.cancelled_at = 4

abbrev pub set_field : (TimestampField → Option ℕ) → TimestampField → ℕ → TimestampField → Option ℕ
set_field stamps f now g = if field_index f == field_index g then some now else stamps g

abbrev is_status_preparing : Status → Bool
is_status_preparing preparing = true
is_status_preparing _ = false

abbrev is_status_cancelled : Status → Bool
is_status_cancelled cancelled = true
is_status_cancelled _ = false

-- `next_status in {"PICKED_UP", "IN_TRANSIT", "DELIVERED", "FAILED"}`
abbrev pub is_driver_status : Status → Bool
is_driver_status picked_up = true
is_driver_status in_transit = true
is_driver_status delivered = true
is_driver_status failed = true
is_driver_status _ = false

-- `next_status == "ACCEPTED" and order_type.upper() == "DELIVERY"`
abbrev pub wants_driver : Status → OrderType → Bool
wants_driver accepted delivery = true
wants_driver accepted _ = false
wants_driver _ _ = false

abbrev stamp_parts : Option TimestampField → ℕ → List Assignment
stamp_parts none now = []
stamp_parts (some f) now = set_timestamp f now ∷ []

abbrev driver_parts : Option ℕ → List Assignment
driver_parts none = []
driver_parts (some d) = set_driver_id d ∷ []

abbrev or_else : Option ℕ → Option ℕ → Option ℕ
or_else none b = b
or_else (some a) b = some a

-- What the call hands back: an exception, or its Boolean with the tables.
module _ (Float : Type 0) where
  pub record Tables : Type 0 where
    pub orders : List (Order Float)
    pub order_events : List Event

  abbrev pub apply_assignment : Order Float → Assignment → Order Float
  apply_assignment o (set_order_status s) = record o { order_status = s }
  apply_assignment o (set_timestamp f now) = record o { timestamp = set_field o.timestamp f now }
  apply_assignment o (set_terminal_state_reached_at now) = record o {
    terminal_state_reached_at = some now;
  }
  apply_assignment o (set_cancellation_reason r) = record o { cancellation_reason = r }
  apply_assignment o (set_cancelled_by by) = record o { cancelled_by = by }
  apply_assignment o (set_driver_id d) = record o { driver_id = some d }

  abbrev pub apply_all : Order Float → List Assignment → Order Float
  apply_all o [] = o
  apply_all o (a ∷ as') = apply_all (apply_assignment o a) as'

  -- `UPDATE orders SET … WHERE order_id = $2 AND placed_at = $3`
  unfoldable pub update_orders :
      List Assignment → (order_id placed_at : ℕ) → List (Order Float) → List (Order Float)
  update_orders parts order_id placed_at [] = []
  update_orders parts order_id placed_at (o ∷ os) =
      (if o.order_id == order_id && o.placed_at == placed_at then apply_all o parts else o)
      ∷ update_orders parts order_id placed_at os

  unfoldable pub update_parts :
      Order Float → Status → Option Reason → Option ℕ → ℕ → List Assignment
  update_parts order next_status reason driver_id now =
      let cancelled_by = cancelled_by_from_reason reason order.order_status order.order_type in
      let cancel_parts = set_cancellation_reason reason ∷ set_cancelled_by cancelled_by ∷ [] in
      set_order_status next_status
      ∷ (stamp_parts (status_timestamp_by_state next_status) now
          ++ ((if is_terminal next_status then set_terminal_state_reached_at now ∷ [] else [])
              ++ ((if is_status_cancelled next_status then cancel_parts else [])
                  ++ driver_parts driver_id)))

  unfoldable pub event_row : Order Float → Status → Option Reason → Option ℕ → ℕ → Event
  event_row order next_status reason driver_id now = record {
    order_id = order.order_id;
    order_placed_at = order.placed_at;
    event_type = event_by_state next_status;
    from_status = order.order_status;
    to_status = next_status;
    reason = reason;
    status_timestamp_field = status_timestamp_by_state next_status;
    actor_type = if is_driver_status next_status then driver else system;
    actor_id = if is_driver_status next_status then or_else driver_id order.driver_id else none;
    created_at = now;
  }

  -- The transaction: both statements, or neither.
  unfoldable pub commit : Tables → Order Float → Status → Option Reason → Option ℕ → ℕ → Tables
  commit tables order next_status reason driver_id now = record {
    orders =
        update_orders (update_parts order next_status reason driver_id now) order.order_id
          order.placed_at tables.orders;
    order_events = tables.order_events ++ event_row order next_status reason driver_id now ∷ [];
  }

module _ (F : Floats) (seeded_rng : ℕ → Namespace → Draws F.Float)
    (driver_in_city : String → Option ℕ) where
  open F use {Float, lit, mul}

  -- `_pick_driver`: the query's row for the city of the store.
  abbrev pub pick_driver : Option String → Option ℕ
  pick_driver none = none
  pick_driver (some city) = driver_in_city city

  -- The rest of the call for a transition that was found.
  unfoldable pub advance_to :
      Tables Float → Order Float → ℕ → Status → Option Reason → Bool × Tables Float
  advance_to tables order now next_status reason =
      let picked = pick_driver order.store_city in
      if wants_driver next_status order.order_type
      then (if is_some picked
          then (true, commit Float tables order next_status reason picked now)
          else (false, tables))
      else (true, commit Float tables order next_status reason none now)

  -- `simulated_elapsed`, for the elapsed microseconds.
  abbrev pub simulated : ℕ → ℕ → Float
  simulated elapsed compression = mul (lit elapsed 1_000_000) (lit compression 1)

  -- `store_avg_prep_time_min_by_store_id.get(store_id)` where the status is PREPARING.
  abbrev prep_time : (ℕ → Option Float) → Order Float → Option Float
  prep_time prep_times order = elim order.store_id [
    | none ↦ none
    | some store ↦ if is_status_preparing order.order_status then prep_times store else none
  ]

  unfoldable pub transition_of :
      Order Float
      → (elapsed : ℕ) → Draws Float
      → (compression : ℕ) → (ℕ → Option Float)
      → Option (Status × Option Reason)
  transition_of order elapsed rng compression prep_times =
      compute_transition F seeded_rng order.order_status order.order_type
        (simulated elapsed compression) rng (some order.order_id) (prep_time prep_times order)
        order.delivery_distance_km

  -- `if next_status is None: return False`, and the rest of the call.
  unfoldable pub take_step :
      Tables Float → Order Float → ℕ → Option (Status × Option Reason) → Bool × Tables Float
  unfolding advance_to
  take_step tables order now none = (false, tables)
  take_step tables order now (some (next_status, reason)) =
      advance_to tables order now next_status reason

  -- An order of the poll has its id and its placing time: without them the call raises ValueError
  -- before it reads anything else. A negative elapsed time counts as none.
  unfoldable pub advance_order :
      Tables Float
      → Order Float
      → (last_state_at : ℕ) → Draws Float
      → (compression : ℕ) → (ℕ → Option Float)
      → (now : ℕ) → Bool × Tables Float
  advance_order tables order last_state_at rng compression prep_times now =
      let elapsed = now - last_state_at in
      if elapsed == 0
      then (false, tables)
      else take_step tables order now (transition_of order elapsed rng compression prep_times)
