-- ===== src/Lifecycle/Transition.antt =====
-- `_compute_transition` and `_cancelled_by_from_reason` of simulator/lifecycle.py. Draws of a
-- `random.Random` are an argument, and so is the generator that is seeded from an order id.
use fraud_forecast.Base.{ℕ, Bool, Option, none, some, get_or, if◌then◌else◌, ◌&&◌}
use fraud_forecast.Base.Float.{Floats, Draws, uniform}
use fraud_forecast.Lifecycle.Order.{
  Status, placed, accepted, preparing, ready, picked_up, in_transit, delivered, cancelled, failed,
  OrderType, delivery, pickup, CancelledBy, user, merchant, Reason, cancelled_by_reason,
  out_of_stock, no_show, address_wrong,
}

-- The second argument of `_seeded_rng`.
pub data Namespace : Type 0 where
  pickup_no_show pickup_ready_delay_minutes in_transit_factor : Namespace

-- `(next_status, reason)`; `none` is `(None, None)`.
abbrev pub Step : Type 0
Step = Option (Status × Option Reason)

module _ (F : Floats) (seeded_rng : ℕ → Namespace → Draws F.Float) where
  open F use {Float, lit, mul, lt, le}

  unfoldable pub from_placed : Float → Draws Float → Step
  from_placed elapsed rng =
      if lt elapsed (lit 30 1)
      then none
      else if lt (rng 0) (lit 97 100)
      then some (accepted, none)
      else some
          (cancelled, some (cancelled_by_reason (if lt (rng 1) (lit 1 2) then user else merchant)))

  unfoldable pub from_preparing : Float → Draws Float → Option Float → Step
  from_preparing elapsed rng avg_prep_time_min =
      let prep_time_min = get_or avg_prep_time_min (lit 10 1) in
      let threshold =
        mul (mul prep_time_min (lit 60 1)) (uniform F (lit 8 10) (lit 12 10) (rng 0)) in
      if lt elapsed threshold
      then none
      else if lt (rng 1) (lit 98 100)
      then some (ready, none)
      else some (cancelled, some out_of_stock)

  unfoldable pub from_ready_delivery : Float → Draws Float → Step
  from_ready_delivery elapsed rng =
      if lt elapsed (lit 60 1)
      then none
      else if lt (rng 0) (lit 99 100)
      then some (picked_up, none)
      else none

  abbrev pub is_no_show : ℕ → Bool
  is_no_show order_id = lt (seeded_rng order_id pickup_no_show 0) (lit 5 100)

  abbrev pub sample_ready_delay : ℕ → Float
  sample_ready_delay order_id =
      uniform F (lit 60 1) (lit 1800 1) (seeded_rng order_id pickup_ready_delay_minutes 0)

  unfoldable pub from_ready_pickup : Float → Draws Float → Option ℕ → Step
  from_ready_pickup elapsed rng none =
      if lt elapsed (lit 60 1)
      then none
      else if le (lit 3600 1) elapsed
      then some (cancelled, some no_show)
      else if le (lit 60 1) elapsed && lt (rng 0) (lit 95 100)
      then some (delivered, none)
      else none
  from_ready_pickup elapsed rng (some order_id) =
      if lt elapsed (lit 60 1)
      then none
      else if is_no_show order_id && lt (lit 3600 1) elapsed
      then some (cancelled, some no_show)
      else if is_no_show order_id
      then none
      else if le (sample_ready_delay order_id) elapsed
      then some (delivered, none)
      else none

  -- The draws for the travel factor and for the roll after it: only where the order has no id does
  -- the factor take a draw of the caller's generator.
  abbrev travel_draws : Draws Float → Option ℕ → Float × Float
  travel_draws rng none = (rng 0, rng 1)
  travel_draws rng (some order_id) = (seeded_rng order_id in_transit_factor 0, rng 0)

  unfoldable pub from_in_transit : Float → Draws Float → Option ℕ → Option Float → Step
  from_in_transit elapsed rng order_id distance_km =
      let distance = get_or distance_km (lit 3 1) in
      let (draw, roll) = travel_draws rng order_id in
      let travel_factor = uniform F (lit 8 10) (lit 15 10) draw in
      let threshold = mul (mul (mul distance (lit 2 1)) (lit 60 1)) travel_factor in
      if lt elapsed threshold
      then none
      else if lt roll (lit 98 100)
      then some (delivered, none)
      else some (failed, some address_wrong)

  unfoldable pub from_status :
      Status → OrderType → Float → Draws Float → Option ℕ → Option Float → Option Float → Step
  unfolding from_placed from_preparing from_ready_delivery from_ready_pickup from_in_transit
  from_status placed order_type elapsed rng order_id prep distance = from_placed elapsed rng
  from_status accepted order_type elapsed rng order_id prep distance = some (preparing, none)
  from_status preparing order_type elapsed rng order_id prep distance =
      from_preparing elapsed rng prep
  from_status ready delivery elapsed rng order_id prep distance = from_ready_delivery elapsed rng
  from_status ready pickup elapsed rng order_id prep distance =
      from_ready_pickup elapsed rng order_id
  from_status ready (OrderType.other _) elapsed rng order_id prep distance = none
  from_status picked_up order_type elapsed rng order_id prep distance = some (in_transit, none)
  from_status in_transit order_type elapsed rng order_id prep distance =
      from_in_transit elapsed rng order_id distance
  from_status _ order_type elapsed rng order_id prep distance = none

  unfoldable pub compute_transition :
      (current_status : Status) (order_type : OrderType) (elapsed : Float) (rng : Draws Float)
      (order_id : Option ℕ) (avg_prep_time_min distance_km : Option Float)
      → Step
  unfolding from_status
  compute_transition status order_type elapsed rng order_id prep distance =
      if lt elapsed (lit 0 1)
      then none
      else from_status status order_type elapsed rng order_id prep distance

-- `_cancelled_by_from_reason`
unfoldable pub cancelled_by_from_status : Status → OrderType → Option CancelledBy
cancelled_by_from_status placed order_type = none
cancelled_by_from_status preparing order_type = some merchant
cancelled_by_from_status ready pickup = some user
cancelled_by_from_status ready _ = none
cancelled_by_from_status _ order_type = none

unfoldable pub cancelled_by_from_reason : Option Reason → Status → OrderType → Option CancelledBy
unfolding cancelled_by_from_status
cancelled_by_from_reason (some (cancelled_by_reason by)) status order_type = some by
cancelled_by_from_reason reason status order_type = cancelled_by_from_status status order_type
