-- ===== src/Lifecycle/Progress.antt =====
-- Every change that simulator/lifecycle.py makes brings its order nearer to an end, and is logged.
use fraud_forecast.Base.{
  ℕ, ◌+◌, ◌*◌, ◌≤◌, ◌<◌, ◌==◌, ◌≡◌, refl, sym, subst, String, Bool, true, false, ◌&&◌, Option, none,
  some, List, [], ◌∷◌, ◌++◌, length, Among, sum_by, arith, if◌then◌else◌, Bool-cases, inl, inr,
}
use fraud_forecast.Base.Float.{Floats, Draws}
use fraud_forecast.Lifecycle.Order.{
  Status, placed, accepted, preparing, ready, picked_up, in_transit, OrderType, Reason, Order,
  Event,
}
use fraud_forecast.Lifecycle.Transition.{Namespace}
use fraud_forecast.Lifecycle.Edges.{Edge, accept}
use fraud_forecast.Lifecycle.Advance.{
  Tables, Assignment, apply_all, update_orders, update_parts, event_row, commit, advance_order,
}
use fraud_forecast.Lifecycle.Outcome.{Outcome, idle, changed, advance_order-Outcome}
use fraud_forecast.Lifecycle.Invariant.{IsCurrent}

-- How many changes a state can still be from its end.
abbrev pub remaining : Status → ℕ
remaining placed = 6
remaining accepted = 5
remaining preparing = 4
remaining ready = 3
remaining picked_up = 2
remaining in_transit = 1
remaining _ = 0

module _ {Float : Type 0} where
  abbrev pub weight : Order Float → ℕ
  weight o = remaining o.order_status

  advanced-weight :
      (o : Order Float) {s next : Status} {k : OrderType} {reason : Option Reason}
      (driver_id : Option ℕ) (now : ℕ)
      → o.order_status ≡ s
      → Edge s k next reason
      → weight (apply_all Float o (update_parts Float o next reason driver_id now)) < weight o
  unfolding update_parts
  advanced-weight o none now es accept = ground arith
  advanced-weight o (some d) now es accept = ground arith
  advanced-weight o none now es _ = ground arith
  advanced-weight o (some d) now es _ = ground arith

  module _ (order : Order Float) (parts : List Assignment)
      (falls : weight (apply_all Float order parts) < weight order) where
    abbrev after : List (Order Float) → List (Order Float)
    after = update_orders Float parts order.order_id order.placed_at

    head-le :
        (o : Order Float)
        → (o.order_id ≡ order.order_id → o.placed_at ≡ order.placed_at → o ≡ order)
        → weight (
            if o.order_id == order.order_id && o.placed_at == order.placed_at
            then apply_all Float o parts
            else o)
          ≤ weight o
    head-le o cur =
        elim (Bool-cases (o.order_id == order.order_id && o.placed_at == order.placed_at)) [
          | inl e ↦ rw e (
              subst (λ x. weight (apply_all Float x parts) ≤ weight x)
                (sym (cur (ground arith) (ground arith))) (omega (arith, falls)))
          | inr e ↦ rw e (omega arith)
        ]

    head-lt :
        (o : Order Float)
        → o ≡ order
        → weight (
            if o.order_id == order.order_id && o.placed_at == order.placed_at
            then apply_all Float o parts
            else o)
          < weight o
    head-lt o e =
        let key : (o.order_id == order.order_id && o.placed_at == order.placed_at) ≡ true =
          ground arith in
        rw key (subst (λ x. weight (apply_all Float x parts) < weight x) (sym e) falls)

    sum_by-after-le :
        (os : List (Order Float)) → IsCurrent order os → sum_by weight (after os) ≤ sum_by weight os
    unfolding update_orders
    sum_by-after-le [] cur = omega arith
    sum_by-after-le (o ∷ os) cur = omega (arith, head-le o cur.0, sum_by-after-le os cur.1)

    pub sum_by-after-lt :
        (os : List (Order Float))
        → Among order os
        → IsCurrent order os
        → sum_by weight (after os) < sum_by weight os
    unfolding update_orders
    sum_by-after-lt [] m cur = absurd m
    sum_by-after-lt (o ∷ os) (inl e) cur = omega (arith, head-lt o e, sum_by-after-le os cur.1)
    sum_by-after-lt (o ∷ os) (inr m) cur =
        omega (arith, head-le o cur.0, sum_by-after-lt os m cur.1)

-- What a call is worth: it says false and leaves both tables alone, or it says true, brings the orders
-- nearer to their ends, and appends the one event that leads from the order's state to an allowed next.
pub data Reported {Float : Type 0} (tables : Tables Float) (order : Order Float)
    : Bool × Tables Float → Type 0 where
  nothing : Reported tables order (false, tables)
  logged :
      {after : Tables Float} (event : Event) (reason : Option Reason)
      → after.order_events ≡ tables.order_events ++ event ∷ []
      → event.order_id ≡ order.order_id
      → event.from_status ≡ order.order_status
      → event.reason ≡ reason
      → Edge order.order_status order.order_type event.to_status reason
      → sum_by weight after.orders < sum_by weight tables.orders
      → Reported tables order (true, after)

module _ {Float : Type 0} {tables : Tables Float} {order : Order Float}
    (among : Among order tables.orders) (current : IsCurrent order tables.orders) where
  Outcome-Reported : {r : Bool × Tables Float} → Outcome tables order r → Reported tables order r
  unfolding commit event_row
  Outcome-Reported idle = nothing
  Outcome-Reported (changed {next} {reason} d now e w) =
      logged (event_row Float order next reason d now) reason refl refl refl refl e (
        sum_by-after-lt order (update_parts Float order next reason d now)
          (advanced-weight order d now refl e) tables.orders among current)

  sum_by-Outcome :
      {r : Bool × Tables Float}
      → Outcome tables order r
      → (if r.0 then 1 else 0) + sum_by weight r.1.orders ≤ sum_by weight tables.orders
  unfolding commit
  sum_by-Outcome idle = omega arith
  sum_by-Outcome (changed {next} {reason} d now e w) =
      let falls = advanced-weight order d now refl e in
      omega (
        arith,
        sum_by-after-lt order (update_parts Float order next reason d now) falls tables.orders among
            current,
      )

module _ (F : Floats) (seeded_rng : ℕ → Namespace → Draws F.Float)
    (driver_in_city : String → Option ℕ) where
  open F use {Float}

  -- A call on a row of the table either says false and leaves both tables alone, or says true,
  -- appends exactly one event, which leads from the order's state along an edge and carries that edge's
  -- reason, and lowers the number of changes that the orders still have before them.
  pub advance_order-Reported :
      (tables : Tables Float) (order : Order Float) (last_state_at : ℕ) (rng : Draws Float)
      (compression : ℕ) (prep_times : ℕ → Option Float) (now : ℕ)
      → Among order tables.orders
      → IsCurrent order tables.orders
      → Reported tables order (
          advance_order F seeded_rng driver_in_city tables order last_state_at rng compression
            prep_times now)
  advance_order-Reported tables order last_state_at rng compression prep_times now among current =
      Outcome-Reported among current (
        advance_order-Outcome F seeded_rng driver_in_city tables order last_state_at rng compression
          prep_times now)

  -- Any sequence of calls, each on some row of the table as it stands, with any draws and clocks; the
  -- number counts those that said true.
  pub data Calls : Tables Float → ℕ → Tables Float → Type 0 where
    none_left : {tables : Tables Float} → Calls tables 0 tables
    call :
        {tables after : Tables Float} {n : ℕ} (order : Order Float) (last_state_at : ℕ)
        (rng : Draws Float) (compression : ℕ) (prep_times : ℕ → Option Float) (now : ℕ)
        {r : Bool × Tables Float}
        → Among order tables.orders
        → IsCurrent order tables.orders
        → advance_order F seeded_rng driver_in_city tables order last_state_at rng compression
            prep_times now
          ≡ r
        → Calls r.1 n after
        → Calls tables ((if r.0 then 1 else 0) + n) after

  Calls-weight :
      {tables after : Tables Float} {n : ℕ}
      → Calls tables n after
      → n + sum_by weight after.orders ≤ sum_by weight tables.orders
  Calls-weight none_left = omega arith
  Calls-weight
        (call {tables} order last_state_at rng compression prep_times now among current e rest) =
      let outcome = subst (Outcome tables order) e (
        advance_order-Outcome F seeded_rng driver_in_city tables order last_state_at rng compression
          prep_times now) in
      omega (arith, Calls-weight rest, sum_by-Outcome among current outcome)

  weight-le : (o : Order Float) → weight o ≤ 6
  weight-le o = ground arith

  sum_by-weight-le : (os : List (Order Float)) → sum_by weight os ≤ 6 * length os
  sum_by-weight-le [] = omega arith
  sum_by-weight-le (o ∷ os) = omega (arith, weight-le o, sum_by-weight-le os)

  -- In any sequence of calls, each on an order as it stands in the table at that time, with any draws and
  -- clocks, at most six times as many say true, all orders together, as the table has orders.
  pub Calls-length :
      {tables after : Tables Float} {n : ℕ} → Calls tables n after → n ≤ 6 * length tables.orders
  Calls-length {tables} calls = omega (arith, Calls-weight calls, sum_by-weight-le tables.orders)
