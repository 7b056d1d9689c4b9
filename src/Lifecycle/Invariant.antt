-- ===== src/Lifecycle/Invariant.antt =====
-- What a row of `orders` keeps to while simulator/lifecycle.py advances it.
use fraud_forecast.Base.{
  ℕ, ◌==◌, ◌≡◌, refl, sym, subst, String, Bool, true, false, ◌&&◌, Option, none, some, is_some,
  List, [], ◌∷◌, All, arith, if◌then◌else◌, Bool-cases, inl, inr, ◌⊎◌,
}
use fraud_forecast.Base.Float.{Floats, Draws}
use fraud_forecast.Lifecycle.Order.{
  Status, accepted, preparing, ready, picked_up, in_transit, delivered, cancelled, failed,
  OrderType, delivery, Reason, TimestampField, Order, is_terminal, status_timestamp_by_state,
}
use fraud_forecast.Lifecycle.Transition.{Namespace}
use fraud_forecast.Lifecycle.Edges.{Edge, accept}
use fraud_forecast.Lifecycle.Outcome.{Outcome, idle, changed, advance_order-Outcome}
use fraud_forecast.Lifecycle.Advance.{
  Tables, Assignment, apply_all, update_orders, update_parts, wants_driver, commit, advance_order,
}

-- The states in which a delivery order must have its driver.
abbrev pub needs_driver : Status → OrderType → Bool
needs_driver accepted delivery = true
needs_driver preparing delivery = true
needs_driver ready delivery = true
needs_driver picked_up delivery = true
needs_driver in_transit delivery = true
needs_driver delivered delivery = true
needs_driver failed delivery = true
needs_driver _ _ = false

abbrev pub is_stamped : Option TimestampField → (TimestampField → Option ℕ) → Bool
is_stamped none stamps = true
is_stamped (some f) stamps = is_some (stamps f)

abbrev pub needs_reason : Status → Bool
needs_reason cancelled = true
needs_reason _ = false

module _ {Float : Type 0} where
  pub record IsConsistent (o : Order Float) : Type 0 where
    -- The terminal time is there in the terminal states and in no other.
    pub terminal : is_some o.terminal_state_reached_at ≡ is_terminal o.order_status
    -- The column that the state names is filled.
    pub stamped : is_stamped (status_timestamp_by_state o.order_status) o.timestamp ≡ true
    pub driven : needs_driver o.order_status o.order_type ≡ true → is_some o.driver_id ≡ true
    pub explained : needs_reason o.order_status ≡ true → is_some o.cancellation_reason ≡ true

  -- The row after a transaction that moves it along an edge.
  advanced-IsConsistent :
      (o : Order Float) {s next : Status} {k : OrderType} {reason : Option Reason}
      (driver_id : Option ℕ) (now : ℕ)
      → o.order_status ≡ s
      → o.order_type ≡ k
      → Edge s k next reason
      → (wants_driver next k ≡ true → is_some driver_id ≡ true)
      → IsConsistent o
      → IsConsistent (apply_all Float o (update_parts Float o next reason driver_id now))
  unfolding update_parts
  advanced-IsConsistent o none now es ek accept w c = ground arith
  advanced-IsConsistent o (some d) now es ek accept w c = ground arith
  advanced-IsConsistent o _ now es ek _ w c = ground arith

  -- The order that a call was given is the row of its key.
  abbrev pub IsCurrent : Order Float → List (Order Float) → Type 0
  IsCurrent order =
      All (λ o. o.order_id ≡ order.order_id → o.placed_at ≡ order.placed_at → o ≡ order)

  update_orders-All :
      (P : Order Float → Type 0) (order : Order Float) (parts : List Assignment)
      (os : List (Order Float))
      → P (apply_all Float order parts)
      → All P os
      → IsCurrent order os
      → All P (update_orders Float parts order.order_id order.placed_at os)
  unfolding update_orders
  update_orders-All P order parts [] new ps cur = tt
  update_orders-All P order parts (o ∷ os) new ps cur = (
    hit (Bool-cases (o.order_id == order.order_id && o.placed_at == order.placed_at)),
    update_orders-All P order parts os new ps.1 cur.1,
  )
    where
      hit :
          let b = o.order_id == order.order_id && o.placed_at == order.placed_at in
          (b ≡ true) ⊎ (b ≡ false) → P (if b then apply_all Float o parts else o)
      hit (inl e) =
          rw e (
            subst (λ x. P (apply_all Float x parts)) (sym (cur.0 (ground arith) (ground arith)))
              new)
      hit (inr e) = rw e ps.0

  Outcome-IsConsistent :
      {tables : Tables Float} {order : Order Float} {r : Bool × Tables Float}
      → Outcome tables order r
      → IsConsistent order
      → All IsConsistent tables.orders
      → IsCurrent order tables.orders
      → All IsConsistent r.1.orders
  unfolding commit
  Outcome-IsConsistent idle c all cur = all
  Outcome-IsConsistent {tables} {order} (changed {next} {reason} d now e w) c all cur =
      update_orders-All IsConsistent order (update_parts Float order next reason d now)
        tables.orders (advanced-IsConsistent order d now refl refl e w c) all cur

module _ (F : Floats) (seeded_rng : ℕ → Namespace → Draws F.Float)
    (driver_in_city : String → Option ℕ) where
  open F use {Float}

  -- A call on a consistent row, given the order as it stands in the table, leaves every row consistent:
  -- terminal times, status timestamps, drivers of delivery orders and reasons of cancellations.
  pub advance_order-IsConsistent :
      (tables : Tables Float) (order : Order Float) (last_state_at : ℕ) (rng : Draws Float)
      (compression : ℕ) (prep_times : ℕ → Option Float) (now : ℕ)
      → IsConsistent order
      → All IsConsistent tables.orders
      → IsCurrent order tables.orders
      → All IsConsistent
          (advance_order F seeded_rng driver_in_city tables order last_state_at rng compression
            prep_times now).1.orders
  advance_order-IsConsistent tables order last_state_at rng compression prep_times now =
      Outcome-IsConsistent (
        advance_order-Outcome F seeded_rng driver_in_city tables order last_state_at rng compression
          prep_times now)
