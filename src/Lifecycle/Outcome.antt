-- ===== src/Lifecycle/Outcome.antt =====
-- How a call of `advance_order` in simulator/lifecycle.py can end.
use fraud_forecast.Base.{
  ℕ, ◌-◌, ◌==◌, ◌≡◌, refl, String, Bool, true, false, Option, none, some, is_some, if_ind,
  Bool-cases, inl, inr, Option-cases,
}
use fraud_forecast.Base.Float.{Floats, Draws}
use fraud_forecast.Lifecycle.Order.{Status, Reason, Order}
use fraud_forecast.Lifecycle.Transition.{Namespace}
use fraud_forecast.Lifecycle.Edges.{Edge, compute_transition-Edge}
use fraud_forecast.Lifecycle.Advance.{
  Tables, wants_driver, commit, advance_to, take_step, advance_order, transition_of, pick_driver,
}

-- What a call returns: nothing happened, or one logged change of the order.
module _ {Float : Type 0} (tables : Tables Float) (order : Order Float) where
  pub data Outcome : Bool × Tables Float → Type 0 where
    idle : Outcome (false, tables)
    changed :
        {next : Status} {reason : Option Reason} (driver_id : Option ℕ) (now : ℕ)
        → Edge order.order_status order.order_type next reason
        → (wants_driver next order.order_type ≡ true → is_some driver_id ≡ true)
        → Outcome (true, commit Float tables order next reason driver_id now)

module _ (F : Floats) (seeded_rng : ℕ → Namespace → Draws F.Float)
    (driver_in_city : String → Option ℕ) where
  open F use {Float}

  advance_to-Outcome :
      (tables : Tables Float) (order : Order Float) (now : ℕ) {next : Status}
      {reason : Option Reason}
      → Edge order.order_status order.order_type next reason
      → Outcome tables order (advance_to F seeded_rng driver_in_city tables order now next reason)
  unfolding advance_to
  advance_to-Outcome tables order now {next} {reason} e =
      elim (Bool-cases (wants_driver next order.order_type)) [
        | inl w ↦ elim (Option-cases (pick_driver F seeded_rng driver_in_city order.store_city)) [
          | inl p ↦ rw (w, p) idle
          | inr (d, p) ↦ rw (w, p) (changed (some d) now e (λ _. refl))
        ]
        | inr w ↦ rw w (changed none now e (λ h. cc))
      ]

  pub advance_order-Outcome :
      (tables : Tables Float) (order : Order Float) (last_state_at : ℕ) (rng : Draws Float)
      (compression : ℕ) (prep_times : ℕ → Option Float) (now : ℕ)
      → Outcome tables order (
          advance_order F seeded_rng driver_in_city tables order last_state_at rng compression
            prep_times now)
  unfolding advance_order take_step transition_of
  advance_order-Outcome tables order last_state_at rng compression prep_times now =
      if_ind (Outcome tables order) (now - last_state_at == 0) _ _ idle (step _ refl)
    where
      step :
          (x : Option (Status × Option Reason))
          → transition_of F seeded_rng driver_in_city order
              (now - last_state_at)
              rng
              compression
              prep_times
            ≡ x
          → Outcome tables order (take_step F seeded_rng driver_in_city tables order now x)
      step none e = idle
      step (some (next, reason)) e =
          advance_to-Outcome tables order now
            (compute_transition-Edge F seeded_rng _ _ _ rng _ _ _ e)
