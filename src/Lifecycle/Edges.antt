-- ===== src/Lifecycle/Edges.antt =====
-- The transitions of simulator/lifecycle.py as a relation, written from the table of the phase 2
-- document and the reasons that the code records.
use fraud_forecast.Base.{
  ℕ, ◌≡◌, refl, subst, Option, none, some, Bool, ◌&&◌, if_ind, if◌then◌else◌, ◌==◌,
}
use fraud_forecast.Base.Float.{Floats, Draws, millionths}
use fraud_forecast.Lifecycle.Order.{
  Status, placed, accepted, preparing, ready, picked_up, in_transit, delivered, cancelled, failed,
  OrderType, delivery, pickup, CancelledBy, user, merchant, Reason, cancelled_by_reason,
  out_of_stock, no_show, address_wrong,
}
use fraud_forecast.Lifecycle.Transition.{
  Namespace, is_no_show, sample_ready_delay, pickup_no_show, Step, from_ready_pickup, from_status,
  compute_transition,
}

pub data Edge : Status → OrderType → Status → Option Reason → Type 0 where
  accept : {t : OrderType} → Edge placed t accepted none
  turn_down :
      {t : OrderType} (by : CancelledBy) → Edge placed t cancelled (some (cancelled_by_reason by))
  prepare : {t : OrderType} → Edge accepted t preparing none
  finish : {t : OrderType} → Edge preparing t ready none
  run_out : {t : OrderType} → Edge preparing t cancelled (some out_of_stock)
  pick_up : Edge ready delivery picked_up none
  collect : Edge ready pickup delivered none
  give_up : Edge ready pickup cancelled (some no_show)
  set_off : {t : OrderType} → Edge picked_up t in_transit none
  arrive : {t : OrderType} → Edge in_transit t delivered none
  miss : {t : OrderType} → Edge in_transit t failed (some address_wrong)

-- No step, or a step along an edge.
data Follows (s : Status) (t : OrderType) : Step → Type 0 where
  stay : Follows s t none
  along :
      {next : Status} {reason : Option Reason}
      → Edge s t next reason
      → Follows s t (some (next, reason))

abbrev FollowsTo : Status → OrderType → Step → Type 0
FollowsTo s t none = Unit
FollowsTo s t (some (next, reason)) = Edge s t next reason

Follows-FollowsTo :
    {s : Status} {t : OrderType} {step : Step} → Follows s t step → FollowsTo s t step
Follows-FollowsTo stay = tt
Follows-FollowsTo (along e) = e

either :
    {s : Status} {t : OrderType} (b : Bool) {x y : Step}
    → Follows s t x
    → Follows s t y
    → Follows s t (if b then x else y)
either {s} {t} b {x} {y} p q = if_ind (Follows s t) b x y p q

module _ (F : Floats) (seeded_rng : ℕ → Namespace → Draws F.Float) where
  open F use {Float}

  from_ready_pickup-Follows :
      (elapsed : Float) (rng : Draws Float) (order_id : Option ℕ)
      → Follows ready pickup (from_ready_pickup F seeded_rng elapsed rng order_id)
  unfolding from_ready_pickup
  from_ready_pickup-Follows elapsed rng none =
      either _ stay (either _ (along give_up) (either _ (along collect) stay))
  from_ready_pickup-Follows elapsed rng (some order_id) =
      let gone = is_no_show F seeded_rng order_id in
      let ready_at = sample_ready_delay F seeded_rng order_id in
      either (F.lt elapsed (F.lit 60 1)) stay (
        either (gone && F.lt (F.lit 3600 1) elapsed) (along give_up)
          (either gone stay (either (F.le ready_at elapsed) (along collect) stay)))

  from_status-Follows :
      (s : Status) (t : OrderType) (elapsed : Float) (rng : Draws Float) (order_id : Option ℕ)
      (prep distance : Option Float)
      → Follows s t (from_status F seeded_rng s t elapsed rng order_id prep distance)
  unfolding from_status
  from_status-Follows placed t elapsed rng order_id prep distance =
      either _ stay (either _ (along accept) (along (turn_down _)))
  from_status-Follows accepted t elapsed rng order_id prep distance = along prepare
  from_status-Follows preparing t elapsed rng order_id prep distance =
      either _ stay (either _ (along finish) (along run_out))
  from_status-Follows ready delivery elapsed rng order_id prep distance =
      either _ stay (either _ (along pick_up) stay)
  from_status-Follows ready pickup elapsed rng order_id prep distance =
      from_ready_pickup-Follows elapsed rng order_id
  from_status-Follows picked_up t elapsed rng order_id prep distance = along set_off
  from_status-Follows in_transit t elapsed rng order_id prep distance =
      either _ stay (either _ (along arrive) (along miss))
  from_status-Follows _ t elapsed rng order_id prep distance = stay

  -- Whatever the floats, the draws and the elapsed time, a transition that is found goes along an
  -- edge and carries the reason of that edge.
  pub compute_transition-Edge :
      (s : Status) (t : OrderType) (elapsed : Float) (rng : Draws Float) (order_id : Option ℕ)
      (prep distance : Option Float) {next : Status} {reason : Option Reason}
      → compute_transition F seeded_rng s t elapsed rng order_id prep distance ≡ some (next, reason)
      → Edge s t next reason
  unfolding compute_transition
  compute_transition-Edge s t elapsed rng order_id prep distance e = subst (FollowsTo s t) e (
      Follows-FollowsTo
        (either _ stay (from_status-Follows s t elapsed rng order_id prep distance)))

-- Draws that are all the same number of millionths, for the caller and for both seeded generators.
abbrev pub constant : ℕ → Draws ℕ
constant r n = r

abbrev seeded_as : ℕ → ℕ → ℕ → Namespace → Draws ℕ
seeded_as no_show_draw other_draw order_id pickup_no_show = constant no_show_draw
seeded_as no_show_draw other_draw order_id _ = constant other_draw

-- Every edge is taken: over millionths there are an elapsed time and draws at which an order with an
-- id makes exactly that transition with that reason.
pub Edge-compute_transition :
    {s next : Status} {t : OrderType} {reason : Option Reason}
    → Edge s t next reason
    → (elapsed : ℕ) × (rng : Draws ℕ) × (seeded_rng : ℕ → Namespace → Draws ℕ) × (compute_transition
          millionths seeded_rng s t elapsed rng
          (some 1)
          none
          none
        ≡ some (next, reason))
unfolding compute_transition
Edge-compute_transition accept = (30_000_000, constant 0, seeded_as 0 0, refl)
Edge-compute_transition (turn_down user) =
    (30_000_000, (λ n. if n == 0 then 970_000 else 0), seeded_as 0 0, refl)
Edge-compute_transition (turn_down merchant) = (30_000_000, constant 970_000, seeded_as 0 0, refl)
Edge-compute_transition prepare = (0, constant 0, seeded_as 0 0, refl)
Edge-compute_transition finish = (900_000_000, constant 0, seeded_as 0 0, refl)
Edge-compute_transition run_out = (900_000_000, constant 999_999, seeded_as 0 0, refl)
Edge-compute_transition pick_up = (60_000_000, constant 0, seeded_as 0 0, refl)
Edge-compute_transition collect = (60_000_000, constant 0, seeded_as 50_000 0, refl)
Edge-compute_transition give_up = (3_600_000_001, constant 0, seeded_as 0 0, refl)
Edge-compute_transition set_off = (0, constant 0, seeded_as 0 0, refl)
Edge-compute_transition arrive = (900_000_000, constant 0, seeded_as 0 0, refl)
Edge-compute_transition miss = (900_000_000, constant 999_999, seeded_as 0 0, refl)
