-- ===== src/Chargebacks.antt =====
-- simulator/chargebacks.py: which orders are charged back or refunded, and when.
pub mod Emit
pub mod Daemon
pub mod Paging
pub mod PagedAll
pub mod Ordered
pub mod Queries
pub mod Labels
pub mod Decisions
pub mod Steps
mod Tests
use fraud_forecast.Base.{
  ℕ, ◌/◌, ◌^◌, Bool, true, false, not, ◌&&◌, Option, none, some, ltb, if◌then◌else◌,
}
use fraud_forecast.Base.Int.{ℤ}
use fraud_forecast.Base.Float.{Floats}

-- `fraud_category`; the empty case is any other text.
pub data FraudCategory : Type 0 where
  stolen_card account_takeover triangulation collusive_merchant refund_abuse promo_abuse reseller
        other :
      FraudCategory

-- A row of `sim.simulator_ground_truth`, whose primary key is the order's id.
pub record Truth : Type 0 where
  pub is_fraud : Bool
  pub fraud_category : Option FraudCategory

-- What the code takes from Python's library: `math.log`, the first draws of a `random.Random(seed)`
-- and arithmetic on datetimes, which are microseconds.
pub record Python (Float : Type 0) : Type 0 where
  pub log : ℕ → Float
  -- `lognormvariate(mu, sigma)`, and the `random()` that follows it.
  pub lognormvariate : (seed : ℕ) → (mu sigma : Float) → Float
  pub random_after : (seed : ℕ) → Float
  pub uniform : (seed : ℕ) → Float → Float → Float
  -- `(later - earlier).total_seconds() / 86400`, and the same by 3600
  pub days_since : (later earlier : ℕ) → Float
  pub hours_since : (later earlier : ℕ) → Float
  -- `earlier + timedelta(days=d)`, and the same with hours
  pub plus_days : ℕ → Float → ℕ
  pub plus_hours : ℕ → Float → ℕ

-- `int(order_id.bytes[:8].hex(), 16)`
abbrev pub seed_of : ℕ → ℕ
seed_of order_id = order_id / 2 ^ 64

-- `min(chargeback_at, window_end)`
abbrev pub min_time : ℕ → ℕ → ℕ
min_time a b = if ltb b a then b else a

module _ (F : Floats) (py : Python F.Float) where
  open F use {Float, lit, sub, mul, lt, le}

  unfoldable pub chargeback_probability : Bool → Option FraudCategory → Float
  chargeback_probability false category = lit 2 1000
  chargeback_probability true none = lit 0 1
  chargeback_probability true (some stolen_card) = lit 60 100
  chargeback_probability true (some account_takeover) = lit 60 100
  chargeback_probability true (some triangulation) = lit 60 100
  chargeback_probability true (some collusive_merchant) = lit 60 100
  chargeback_probability true (some FraudCategory.refund_abuse) = lit 30 100
  chargeback_probability true (some FraudCategory.promo_abuse) = lit 5 100
  chargeback_probability true (some reseller) = lit 10 100
  chargeback_probability true (some FraudCategory.other) = lit 0 1

  -- `min(a, b)`
  abbrev pub min_float : Float → Float → Float
  min_float a b = if lt b a then b else a

  -- `math.log(days) - sigma**2 / 2`
  abbrev pub mu : ℕ → Float → Float
  mu days sigma = sub (py.log days) (mul (mul sigma sigma) (lit 1 2))

  unfoldable pub days_to_chargeback_threshold : ℕ → Bool → Float
  days_to_chargeback_threshold seed true =
      min_float (py.lognormvariate seed (mu 14 (lit 7 10)) (lit 7 10)) (lit 59 1)
  days_to_chargeback_threshold seed false =
      min_float (py.lognormvariate seed (mu 30 (lit 8 10)) (lit 8 10)) (lit 59 1)

  unfoldable pub chargeback_age_allowed : Float → Bool
  chargeback_age_allowed delivered_age_days = le delivered_age_days (lit 60 1)

  -- `rng.random() < chargeback_probability`, after the threshold was drawn.
  abbrev pub drawn : ℕ → Bool → Option FraudCategory → Bool
  drawn order_id is_fraud category =
      lt (py.random_after (seed_of order_id)) (chargeback_probability is_fraud category)

  -- `rng.random() >= p` is taken as `not (rng.random() < p)`: neither is a NaN.
  unfoldable pub bulk_chargeback_received_at :
      (order_id delivered_at : ℕ) → Bool → Option FraudCategory → (window_end : ℕ) → Option ℕ
  bulk_chargeback_received_at order_id delivered_at is_fraud category window_end =
      let days = days_to_chargeback_threshold (seed_of order_id) is_fraud in
      let chargeback_at = py.plus_days delivered_at days in
      if ltb window_end chargeback_at
      then none
      else if not (chargeback_age_allowed (py.days_since chargeback_at delivered_at))
      then none
      else if not (drawn order_id is_fraud category)
      then none
      else some (min_time chargeback_at window_end)

  unfoldable pub refund_due_at_hours : ℕ → Float
  refund_due_at_hours order_id = py.uniform (seed_of order_id) (lit 0 1) (lit 120 1)

  unfoldable pub bulk_refund_issued_at : (order_id delivered_at window_end : ℕ) → Option ℕ
  bulk_refund_issued_at order_id delivered_at window_end =
      let issued_at = py.plus_hours delivered_at (refund_due_at_hours order_id) in
      if ltb window_end issued_at then none else some issued_at

  unfoldable pub refund_age_allowed : Float → Bool
  refund_age_allowed delivered_age_hours = le delivered_age_hours (lit 120 1)

  -- `should_chargeback_now`, and the test of the age before it.
  unfoldable pub should_chargeback_now :
      (now order_id delivered_at : ℕ) → Bool → Option FraudCategory → Bool
  should_chargeback_now now order_id delivered_at is_fraud category =
      let age = py.days_since now delivered_at in
      chargeback_age_allowed age
      && (le (days_to_chargeback_threshold (seed_of order_id) is_fraud) age
          && drawn order_id is_fraud category)
