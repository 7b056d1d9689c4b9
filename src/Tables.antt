-- ===== src/Tables.antt =====
-- The tables that archival/archiver.py and simulator/chargebacks.py share, as
-- db/migrations/versions/001_initial_schema.py and 005_refunds.py create them: the columns that the two
-- read or write. A UUID is its 128-bit number, in whose order PostgreSQL and Python compare; a time is
-- in microseconds.
pub mod Keys
use fraud_forecast.Base.{ℕ, Bool, ◌&&◌, ◌==◌, Option, List, [], ◌∷◌, false, ◌||◌}
use fraud_forecast.Base.Int.{ℤ}
use fraud_forecast.Lifecycle.Order.{Status}

-- `fraud_outcome`, whose NULL is none.
pub data FraudOutcome : Type 0 where
  legit fraud chargeback refund_abuse promo_abuse : FraudOutcome

-- A row of `orders` or of `orders_archive`.
pub record OrderRow : Type 0 where
  pub order_id : ℕ
  pub placed_at : ℕ
  pub order_status : Status
  pub terminal_state_reached_at : Option ℕ
  pub delivered_at : Option ℕ
  pub total_pence : ℤ
  pub chargeback_received_at : Option ℕ
  pub chargeback_amount_pence : Option ℤ
  pub fraud_outcome : Option FraudOutcome

-- A row of `order_items`, of `order_events` or of their archives; `content` stands for the other columns.
pub record ChildRow : Type 0 where
  pub order_id : ℕ
  pub order_placed_at : ℕ
  pub content : ℕ

-- `reason_category`
pub data ReasonCategory : Type 0 where
  category_fraud category_other : ReasonCategory

pub record Chargeback : Type 0 where
  pub order_id : ℕ
  pub order_placed_at : ℕ
  pub reason_category : ReasonCategory
  pub amount_pence : ℤ
  pub received_at : ℕ

pub record Refund : Type 0 where
  pub order_id : ℕ
  pub order_placed_at : ℕ
  pub amount_pence : ℤ
  pub issued_at : ℕ

pub record Database : Type 0 where
  pub orders : List OrderRow
  pub orders_archive : List OrderRow
  pub order_items : List ChildRow
  pub order_items_archive : List ChildRow
  pub order_events : List ChildRow
  pub order_events_archive : List ChildRow
  pub chargebacks : List Chargeback
  pub refunds : List Refund

-- The primary key of an order, and what a child row has of it.
pub record Key : Type 0 where
  pub order_id : ℕ
  pub placed_at : ℕ

abbrev pub row_key : OrderRow → Key
row_key r = record { order_id = r.order_id; placed_at = r.placed_at }

abbrev pub child_key : ChildRow → Key
child_key c = record { order_id = c.order_id; placed_at = c.order_placed_at }

abbrev pub key_eq : Key → Key → Bool
key_eq a b = a.order_id == b.order_id && a.placed_at == b.placed_at

abbrev pub has_key : Key → List Key → Bool
has_key k [] = false
has_key k (l ∷ ls) = key_eq l k || has_key k ls
