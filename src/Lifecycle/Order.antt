-- ===== src/Lifecycle/Order.antt =====
-- The `orders` row as simulator/lifecycle.py reads and writes it, the `order_events` row, and the
-- tables at the top of that file. Status and type are the upper-case texts that the code compares;
-- `other` stands for any text that it does not name. Times are microseconds.
use fraud_forecast.Base.{ℕ, Bool, true, false, Option, none, some, String}

pub data Status : Type 0 where
  placed accepted preparing ready picked_up in_transit delivered cancelled refunded failed : Status
  other : String → Status

pub data OrderType : Type 0 where
  delivery pickup : OrderType
  other : String → OrderType

pub data CancelledBy : Type 0 where
  user merchant : CancelledBy

-- The texts that `_compute_transition` returns as a reason; `cancelled_by_reason` is "cancelled_by=…".
pub data Reason : Type 0 where
  cancelled_by_reason : CancelledBy → Reason
  out_of_stock no_show address_wrong : Reason

-- The columns that `_STATUS_TIMESTAMP_BY_STATE` names.
pub data TimestampField : Type 0 where
  accepted_at ready_at picked_up_at delivered_at cancelled_at : TimestampField

pub record Order (Float : Type 0) : Type 0 where
  pub order_id : ℕ
  pub placed_at : ℕ
  pub order_status : Status
  pub order_type : OrderType
  pub store_id : Option ℕ
  pub store_city : Option String
  pub delivery_distance_km : Option Float
  pub driver_id : Option ℕ
  pub timestamp : TimestampField → Option ℕ
  pub terminal_state_reached_at : Option ℕ
  pub cancellation_reason : Option Reason
  pub cancelled_by : Option CancelledBy

pub data EventType : Type 0 where
  order_accepted order_preparing order_ready order_picked_up order_in_transit order_delivered
        order_cancelled order_failed order_state_changed :
      EventType

pub data ActorType : Type 0 where
  system driver : ActorType

pub record Event : Type 0 where
  pub order_id : ℕ
  pub order_placed_at : ℕ
  pub event_type : EventType
  pub from_status : Status
  pub to_status : Status
  pub reason : Option Reason
  pub status_timestamp_field : Option TimestampField
  pub actor_type : ActorType
  pub actor_id : Option ℕ
  pub created_at : ℕ

-- `_TERMINAL_STATES`
abbrev pub is_terminal : Status → Bool
is_terminal Status.delivered = true
is_terminal Status.cancelled = true
is_terminal Status.refunded = true
is_terminal Status.failed = true
is_terminal _ = false

-- `_STATUS_TIMESTAMP_BY_STATE`
abbrev pub status_timestamp_by_state : Status → Option TimestampField
status_timestamp_by_state Status.accepted = some accepted_at
status_timestamp_by_state Status.ready = some ready_at
status_timestamp_by_state Status.picked_up = some picked_up_at
status_timestamp_by_state Status.delivered = some delivered_at
status_timestamp_by_state Status.cancelled = some cancelled_at
status_timestamp_by_state _ = none

-- `_EVENT_BY_STATE.get(next_status, "ORDER_STATE_CHANGED")`
abbrev pub event_by_state : Status → EventType
event_by_state Status.accepted = order_accepted
event_by_state Status.preparing = order_preparing
event_by_state Status.ready = order_ready
event_by_state Status.picked_up = order_picked_up
event_by_state Status.in_transit = order_in_transit
event_by_state Status.delivered = order_delivered
event_by_state Status.cancelled = order_cancelled
event_by_state Status.failed = order_failed
event_by_state _ = order_state_changed
