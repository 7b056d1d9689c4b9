-- ===== src/FeatureStore/Aggregator/Update.antt =====
-- The handlers of feature_store/aggregator.py: one order's update, the notification and the backup poll.
-- An exception is `none`. The rows that the queries give, the readings of the clock, `UUID(text)`
-- and `int(text)` are arguments.
use fraud_forecast.Base.{
  ℕ, ◌+◌, ◌-◌, ◌/◌, ◌*◌, Bool, true, false, Option, none, some, List, [], ◌∷◌, String,
  if◌then◌else◌,
}
use fraud_forecast.Base.Int.{ℤ}
use fraud_forecast.FeatureStore.Aggregator.Redis.{Redis}
use fraud_forecast.FeatureStore.Aggregator.Streams.{
  OrderContext, write_user_stream_aggregates, write_device_stream_aggregates,
  write_payment_stream_aggregates, write_ip_stream_aggregates, write_store_stream_aggregates,
  write_address_stream_aggregates,
}

abbrev pub order_ttl_seconds : ℕ
order_ttl_seconds = 600

abbrev pub processed_orders_ttl_seconds : ℕ
processed_orders_ttl_seconds = order_ttl_seconds + 300

abbrev pub backup_poll_fallback_seconds : ℕ
backup_poll_fallback_seconds = 60

-- The start of the bucket that `processed_bucket_key` names.
abbrev pub processed_bucket : ℕ → ℕ
processed_bucket now_ts = (now_ts / order_ttl_seconds) * order_ttl_seconds

-- A column's value, by what `_coerce_uuid` asks of it; `other` is neither a UUID nor a text.
pub data Cell : Type 0 where
  uuid : String → Cell
  text : String → Cell
  null : Cell
  other : Cell

-- A row of `orders`; `placed_at` is none where it is not a datetime.
pub record Row : Type 0 where
  pub order_id : Cell
  pub user_id : Cell
  pub store_id : Cell
  pub merchant_id : Cell
  pub device_id : Cell
  pub ip_address : String
  pub payment_method_id : Cell
  pub delivery_address_id : Cell
  pub total_pence : ℤ
  pub placed_at : Option ℕ
  pub user_email_domain : String

infixl 5 ◌>>=◌
abbrev pub ◌>>=◌ {ℓ κ} : {A : Type ℓ} {B : Type κ} → Option A → (A → Option B) → Option B
none >>= f = none
some a >>= f = f a

-- `UUID(text)`, which gives the id's text in its usual form.
module _ (parse_uuid : String → Option String) where
  abbrev pub coerce_uuid : Cell → Option String
  coerce_uuid (uuid s) = some s
  coerce_uuid (text s) = parse_uuid s
  coerce_uuid null = none
  coerce_uuid other = none

  abbrev pub coerce_uuid_or_none : Cell → Option (Option String)
  coerce_uuid_or_none null = some none
  coerce_uuid_or_none (uuid s) = some (some s)
  coerce_uuid_or_none (text s) = parse_uuid s >>= λ i. some (some i)
  coerce_uuid_or_none other = none

  unfoldable pub coerce_order_context : Row → Option OrderContext
  coerce_order_context row = row.placed_at >>= λ placed_at_ts.
      coerce_uuid row.order_id >>= λ order_id. coerce_uuid row.user_id >>= λ user_id.
      coerce_uuid row.store_id >>= λ store_id. coerce_uuid row.merchant_id >>= λ merchant_id.
      coerce_uuid_or_none row.device_id >>= λ device_id.
      coerce_uuid_or_none row.payment_method_id >>= λ payment_method_id.
      coerce_uuid_or_none row.delivery_address_id >>= λ delivery_address_id. some (record {
        order_id = order_id;
        user_id = user_id;
        store_id = store_id;
        merchant_id = merchant_id;
        device_id = device_id;
        ip_address = row.ip_address;
        payment_method_id = payment_method_id;
        delivery_address_id = delivery_address_id;
        total_pence = row.total_pence;
        placed_at_ts = placed_at_ts;
        user_email_domain = row.user_email_domain;
      })

module _ (R : Redis) where
  open R use {Db, sadd, expire_bucket, sismember}

  unfoldable pub mark_order_processed : String → ℕ → Db → Db
  mark_order_processed order_id now_ts db =
      expire_bucket (processed_bucket now_ts) processed_orders_ttl_seconds now_ts
        (sadd (processed_bucket now_ts) order_id now_ts db)

  unfoldable pub was_order_processed : String → ℕ → Db → Bool
  was_order_processed order_id now_ts db =
      if sismember (processed_bucket now_ts) order_id now_ts db
      then true
      else sismember (processed_bucket (now_ts - order_ttl_seconds)) order_id now_ts db

  module _ (parse_int : String → Option ℤ) where
    -- The six writes of an order.
    unfoldable pub write_all : OrderContext → ℕ → Db → Db
    write_all order now_ts db =
        let db1 = write_user_stream_aggregates R parse_int order now_ts db in
        let db2 = write_device_stream_aggregates R order now_ts db1 in
        let db3 = write_payment_stream_aggregates R order now_ts db2 in
        let db4 = write_ip_stream_aggregates R order now_ts db3 in
        let db5 = write_store_stream_aggregates R order now_ts db4 in
        write_address_stream_aggregates R order now_ts db5

  module _ (parse_int : String → Option ℤ) (parse_uuid : String → Option String)
      (fetchrow : String → Option Row) where
    abbrev pub update_with :
        Option OrderContext → String → (now_ts mark_ts : ℕ) → Db → Option Bool × Db
    update_with none order_id now_ts mark_ts db = (none, db)
    update_with (some order) order_id now_ts mark_ts db =
        (some true, mark_order_processed order_id mark_ts (write_all parse_int order now_ts db))

    abbrev pub update_row : Option Row → String → (now_ts mark_ts : ℕ) → Db → Option Bool × Db
    update_row none order_id now_ts mark_ts db = (some false, db)
    update_row (some row) order_id now_ts mark_ts db =
        update_with (coerce_order_context parse_uuid row) order_id now_ts mark_ts db

    -- The clock is read before the writes and again for the mark.
    unfoldable pub update_features_for_order : String → (now_ts mark_ts : ℕ) → Db → Option Bool × Db
    update_features_for_order order_id now_ts mark_ts db =
        update_row (fetchrow order_id) order_id now_ts mark_ts db

    -- The database with `metrics.errors[0]`.
    abbrev pub count_error : Option Bool × Db → ℕ → Db × ℕ
    count_error (none, db) errors = (db, errors + 1)
    count_error (some updated, db) errors = (db, errors)

    abbrev on_order_id : Option String → (now_ts mark_ts : ℕ) → Db → ℕ → Db × ℕ
    on_order_id none now_ts mark_ts db errors = (db, errors + 1)
    on_order_id (some order_id) now_ts mark_ts db errors =
        count_error (update_features_for_order order_id now_ts mark_ts db) errors

    -- `strip` is `str.strip`.
    unfoldable pub on_order_placed_async :
        (strip : String → String) → String → (now_ts mark_ts : ℕ) → Db → ℕ → Db × ℕ
    on_order_placed_async strip payload now_ts mark_ts db errors =
        on_order_id (parse_uuid (strip payload)) now_ts mark_ts db errors

    -- The body of the loop for a row with an id; `clock` gives the readings of its update.
    unfoldable pub poll_order : (clock : String → ℕ × ℕ) → String → ℕ → Db × ℕ → Db × ℕ
    poll_order clock order_id now_ts (db, errors) =
        if was_order_processed order_id now_ts db
        then (db, errors)
        else count_error
            (update_features_for_order order_id (clock order_id).0 (clock order_id).1 db) errors

    -- A row's turn, and the rest of the loop; an id that cannot be read ends the loop with an
    -- exception, which `false` says.
    abbrev pub poll_next :
        (clock : String → ℕ × ℕ)
        → Option String
        → ℕ
        → (Db × ℕ → Bool × Db × ℕ)
        → Db × ℕ
        → Bool × Db × ℕ
    poll_next clock none now_ts rest (db, errors) = (false, db, errors)
    poll_next clock (some order_id) now_ts rest state =
        rest (poll_order clock order_id now_ts state)

    unfoldable pub poll_rows : (clock : String → ℕ × ℕ) → List Row → ℕ → Db × ℕ → Bool × Db × ℕ
    poll_rows clock [] now_ts (db, errors) = (true, db, errors)
    poll_rows clock (row ∷ rows) now_ts state =
        poll_next clock (coerce_uuid parse_uuid row.order_id) now_ts (poll_rows clock rows now_ts)
          state

    -- `rows_between cutoff now` is what the query gives for `placed_at` after `cutoff` up to `now`.
    unfoldable pub run_backup_poll_once :
        (rows_between : ℕ → ℕ → List Row) → (clock : String → ℕ × ℕ) → ℕ → Db × ℕ → Bool × Db × ℕ
    run_backup_poll_once rows_between clock now_ts state =
        poll_rows clock (rows_between (now_ts - backup_poll_fallback_seconds) now_ts) now_ts state
