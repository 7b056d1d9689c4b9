-- ===== src/FeatureStore/Aggregator/Streams.antt =====
-- The stream aggregates of feature_store/aggregator.py: each write adds the order to the sorted sets of
-- one entity and stores the windows' counts in the entity's hash; each refresh only stores them again.
use fraud_forecast.Base.{ℕ, Option, none, some, List, [], ◌∷◌, String}
use fraud_forecast.Base.Int.{ℤ, pos}
use fraud_forecast.FeatureStore.Keys.{Entity, user, device, payment, ip, store, address, HashKey}
use fraud_forecast.FeatureStore.Client.{key}
use fraud_forecast.FeatureStore.Aggregator.Redis.{
  Kind, orders, spend, stores, payments, users, devices, cards_1h, ZsetKey, Field, orders_1h,
  orders_24h, spend_1h_pence, spend_24h_pence, unique_stores_24h, unique_payment_methods_24h,
  unique_users_24h, unique_devices_24h, unique_cards_1h, decline_count_24h, updated_at, plain,
  priced, Redis,
}
use fraud_forecast.FeatureStore.Aggregator.Window.{
  one_hour_seconds, twenty_four_hours_seconds, last_order_age_minutes, count_in, spend_in,
}

-- `_OrderContext`
pub record OrderContext : Type 0 where
  pub order_id : String
  pub user_id : String
  pub store_id : String
  pub merchant_id : String
  pub device_id : Option String
  pub ip_address : String
  pub payment_method_id : Option String
  pub delivery_address_id : Option String
  pub total_pence : ℤ
  pub placed_at_ts : ℕ
  pub user_email_domain : String

abbrev pub zset : Entity → String → Kind → ZsetKey
zset e i k = record { entity = e; id = i; kind = k }

-- The entry of `stream_mapping` for the age, if there is one.
abbrev pub age_entry : Option ℕ → List (Field × ℤ)
age_entry none = []
age_entry (some minutes) = (Field.last_order_age_minutes, pos minutes) ∷ []

module _ (R : Redis) where
  open R use {Db, zadd, second_newest, hset, hdel, expire}

  -- `zadd` of an id that may be None.
  abbrev pub zadd_if : ZsetKey → Option String → ℕ → Db → Db
  zadd_if z none now_ts db = db
  zadd_if z (some i) now_ts db = zadd z (plain i) now_ts db

  -- The `hset` and `expire` of a persist pipeline.
  abbrev pub persist : HashKey → List (Field × ℤ) → Db → Db
  persist k mapping db = expire k twenty_four_hours_seconds (hset k mapping db)

  abbrev pub clear_age : HashKey → Option ℕ → Db → Db
  clear_age k none db = hdel k Field.last_order_age_minutes db
  clear_age k (some minutes) db = db

  abbrev pub hour : Entity → String → Kind → ℕ → Db → ℤ
  hour e i k now_ts db = count_in R (zset e i k) one_hour_seconds now_ts db

  abbrev pub day : Entity → String → Kind → ℕ → Db → ℤ
  day e i k now_ts db = count_in R (zset e i k) twenty_four_hours_seconds now_ts db

  module _ (parse_int : String → Option ℤ) where
    abbrev pub user_mapping : String → ℕ → Db → List (Field × ℤ)
    user_mapping i now_ts db =
        (orders_1h, hour user i orders now_ts db)
        ∷ (orders_24h, day user i orders now_ts db)
        ∷ (spend_1h_pence, spend_in R parse_int (zset user i spend) one_hour_seconds now_ts db)
        ∷ (
          spend_24h_pence,
          spend_in R parse_int (zset user i spend) twenty_four_hours_seconds now_ts db,
        )
        ∷ (unique_stores_24h, day user i stores now_ts db)
        ∷ (unique_payment_methods_24h, day user i payments now_ts db)
        ∷ (updated_at, pos now_ts)
        ∷ age_entry (last_order_age_minutes (second_newest (zset user i orders) db) now_ts)

    unfoldable pub refresh_user_stream_aggregates : String → ℕ → Db → Db
    refresh_user_stream_aggregates i now_ts db =
        let age = last_order_age_minutes (second_newest (zset user i orders) db) now_ts in
        persist (key user i) (user_mapping i now_ts db) (clear_age (key user i) age db)

    abbrev pub add_user_order : OrderContext → ℕ → Db → Db
    add_user_order order now_ts db =
        let db1 = zadd (zset user order.user_id orders) (plain order.order_id) now_ts db in
        let db2 = zadd (zset user order.user_id stores) (plain order.store_id) now_ts db1 in
        let db3 = zadd_if (zset user order.user_id payments) order.payment_method_id now_ts db2 in
        zadd (zset user order.user_id spend) (priced order.order_id order.total_pence) now_ts db3

    unfoldable pub write_user_stream_aggregates : OrderContext → ℕ → Db → Db
    write_user_stream_aggregates order now_ts db =
        refresh_user_stream_aggregates order.user_id now_ts (add_user_order order now_ts db)

  abbrev pub device_mapping : String → ℕ → Db → List (Field × ℤ)
  device_mapping i now_ts db =
      (orders_1h, hour device i orders now_ts db)
      ∷ (orders_24h, day device i orders now_ts db)
      ∷ (unique_users_24h, day device i users now_ts db)
      ∷ (unique_payment_methods_24h, day device i payments now_ts db)
      ∷ (updated_at, pos now_ts)
      ∷ []

  unfoldable pub refresh_device_stream_aggregates : String → ℕ → Db → Db
  refresh_device_stream_aggregates i now_ts db =
      persist (key device i) (device_mapping i now_ts db) db

  abbrev pub add_device_order : OrderContext → String → ℕ → Db → Db
  add_device_order order i now_ts db =
      let db1 = zadd (zset device i orders) (plain order.order_id) now_ts db in
      let db2 = zadd (zset device i users) (plain order.user_id) now_ts db1 in
      zadd_if (zset device i payments) order.payment_method_id now_ts db2

  -- The write for the entity's id, where it is not None.
  abbrev pub write_device : OrderContext → Option String → ℕ → Db → Db
  write_device order none now_ts db = db
  write_device order (some i) now_ts db =
      let after = add_device_order order i now_ts db in
      persist (key device i) (device_mapping i now_ts after) after

  unfoldable pub write_device_stream_aggregates : OrderContext → ℕ → Db → Db
  write_device_stream_aggregates order now_ts db = write_device order order.device_id now_ts db

  abbrev pub payment_mapping : String → ℕ → Db → List (Field × ℤ)
  payment_mapping i now_ts db =
      (orders_1h, hour payment i orders now_ts db)
      ∷ (orders_24h, day payment i orders now_ts db)
      ∷ (unique_users_24h, day payment i users now_ts db)
      ∷ (decline_count_24h, pos 0)
      ∷ (updated_at, pos now_ts)
      ∷ []

  unfoldable pub refresh_payment_stream_aggregates : String → ℕ → Db → Db
  refresh_payment_stream_aggregates i now_ts db =
      persist (key payment i) (payment_mapping i now_ts db) db

  abbrev pub add_payment_order : OrderContext → String → ℕ → Db → Db
  add_payment_order order i now_ts db =
      let db1 = zadd (zset payment i orders) (plain order.order_id) now_ts db in
      zadd (zset payment i users) (plain order.user_id) now_ts db1

  -- The write for the entity's id, where it is not None.
  abbrev pub write_payment : OrderContext → Option String → ℕ → Db → Db
  write_payment order none now_ts db = db
  write_payment order (some i) now_ts db =
      let after = add_payment_order order i now_ts db in
      persist (key payment i) (payment_mapping i now_ts after) after

  unfoldable pub write_payment_stream_aggregates : OrderContext → ℕ → Db → Db
  write_payment_stream_aggregates order now_ts db =
      write_payment order order.payment_method_id now_ts db

  abbrev pub ip_mapping : String → ℕ → Db → List (Field × ℤ)
  ip_mapping i now_ts db =
      (orders_1h, hour ip i orders now_ts db)
      ∷ (orders_24h, day ip i orders now_ts db)
      ∷ (unique_users_24h, day ip i users now_ts db)
      ∷ (unique_devices_24h, day ip i devices now_ts db)
      ∷ (updated_at, pos now_ts)
      ∷ []

  unfoldable pub refresh_ip_stream_aggregates : String → ℕ → Db → Db
  refresh_ip_stream_aggregates i now_ts db = persist (key ip i) (ip_mapping i now_ts db) db

  abbrev pub add_ip_order : OrderContext → String → ℕ → Db → Db
  add_ip_order order i now_ts db =
      let db1 = zadd (zset ip i orders) (plain order.order_id) now_ts db in
      let db2 = zadd (zset ip i users) (plain order.user_id) now_ts db1 in
      zadd_if (zset ip i devices) order.device_id now_ts db2

  unfoldable pub write_ip_stream_aggregates : OrderContext → ℕ → Db → Db
  write_ip_stream_aggregates order now_ts db =
      let i = order.ip_address in
      let after = add_ip_order order i now_ts db in
      persist (key ip i) (ip_mapping i now_ts after) after

  abbrev pub store_mapping : String → ℕ → Db → List (Field × ℤ)
  store_mapping i now_ts db =
      (orders_1h, hour store i orders now_ts db)
      ∷ (orders_24h, day store i orders now_ts db)
      ∷ (unique_users_24h, day store i users now_ts db)
      ∷ (unique_cards_1h, hour store i cards_1h now_ts db)
      ∷ (updated_at, pos now_ts)
      ∷ []

  unfoldable pub refresh_store_stream_aggregates : String → ℕ → Db → Db
  refresh_store_stream_aggregates i now_ts db = persist (key store i) (store_mapping i now_ts db) db

  abbrev pub add_store_order : OrderContext → String → ℕ → Db → Db
  add_store_order order i now_ts db =
      let db1 = zadd (zset store i orders) (plain order.order_id) now_ts db in
      let db2 = zadd (zset store i users) (plain order.user_id) now_ts db1 in
      zadd_if (zset store i cards_1h) order.payment_method_id now_ts db2

  unfoldable pub write_store_stream_aggregates : OrderContext → ℕ → Db → Db
  write_store_stream_aggregates order now_ts db =
      let i = order.store_id in
      let after = add_store_order order i now_ts db in
      persist (key store i) (store_mapping i now_ts after) after

  abbrev pub address_mapping : String → ℕ → Db → List (Field × ℤ)
  address_mapping i now_ts db =
      (orders_24h, day address i orders now_ts db)
      ∷ (unique_users_24h, day address i users now_ts db)
      ∷ (updated_at, pos now_ts)
      ∷ []

  unfoldable pub refresh_address_stream_aggregates : String → ℕ → Db → Db
  refresh_address_stream_aggregates i now_ts db =
      persist (key address i) (address_mapping i now_ts db) db

  abbrev pub add_address_order : OrderContext → String → ℕ → Db → Db
  add_address_order order i now_ts db =
      let db1 = zadd (zset address i orders) (plain order.order_id) now_ts db in
      zadd (zset address i users) (plain order.user_id) now_ts db1

  -- The write for the entity's id, where it is not None.
  abbrev pub write_address : OrderContext → Option String → ℕ → Db → Db
  write_address order none now_ts db = db
  write_address order (some i) now_ts db =
      let after = add_address_order order i now_ts db in
      persist (key address i) (address_mapping i now_ts after) after

  unfoldable pub write_address_stream_aggregates : OrderContext → ℕ → Db → Db
  write_address_stream_aggregates order now_ts db =
      write_address order order.delivery_address_id now_ts db
