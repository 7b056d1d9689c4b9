-- ===== src/FeatureStore/Aggregator/InStep.antt =====
-- `update_features_for_order` of feature_store/aggregator.py as a whole: the hashes it leaves.
use fraud_forecast.Base.{ℕ, ◌≡◌, ◌≢◌, refl, subst, sym, Option, none, some, true, String}
use fraud_forecast.Base.Int.{ℤ}
use fraud_forecast.FeatureStore.Keys.{Entity, user, device, payment, ip, store, address}
use fraud_forecast.FeatureStore.Client.{key}
use fraud_forecast.FeatureStore.Aggregator.Redis.{Redis, Laws}
use fraud_forecast.FeatureStore.Aggregator.Streams.{
  OrderContext, user_mapping, device_mapping, payment_mapping, ip_mapping, store_mapping,
  address_mapping, refresh_ip_stream_aggregates, refresh_store_stream_aggregates,
  write_user_stream_aggregates, write_device_stream_aggregates, write_payment_stream_aggregates,
  write_ip_stream_aggregates, write_store_stream_aggregates, write_address_stream_aggregates,
}
use fraud_forecast.FeatureStore.Aggregator.Update.{
  Row, coerce_order_context, mark_order_processed, write_all, update_features_for_order, update_row,
  update_with,
}
use fraud_forecast.FeatureStore.Aggregator.Frame.{Stored}
use fraud_forecast.FeatureStore.Aggregator.Mirror.{
  user_mapping_same, device_mapping_same, payment_mapping_same, ip_mapping_same, store_mapping_same,
  address_mapping_same, user-Stored, ip-Stored, store-Stored,
}
use fraud_forecast.FeatureStore.Aggregator.Writes.{
  Untouched, then_Untouched, Frame-Untouched, mark-Untouched, carry, write_device-Frame,
  write_payment-Frame, write_ip-Frame, write_store-Frame, write_address-Frame, write_device-Stored,
  write_payment-Stored, write_address-Stored,
}

module _ (R : Redis) (L : Laws R) (parse_int : String → Option ℤ) where
  open R use {Db}

  -- Each entity of the order has the hash that its sorted sets give at `now_ts`.
  pub record InStep (order : OrderContext) (now_ts : ℕ) (db : Db) : Type 0 where
    pub user_stored :
        Stored R L (key user order.user_id) (user_mapping R parse_int order.user_id now_ts db) db
    pub device_stored :
        (i : String)
        → order.device_id ≡ some i
        → Stored R L (key device i) (device_mapping R i now_ts db) db
    pub payment_stored :
        (i : String)
        → order.payment_method_id ≡ some i
        → Stored R L (key payment i) (payment_mapping R i now_ts db) db
    pub ip_stored :
        Stored R L (key ip order.ip_address) (ip_mapping R order.ip_address now_ts db) db
    pub store_stored :
        Stored R L (key store order.store_id) (store_mapping R order.store_id now_ts db) db
    pub address_stored :
        (i : String)
        → order.delivery_address_id ≡ some i
        → Stored R L (key address i) (address_mapping R i now_ts db) db

  -- The keys of `d` over the writes for the other entities that follow.
  after_address :
      (d : Entity) (order : OrderContext) (now_ts : ℕ) (order_id : String) (mark_ts : ℕ) (db : Db)
      → d ≢ address
      → Untouched R L d db (
          mark_order_processed R order_id mark_ts
            (write_address_stream_aggregates R order now_ts db))
  unfolding write_address_stream_aggregates
  after_address d order now_ts order_id mark_ts db ne_address =
      then_Untouched R L
        (Frame-Untouched R L d ne_address
          (write_address-Frame R L order order.delivery_address_id now_ts _))
        (mark-Untouched R L d order_id mark_ts _)

  after_store :
      (d : Entity) (order : OrderContext) (now_ts : ℕ) (order_id : String) (mark_ts : ℕ) (db : Db)
      → d ≢ store
      → d ≢ address
      → Untouched R L d db (
          mark_order_processed R order_id mark_ts (
            write_address_stream_aggregates R order now_ts
              (write_store_stream_aggregates R order now_ts db)))
  after_store d order now_ts order_id mark_ts db ne_store ne_address =
      then_Untouched R L (Frame-Untouched R L d ne_store (write_store-Frame R L order now_ts _))
        (after_address d order now_ts order_id mark_ts _ ne_address)

  after_ip :
      (d : Entity) (order : OrderContext) (now_ts : ℕ) (order_id : String) (mark_ts : ℕ) (db : Db)
      → d ≢ ip
      → d ≢ store
      → d ≢ address
      → Untouched R L d db (
          mark_order_processed R order_id mark_ts (
            write_address_stream_aggregates R order now_ts (
              write_store_stream_aggregates R order now_ts
                (write_ip_stream_aggregates R order now_ts db))))
  after_ip d order now_ts order_id mark_ts db ne_ip ne_store ne_address =
      then_Untouched R L (Frame-Untouched R L d ne_ip (write_ip-Frame R L order now_ts _))
        (after_store d order now_ts order_id mark_ts _ ne_store ne_address)

  after_payment :
      (d : Entity) (order : OrderContext) (now_ts : ℕ) (order_id : String) (mark_ts : ℕ) (db : Db)
      → d ≢ payment
      → d ≢ ip
      → d ≢ store
      → d ≢ address
      → Untouched R L d db (
          mark_order_processed R order_id mark_ts (
            write_address_stream_aggregates R order now_ts (
              write_store_stream_aggregates R order now_ts (
                write_ip_stream_aggregates R order now_ts
                  (write_payment_stream_aggregates R order now_ts db)))))
  unfolding write_payment_stream_aggregates
  after_payment d order now_ts order_id mark_ts db ne_payment ne_ip ne_store ne_address =
      then_Untouched R L
        (Frame-Untouched R L d ne_payment
          (write_payment-Frame R L order order.payment_method_id now_ts _))
        (after_ip d order now_ts order_id mark_ts _ ne_ip ne_store ne_address)

  after_device :
      (d : Entity) (order : OrderContext) (now_ts : ℕ) (order_id : String) (mark_ts : ℕ) (db : Db)
      → d ≢ device
      → d ≢ payment
      → d ≢ ip
      → d ≢ store
      → d ≢ address
      → Untouched R L d db (
          mark_order_processed R order_id mark_ts (
            write_address_stream_aggregates R order now_ts (
              write_store_stream_aggregates R order now_ts (
                write_ip_stream_aggregates R order now_ts (
                  write_payment_stream_aggregates R order now_ts
                    (write_device_stream_aggregates R order now_ts db))))))
  unfolding write_device_stream_aggregates
  after_device d order now_ts order_id mark_ts db ne_device ne_payment ne_ip ne_store ne_address =
      then_Untouched R L
        (Frame-Untouched R L d ne_device (write_device-Frame R L order order.device_id now_ts _))
        (after_payment d order now_ts order_id mark_ts _ ne_payment ne_ip ne_store ne_address)

  write_all-InStep :
      (order : OrderContext) (now_ts : ℕ) (order_id : String) (mark_ts : ℕ) (db : Db)
      → InStep order now_ts
          (mark_order_processed R order_id mark_ts (write_all R parse_int order now_ts db))
  unfolding write_all write_user_stream_aggregates write_device_stream_aggregates
      write_payment_stream_aggregates write_ip_stream_aggregates write_store_stream_aggregates
      write_address_stream_aggregates refresh_ip_stream_aggregates refresh_store_stream_aggregates
  write_all-InStep order now_ts order_id mark_ts db = record {
    user_stored =
        let still =
          (after_device user order now_ts order_id mark_ts _ (λ p. cc) (λ p. cc) (λ p. cc) (λ p. cc)
            (λ p. cc)) in
        carry R L order.user_id (user_mapping R parse_int order.user_id now_ts)
          (user_mapping_same R L parse_int order.user_id now_ts _ _ (Untouched.sets still)) still
          (user-Stored R L parse_int order.user_id now_ts _);
    device_stored = λ i e.
        let still =
          (after_payment device order now_ts order_id mark_ts _ (λ p. cc) (λ p. cc) (λ p. cc)
            (λ p. cc)) in
        carry R L i (device_mapping R i now_ts)
          (device_mapping_same R L i now_ts _ _ (Untouched.sets still)) still
          (write_device-Stored R L order order.device_id now_ts _ i e);
    payment_stored = λ i e.
        let still =
          (after_ip payment order now_ts order_id mark_ts _ (λ p. cc) (λ p. cc) (λ p. cc)) in
        carry R L i (payment_mapping R i now_ts)
          (payment_mapping_same R L i now_ts _ _ (Untouched.sets still)) still
          (write_payment-Stored R L order order.payment_method_id now_ts _ i e);
    ip_stored =
        let still = (after_store ip order now_ts order_id mark_ts _ (λ p. cc) (λ p. cc)) in
        carry R L order.ip_address (ip_mapping R order.ip_address now_ts)
          (ip_mapping_same R L order.ip_address now_ts _ _ (Untouched.sets still)) still
          (ip-Stored R L order.ip_address now_ts _);
    store_stored =
        let still = (after_address store order now_ts order_id mark_ts _ (λ p. cc)) in
        carry R L order.store_id (store_mapping R order.store_id now_ts)
          (store_mapping_same R L order.store_id now_ts _ _ (Untouched.sets still)) still
          (store-Stored R L order.store_id now_ts _);
    address_stored = λ i e.
        let still = (mark-Untouched R L address order_id mark_ts _) in
        carry R L i (address_mapping R i now_ts)
          (address_mapping_same R L i now_ts _ _ (Untouched.sets still)) still
          (write_address-Stored R L order order.delivery_address_id now_ts _ i e);
  }

  coerced :
      (parse_uuid : String → Option String) (o : Option OrderContext) (order : OrderContext)
      (order_id : String) (now_ts mark_ts : ℕ) (db : Db)
      → o ≡ some order
      → ((update_with R parse_int parse_uuid (λ s. none) o order_id now_ts mark_ts db).0
          ≡ some true)
        × InStep order now_ts
            (update_with R parse_int parse_uuid (λ s. none) o order_id now_ts mark_ts db).1
  coerced parse_uuid o order order_id now_ts mark_ts db e =
      subst
        (λ o.
          ((update_with R parse_int parse_uuid (λ s. none) o order_id now_ts mark_ts db).0
            ≡ some true)
          × InStep order now_ts
              (update_with R parse_int parse_uuid (λ s. none) o order_id now_ts mark_ts db).1)
        (sym e) (refl, write_all-InStep order now_ts order_id mark_ts db)

  -- Where the row of the order is found and can be read, the update says true, and afterwards every
  -- entity that the order names has in its hash what its sorted sets give at the update's time.
  pub update_features_for_order-InStep :
      (parse_uuid : String → Option String) (fetchrow : String → Option Row) (row : Row)
      (order : OrderContext) (order_id : String) (now_ts mark_ts : ℕ) (db : Db)
      → fetchrow order_id ≡ some row
      → coerce_order_context parse_uuid row ≡ some order
      → ((update_features_for_order R parse_int parse_uuid fetchrow order_id now_ts mark_ts db).0
          ≡ some true)
        × InStep order now_ts
            (update_features_for_order R parse_int parse_uuid fetchrow order_id now_ts mark_ts db).1
  unfolding update_features_for_order
  update_features_for_order-InStep parse_uuid fetchrow row order order_id now_ts mark_ts db found
        read =
      subst
        (λ r.
          ((update_row R parse_int parse_uuid fetchrow r order_id now_ts mark_ts db).0 ≡ some true)
          × InStep order now_ts
              (update_row R parse_int parse_uuid fetchrow r order_id now_ts mark_ts db).1)
        (sym found) (coerced parse_uuid _ order order_id now_ts mark_ts db read)
