-- ===== src/FeatureStore/Aggregator/Mirror.antt =====
-- The hash that a write of feature_store/aggregator.py leaves for its entity.
use fraud_forecast.Base.{ℕ, ◌≡◌, refl, ◌∙◌, subst, sym, Option, none, some, List, ◌∷◌, String}
use fraud_forecast.Base.Int.{ℤ}
use fraud_forecast.FeatureStore.Keys.{user, device, payment, ip, store, address, HashKey}
use fraud_forecast.FeatureStore.Client.{key}
use fraud_forecast.FeatureStore.Aggregator.Redis.{
  orders, spend, stores, payments, users, devices, cards_1h, Field, Redis, Laws, Field-discrete,
}
use fraud_forecast.FeatureStore.Aggregator.Window.{one_hour_seconds, twenty_four_hours_seconds}
use fraud_forecast.FeatureStore.Aggregator.Streams.{
  persist, zset, age_entry, user_mapping, device_mapping, payment_mapping, ip_mapping,
  store_mapping, address_mapping, refresh_user_stream_aggregates, refresh_device_stream_aggregates,
  refresh_payment_stream_aggregates, refresh_ip_stream_aggregates, refresh_store_stream_aggregates,
  refresh_address_stream_aggregates,
}
use fraud_forecast.FeatureStore.Aggregator.Frame.{
  SameSets, persist-SameSets, clear_age-SameSets, count_in_same, spend_in_same, second_newest_same,
  Stored, Unambiguous, persist-Stored, Frame, then_Frame, persist-Frame, clear_age-Frame,
}

module _ (R : Redis) (L : Laws R) where
  open R use {Db, zadd, zcount, hget, second_newest}

  pub user_mapping_same :
      (parse_int : String → Option ℤ) (i : String) (now_ts : ℕ) (db after : Db)
      → SameSets R L user db after
      → user_mapping R parse_int i now_ts after ≡ user_mapping R parse_int i now_ts db
  user_mapping_same parse_int i now_ts db after h = rw (
    count_in_same R L (zset user i orders) one_hour_seconds now_ts db after (h _ refl),
    count_in_same R L (zset user i orders) twenty_four_hours_seconds now_ts db after (h _ refl),
    count_in_same R L (zset user i stores) twenty_four_hours_seconds now_ts db after (h _ refl),
    count_in_same R L (zset user i payments) twenty_four_hours_seconds now_ts db after (h _ refl),
    spend_in_same R L parse_int (zset user i spend) one_hour_seconds now_ts db after (h _ refl),
    spend_in_same R L parse_int (zset user i spend) twenty_four_hours_seconds now_ts db after
        (h _ refl),
    second_newest_same R L (zset user i orders) db after (h _ refl),
  )

  pub device_mapping_same :
      (i : String) (now_ts : ℕ) (db after : Db)
      → SameSets R L device db after
      → device_mapping R i now_ts after ≡ device_mapping R i now_ts db
  device_mapping_same i now_ts db after h = rw (
    count_in_same R L (zset device i orders) one_hour_seconds now_ts db after (h _ refl),
    count_in_same R L (zset device i orders) twenty_four_hours_seconds now_ts db after (h _ refl),
    count_in_same R L (zset device i users) twenty_four_hours_seconds now_ts db after (h _ refl),
    count_in_same R L (zset device i payments) twenty_four_hours_seconds now_ts db after (h _ refl),
  )

  pub payment_mapping_same :
      (i : String) (now_ts : ℕ) (db after : Db)
      → SameSets R L payment db after
      → payment_mapping R i now_ts after ≡ payment_mapping R i now_ts db
  payment_mapping_same i now_ts db after h = rw (
    count_in_same R L (zset payment i orders) one_hour_seconds now_ts db after (h _ refl),
    count_in_same R L (zset payment i orders) twenty_four_hours_seconds now_ts db after (h _ refl),
    count_in_same R L (zset payment i users) twenty_four_hours_seconds now_ts db after (h _ refl),
  )

  pub ip_mapping_same :
      (i : String) (now_ts : ℕ) (db after : Db)
      → SameSets R L ip db after
      → ip_mapping R i now_ts after ≡ ip_mapping R i now_ts db
  ip_mapping_same i now_ts db after h = rw (
    count_in_same R L (zset ip i orders) one_hour_seconds now_ts db after (h _ refl),
    count_in_same R L (zset ip i orders) twenty_four_hours_seconds now_ts db after (h _ refl),
    count_in_same R L (zset ip i users) twenty_four_hours_seconds now_ts db after (h _ refl),
    count_in_same R L (zset ip i devices) twenty_four_hours_seconds now_ts db after (h _ refl),
  )

  pub store_mapping_same :
      (i : String) (now_ts : ℕ) (db after : Db)
      → SameSets R L store db after
      → store_mapping R i now_ts after ≡ store_mapping R i now_ts db
  store_mapping_same i now_ts db after h = rw (
    count_in_same R L (zset store i orders) one_hour_seconds now_ts db after (h _ refl),
    count_in_same R L (zset store i orders) twenty_four_hours_seconds now_ts db after (h _ refl),
    count_in_same R L (zset store i users) twenty_four_hours_seconds now_ts db after (h _ refl),
    count_in_same R L (zset store i cards_1h) one_hour_seconds now_ts db after (h _ refl),
  )

  pub address_mapping_same :
      (i : String) (now_ts : ℕ) (db after : Db)
      → SameSets R L address db after
      → address_mapping R i now_ts after ≡ address_mapping R i now_ts db
  address_mapping_same i now_ts db after h = rw (
    count_in_same R L (zset address i orders) twenty_four_hours_seconds now_ts db after (h _ refl),
    count_in_same R L (zset address i users) twenty_four_hours_seconds now_ts db after (h _ refl),
  )

  persist_mapping :
      (k : HashKey) (mapping : Db → List (Field × ℤ)) (db : Db)
      → Unambiguous R L (mapping db) (mapping db)
      → mapping (persist R k (mapping db) db) ≡ mapping db
      → Stored R L k (mapping (persist R k (mapping db) db)) (persist R k (mapping db) db)
  persist_mapping k mapping db clear kept =
      subst (λ m. Stored R L k m (persist R k (mapping db) db)) (sym kept)
        (persist-Stored R L k (mapping db) (mapping db) db clear)

  device_clear :
      (i : String) (now_ts : ℕ) (db : Db)
      → Unambiguous R L (device_mapping R i now_ts db) (device_mapping R i now_ts db)
  unfolding Field-discrete
  device_clear i now_ts db = (refl, (refl, (refl, (refl, (refl, tt)))))

  pub device-Stored :
      (i : String) (now_ts : ℕ) (db : Db)
      → Stored R L
          (key device i)
          (device_mapping R i now_ts (refresh_device_stream_aggregates R i now_ts db))
          (refresh_device_stream_aggregates R i now_ts db)
  unfolding refresh_device_stream_aggregates
  device-Stored i now_ts db =
      persist_mapping (key device i) (device_mapping R i now_ts) db (device_clear i now_ts db)
        (device_mapping_same i now_ts db _ (persist-SameSets R L device _ _ db))

  pub refresh_device-Frame :
      (i : String) (now_ts : ℕ) (db : Db)
      → Frame R L device db (refresh_device_stream_aggregates R i now_ts db)
  unfolding refresh_device_stream_aggregates
  refresh_device-Frame i now_ts db = persist-Frame R L device i _ db

  payment_clear :
      (i : String) (now_ts : ℕ) (db : Db)
      → Unambiguous R L (payment_mapping R i now_ts db) (payment_mapping R i now_ts db)
  unfolding Field-discrete
  payment_clear i now_ts db = (refl, (refl, (refl, (refl, (refl, tt)))))

  pub payment-Stored :
      (i : String) (now_ts : ℕ) (db : Db)
      → Stored R L
          (key payment i)
          (payment_mapping R i now_ts (refresh_payment_stream_aggregates R i now_ts db))
          (refresh_payment_stream_aggregates R i now_ts db)
  unfolding refresh_payment_stream_aggregates
  payment-Stored i now_ts db =
      persist_mapping (key payment i) (payment_mapping R i now_ts) db (payment_clear i now_ts db)
        (payment_mapping_same i now_ts db _ (persist-SameSets R L payment _ _ db))

  pub refresh_payment-Frame :
      (i : String) (now_ts : ℕ) (db : Db)
      → Frame R L payment db (refresh_payment_stream_aggregates R i now_ts db)
  unfolding refresh_payment_stream_aggregates
  refresh_payment-Frame i now_ts db = persist-Frame R L payment i _ db

  ip_clear :
      (i : String) (now_ts : ℕ) (db : Db)
      → Unambiguous R L (ip_mapping R i now_ts db) (ip_mapping R i now_ts db)
  unfolding Field-discrete
  ip_clear i now_ts db = (refl, (refl, (refl, (refl, (refl, tt)))))

  pub ip-Stored :
      (i : String) (now_ts : ℕ) (db : Db)
      → Stored R L
          (key ip i)
          (ip_mapping R i now_ts (refresh_ip_stream_aggregates R i now_ts db))
          (refresh_ip_stream_aggregates R i now_ts db)
  unfolding refresh_ip_stream_aggregates
  ip-Stored i now_ts db =
      persist_mapping (key ip i) (ip_mapping R i now_ts) db (ip_clear i now_ts db)
        (ip_mapping_same i now_ts db _ (persist-SameSets R L ip _ _ db))

  pub refresh_ip-Frame :
      (i : String) (now_ts : ℕ) (db : Db)
      → Frame R L ip db (refresh_ip_stream_aggregates R i now_ts db)
  unfolding refresh_ip_stream_aggregates
  refresh_ip-Frame i now_ts db = persist-Frame R L ip i _ db

  store_clear :
      (i : String) (now_ts : ℕ) (db : Db)
      → Unambiguous R L (store_mapping R i now_ts db) (store_mapping R i now_ts db)
  unfolding Field-discrete
  store_clear i now_ts db = (refl, (refl, (refl, (refl, (refl, tt)))))

  pub store-Stored :
      (i : String) (now_ts : ℕ) (db : Db)
      → Stored R L
          (key store i)
          (store_mapping R i now_ts (refresh_store_stream_aggregates R i now_ts db))
          (refresh_store_stream_aggregates R i now_ts db)
  unfolding refresh_store_stream_aggregates
  store-Stored i now_ts db =
      persist_mapping (key store i) (store_mapping R i now_ts) db (store_clear i now_ts db)
        (store_mapping_same i now_ts db _ (persist-SameSets R L store _ _ db))

  pub refresh_store-Frame :
      (i : String) (now_ts : ℕ) (db : Db)
      → Frame R L store db (refresh_store_stream_aggregates R i now_ts db)
  unfolding refresh_store_stream_aggregates
  refresh_store-Frame i now_ts db = persist-Frame R L store i _ db

  address_clear :
      (i : String) (now_ts : ℕ) (db : Db)
      → Unambiguous R L (address_mapping R i now_ts db) (address_mapping R i now_ts db)
  unfolding Field-discrete
  address_clear i now_ts db = (refl, (refl, (refl, tt)))

  pub address-Stored :
      (i : String) (now_ts : ℕ) (db : Db)
      → Stored R L
          (key address i)
          (address_mapping R i now_ts (refresh_address_stream_aggregates R i now_ts db))
          (refresh_address_stream_aggregates R i now_ts db)
  unfolding refresh_address_stream_aggregates
  address-Stored i now_ts db =
      persist_mapping (key address i) (address_mapping R i now_ts) db (address_clear i now_ts db)
        (address_mapping_same i now_ts db _ (persist-SameSets R L address _ _ db))

  pub refresh_address-Frame :
      (i : String) (now_ts : ℕ) (db : Db)
      → Frame R L address db (refresh_address_stream_aggregates R i now_ts db)
  unfolding refresh_address_stream_aggregates
  refresh_address-Frame i now_ts db = persist-Frame R L address i _ db

  user_clear :
      (a b c d e f g : ℤ) (age : Option ℕ)
      → (let whole =
            (Field.orders_1h, a)
            ∷ (Field.orders_24h, b)
            ∷ (Field.spend_1h_pence, c)
            ∷ (Field.spend_24h_pence, d)
            ∷ (Field.unique_stores_24h, e)
            ∷ (Field.unique_payment_methods_24h, f)
            ∷ (Field.updated_at, g)
            ∷ age_entry age in
          Unambiguous R L whole whole)
  unfolding Field-discrete
  user_clear a b c d e f g none = (refl, (refl, (refl, (refl, (refl, (refl, (refl, tt)))))))
  user_clear a b c d e f g (some m) =
      (refl, (refl, (refl, (refl, (refl, (refl, (refl, (refl, tt))))))))

  pub refresh_user-SameSets :
      (parse_int : String → Option ℤ) (i : String) (now_ts : ℕ) (db : Db)
      → SameSets R L user db (refresh_user_stream_aggregates R parse_int i now_ts db)
  unfolding refresh_user_stream_aggregates
  refresh_user-SameSets parse_int i now_ts db z h =
      persist-SameSets R L user _ _ _ z h ∙ clear_age-SameSets R L user (key user i) _ db z h

  pub user-Stored :
      (parse_int : String → Option ℤ) (i : String) (now_ts : ℕ) (db : Db)
      → Stored R L
          (key user i)
          (user_mapping R parse_int i now_ts
            (refresh_user_stream_aggregates R parse_int i now_ts db))
          (refresh_user_stream_aggregates R parse_int i now_ts db)
  unfolding refresh_user_stream_aggregates
  user-Stored parse_int i now_ts db =
      subst
        (λ m. Stored R L (key user i) m (refresh_user_stream_aggregates R parse_int i now_ts db))
        (sym
          (user_mapping_same parse_int i now_ts db _ (refresh_user-SameSets parse_int i now_ts db)))
        (persist-Stored R L (key user i) _ (user_mapping R parse_int i now_ts db) _
          (user_clear _ _ _ _ _ _ _ _))

  pub refresh_user-Frame :
      (parse_int : String → Option ℤ) (i : String) (now_ts : ℕ) (db : Db)
      → Frame R L user db (refresh_user_stream_aggregates R parse_int i now_ts db)
  unfolding refresh_user_stream_aggregates
  refresh_user-Frame parse_int i now_ts db =
      then_Frame R L (clear_age-Frame R L user i _ db) (persist-Frame R L user i _ _)
