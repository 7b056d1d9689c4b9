-- ===== src/FeatureStore/Aggregator/Writes.antt =====
-- The six writes of an order in feature_store/aggregator.py, one after another: each leaves its own hash
-- in step with its sorted sets, and the later ones leave the earlier alone.
use fraud_forecast.Base.{
  ℕ, ◌≡◌, ◌≢◌, refl, ◌∙◌, subst, sym, Option, none, some, List, [], ◌∷◌, String,
}
use fraud_forecast.Base.Int.{ℤ}
use fraud_forecast.FeatureStore.Keys.{Entity, user, device, payment, ip, store, address, HashKey}
use fraud_forecast.FeatureStore.Client.{key}
use fraud_forecast.FeatureStore.Aggregator.Redis.{Field, Redis, Laws}
use fraud_forecast.FeatureStore.Aggregator.Streams.{
  OrderContext, device_mapping, payment_mapping, address_mapping, add_device_order,
  add_payment_order, add_address_order, refresh_device_stream_aggregates,
  refresh_payment_stream_aggregates, refresh_ip_stream_aggregates, refresh_store_stream_aggregates,
  refresh_address_stream_aggregates, write_user_stream_aggregates, write_device, write_payment,
  write_ip_stream_aggregates, write_store_stream_aggregates, write_address,
}
use fraud_forecast.FeatureStore.Aggregator.Update.{mark_order_processed}
use fraud_forecast.FeatureStore.Aggregator.Frame.{
  SameSets, Stored, Frame, then_Frame, same_Frame, zadd-Frame, zadd_if-Frame,
}
use fraud_forecast.FeatureStore.Aggregator.Mirror.{
  device-Stored, payment-Stored, address-Stored, refresh_user-Frame, refresh_device-Frame,
  refresh_payment-Frame, refresh_ip-Frame, refresh_store-Frame, refresh_address-Frame,
}

module _ (R : Redis) (L : Laws R) where
  open R use {Db, hget}

  -- The keys of an entity are as they were.
  pub record Untouched (d : Entity) (db after : Db) : Type 0 where
    pub hashes : (k : HashKey) (f : Field) → k.entity ≡ d → hget k f after ≡ hget k f db
    pub sets : SameSets R L d db after

  pub then_Untouched :
      {d : Entity} {db mid after : Db}
      → Untouched d db mid
      → Untouched d mid after
      → Untouched d db after
  then_Untouched p q = record {
    hashes = λ k f h. q.hashes k f h ∙ p.hashes k f h;
    sets = λ z h. q.sets z h ∙ p.sets z h;
  }

  pub Frame-Untouched :
      {e : Entity} {db after : Db} (d : Entity)
      → d ≢ e
      → Frame R L e db after
      → Untouched d db after
  Frame-Untouched d ne frame = record {
    hashes = λ k f h. frame.hashes k f (λ p. ne (sym h ∙ p));
    sets = λ z h. frame.sets z (λ p. ne (sym h ∙ p));
  }

  pub mark-Untouched :
      (d : Entity) (order_id : String) (mark_ts : ℕ) (db : Db)
      → Untouched d db (mark_order_processed R order_id mark_ts db)
  unfolding mark_order_processed
  mark-Untouched d order_id mark_ts db = record {
    hashes = λ k f h. L.bucket_hget _ _ _ order_id db k f;
    sets = λ z h. L.bucket_members _ _ _ order_id db z;
  }

  Untouched-Stored :
      {d : Entity} {db after : Db} (i : String) (mapping : List (Field × ℤ))
      → Untouched d db after
      → Stored R L (key d i) mapping db
      → Stored R L (key d i) mapping after
  Untouched-Stored i [] still stored = tt
  Untouched-Stored i ((f, v) ∷ mapping) still (here, rest) =
      (still.hashes _ f refl ∙ here, Untouched-Stored i mapping still rest)

  pub carry :
      {d : Entity} {db after : Db} (i : String) (mapping : Db → List (Field × ℤ))
      → mapping after ≡ mapping db
      → Untouched d db after
      → Stored R L (key d i) (mapping db) db
      → Stored R L (key d i) (mapping after) after
  carry {d} {after} i mapping same still stored =
      subst (λ m. Stored R L (key d i) m after) (sym same) (Untouched-Stored i _ still stored)

  pub write_user-Frame :
      (parse_int : String → Option ℤ) (order : OrderContext) (now_ts : ℕ) (db : Db)
      → Frame R L user db (write_user_stream_aggregates R parse_int order now_ts db)
  unfolding write_user_stream_aggregates
  write_user-Frame parse_int order now_ts db =
      then_Frame R L
        (then_Frame R L
          (then_Frame R L
            (then_Frame R L (zadd-Frame R L user _ _ _ _ db) (zadd-Frame R L user _ _ _ _ _))
            (zadd_if-Frame R L user _ _ order.payment_method_id _ _))
          (zadd-Frame R L user _ _ _ _ _))
        (refresh_user-Frame R L parse_int order.user_id now_ts _)

  pub write_device-Frame :
      (order : OrderContext) (o : Option String) (now_ts : ℕ) (db : Db)
      → Frame R L device db (write_device R order o now_ts db)
  unfolding refresh_device_stream_aggregates
  write_device-Frame order none now_ts db = same_Frame R L device db
  write_device-Frame order (some i) now_ts db =
      then_Frame R L
        (then_Frame R L
          (then_Frame R L (zadd-Frame R L device _ _ _ _ db) (zadd-Frame R L device _ _ _ _ _))
          (zadd_if-Frame R L device _ _ order.payment_method_id _ _))
        (refresh_device-Frame R L i now_ts _)

  pub write_device-Stored :
      (order : OrderContext) (o : Option String) (now_ts : ℕ) (db : Db) (i : String)
      → o ≡ some i
      → Stored R L
          (key device i)
          (device_mapping R i now_ts (write_device R order o now_ts db))
          (write_device R order o now_ts db)
  unfolding refresh_device_stream_aggregates
  write_device-Stored order o now_ts db i e =
      subst
        (λ o.
          Stored R L (key device i) (device_mapping R i now_ts (write_device R order o now_ts db))
            (write_device R order o now_ts db))
        (sym e) (device-Stored R L i now_ts (add_device_order R order i now_ts db))

  pub write_payment-Frame :
      (order : OrderContext) (o : Option String) (now_ts : ℕ) (db : Db)
      → Frame R L payment db (write_payment R order o now_ts db)
  unfolding refresh_payment_stream_aggregates
  write_payment-Frame order none now_ts db = same_Frame R L payment db
  write_payment-Frame order (some i) now_ts db =
      then_Frame R L
        (then_Frame R L (zadd-Frame R L payment _ _ _ _ db) (zadd-Frame R L payment _ _ _ _ _))
        (refresh_payment-Frame R L i now_ts _)

  pub write_payment-Stored :
      (order : OrderContext) (o : Option String) (now_ts : ℕ) (db : Db) (i : String)
      → o ≡ some i
      → Stored R L
          (key payment i)
          (payment_mapping R i now_ts (write_payment R order o now_ts db))
          (write_payment R order o now_ts db)
  unfolding refresh_payment_stream_aggregates
  write_payment-Stored order o now_ts db i e =
      subst
        (λ o.
          Stored R L (key payment i)
            (payment_mapping R i now_ts (write_payment R order o now_ts db))
            (write_payment R order o now_ts db))
        (sym e) (payment-Stored R L i now_ts (add_payment_order R order i now_ts db))

  pub write_ip-Frame :
      (order : OrderContext) (now_ts : ℕ) (db : Db)
      → Frame R L ip db (write_ip_stream_aggregates R order now_ts db)
  unfolding write_ip_stream_aggregates refresh_ip_stream_aggregates
  write_ip-Frame order now_ts db =
      then_Frame R L
        (then_Frame R L
          (then_Frame R L (zadd-Frame R L ip _ _ _ _ db) (zadd-Frame R L ip _ _ _ _ _))
          (zadd_if-Frame R L ip _ _ order.device_id _ _))
        (refresh_ip-Frame R L order.ip_address now_ts _)

  pub write_store-Frame :
      (order : OrderContext) (now_ts : ℕ) (db : Db)
      → Frame R L store db (write_store_stream_aggregates R order now_ts db)
  unfolding write_store_stream_aggregates refresh_store_stream_aggregates
  write_store-Frame order now_ts db =
      then_Frame R L
        (then_Frame R L
          (then_Frame R L (zadd-Frame R L store _ _ _ _ db) (zadd-Frame R L store _ _ _ _ _))
          (zadd_if-Frame R L store _ _ order.payment_method_id _ _))
        (refresh_store-Frame R L order.store_id now_ts _)

  pub write_address-Frame :
      (order : OrderContext) (o : Option String) (now_ts : ℕ) (db : Db)
      → Frame R L address db (write_address R order o now_ts db)
  unfolding refresh_address_stream_aggregates
  write_address-Frame order none now_ts db = same_Frame R L address db
  write_address-Frame order (some i) now_ts db =
      then_Frame R L
        (then_Frame R L (zadd-Frame R L address _ _ _ _ db) (zadd-Frame R L address _ _ _ _ _))
        (refresh_address-Frame R L i now_ts _)

  pub write_address-Stored :
      (order : OrderContext) (o : Option String) (now_ts : ℕ) (db : Db) (i : String)
      → o ≡ some i
      → Stored R L
          (key address i)
          (address_mapping R i now_ts (write_address R order o now_ts db))
          (write_address R order o now_ts db)
  unfolding refresh_address_stream_aggregates
  write_address-Stored order o now_ts db i e =
      subst
        (λ o.
          Stored R L (key address i)
            (address_mapping R i now_ts (write_address R order o now_ts db))
            (write_address R order o now_ts db))
        (sym e) (address-Stored R L i now_ts (add_address_order R order i now_ts db))
