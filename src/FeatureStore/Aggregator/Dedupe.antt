-- ===== src/FeatureStore/Aggregator/Dedupe.antt =====
-- How feature_store/aggregator.py knows which orders it has handled, and how an update of one can end.
use fraud_forecast.Base.{
  ℕ, ◌<◌, ◌+◌, ◌-◌, ◌*◌, ◌/◌, ◌≤◌, ◌≡◌, ◌⊎◌, inl, inr, refl, sym, ap, ◌∙◌, subst, true, false, Bool,
  some, none, Option, String, if◌then◌else◌, arith, Option-cases,
}
use fraud_forecast.Base.Int.{ℤ}
use fraud_forecast.FeatureStore.Aggregator.Redis.{Redis, Laws}
use fraud_forecast.FeatureStore.Aggregator.Streams.{OrderContext}
use fraud_forecast.FeatureStore.Aggregator.Streams.{
  write_device_stream_aggregates, write_payment_stream_aggregates, write_address_stream_aggregates,
}
use fraud_forecast.FeatureStore.Aggregator.Frame.{Frame}
use fraud_forecast.FeatureStore.Aggregator.Writes.{
  write_user-Frame, write_device-Frame, write_payment-Frame, write_ip-Frame, write_store-Frame,
  write_address-Frame,
}
use fraud_forecast.FeatureStore.Aggregator.Update.{
  Row, coerce_order_context, processed_bucket, order_ttl_seconds, processed_orders_ttl_seconds,
  mark_order_processed, was_order_processed, write_all, update_with, update_row,
  update_features_for_order,
}

-- A time up to ten minutes later lies in the same bucket or in the next.
bucket_or_next :
    (mark_ts now_ts : ℕ)
    → mark_ts ≤ now_ts
    → now_ts ≤ mark_ts + 600
    → (mark_ts / 600 ≡ now_ts / 600) ⊎ (mark_ts / 600 ≡ (now_ts - 600) / 600)
bucket_or_next mark_ts now_ts h1 h2 = omega arith

module _ (R : Redis) (L : Laws R) where
  open R use {Db, sismember}

  either_bucket : (a b : Bool) → (a ≡ true) ⊎ (b ≡ true) → (if a then true else b) ≡ true
  either_bucket true b h = refl
  either_bucket false b (inl h) = absurd (cc h)
  either_bucket false b (inr h) = h

  one_bucket : (a b : Bool) → (if a then true else b) ≡ true → (a ≡ true) ⊎ (b ≡ true)
  one_bucket true b h = inl refl
  one_bucket false b h = inr h

  pub mark-was_order_processed :
      (order_id : String) (mark_ts now_ts : ℕ) (db : Db)
      → mark_ts ≤ now_ts
      → now_ts ≤ mark_ts + order_ttl_seconds
      → was_order_processed R order_id now_ts (mark_order_processed R order_id mark_ts db) ≡ true
  unfolding was_order_processed mark_order_processed
  mark-was_order_processed order_id mark_ts now_ts db h1 h2 =
      let there =
        L.sadd_adds (processed_bucket mark_ts) processed_orders_ttl_seconds mark_ts order_id db
          now_ts (omega arith) in
      let at = λ (b : ℕ).
        sismember b order_id now_ts (mark_order_processed R order_id mark_ts db) ≡ true in
      either_bucket _ _ (elim (bucket_or_next mark_ts now_ts h1 h2) [
        | inl e ↦ inl (subst at (ap (λ n. n * 600) e) there)
        | inr e ↦ inr (subst at (ap (λ n. n * 600) e) there)
      ])

  was_order_processed_same :
      (other : String) (later : ℕ) (db after : Db)
      → ((b : ℕ) (id : String) (at : ℕ) → sismember b id at after ≡ sismember b id at db)
      → was_order_processed R other later after ≡ was_order_processed R other later db
  unfolding was_order_processed
  was_order_processed_same other later db after same = rw (
    same (processed_bucket later) other later,
    same (processed_bucket (later - order_ttl_seconds)) other later,
  )

  marked_keeps :
      (order_id other : String) (mark_ts later : ℕ) (db : Db)
      → mark_ts ≤ later
      → later < mark_ts + processed_orders_ttl_seconds
      → was_order_processed R other later db ≡ true
      → was_order_processed R other later (mark_order_processed R order_id mark_ts db) ≡ true
  unfolding was_order_processed mark_order_processed
  marked_keeps order_id other mark_ts later db h1 h2 known =
      let keep = λ (c : ℕ).
        L.sadd_keeps (processed_bucket mark_ts) processed_orders_ttl_seconds mark_ts order_id db c
          other later h1 h2 in
      either_bucket _ _ (elim (one_bucket _ _ known) [
        | inl e ↦ inl (keep (processed_bucket later) e)
        | inr e ↦ inr (keep (processed_bucket (later - order_ttl_seconds)) e)
      ])

  module _ (parse_int : String → Option ℤ) (parse_uuid : String → Option String)
      (fetchrow : String → Option Row) where
    -- How an update can end.
    pub data Updates (order_id : String) (now_ts mark_ts : ℕ) (db : Db)
        : Option Bool × Db → Type 0 where
      raised : Updates order_id now_ts mark_ts db (none, db)
      missing : fetchrow order_id ≡ none → Updates order_id now_ts mark_ts db (some false, db)
      done :
          (order : OrderContext)
          → Updates order_id now_ts mark_ts db (
            some true,
            mark_order_processed R order_id mark_ts (write_all R parse_int order now_ts db),
          )

    update_with-Updates :
        (o : Option OrderContext) (order_id : String) (now_ts mark_ts : ℕ) (db : Db)
        → Updates order_id now_ts mark_ts db
            (update_with R parse_int parse_uuid fetchrow o order_id now_ts mark_ts db)
    update_with-Updates none order_id now_ts mark_ts db = raised
    update_with-Updates (some order) order_id now_ts mark_ts db = done order

    -- The three ends of an update: an exception and a missing row change nothing; otherwise the six
    -- writes are made and then the order is marked.
    pub update_features_for_order-Updates :
        (order_id : String) (now_ts mark_ts : ℕ) (db : Db)
        → Updates order_id now_ts mark_ts db
            (update_features_for_order R parse_int parse_uuid fetchrow order_id now_ts mark_ts db)
    unfolding update_features_for_order
    update_features_for_order-Updates order_id now_ts mark_ts db =
        elim (Option-cases (fetchrow order_id)) [
          | inl e ↦
              subst
                (λ r.
                  Updates order_id now_ts mark_ts db
                    (update_row R parse_int parse_uuid fetchrow r order_id now_ts mark_ts db))
                (sym e) (missing e)
          | inr (row, e) ↦
              subst
                (λ r.
                  Updates order_id now_ts mark_ts db
                    (update_row R parse_int parse_uuid fetchrow r order_id now_ts mark_ts db))
                (sym e)
                (update_with-Updates (coerce_order_context parse_uuid row) order_id now_ts mark_ts
                  db)
        ]

    -- An order that an update has handled is known as processed for the next ten minutes, as Redis
    -- stands after the update.
    pub update_features_for_order-was_order_processed :
        (order_id : String) (now_ts mark_ts later : ℕ) (db : Db)
        → (update_features_for_order R parse_int parse_uuid fetchrow order_id now_ts mark_ts db).0
          ≡ some true
        → mark_ts ≤ later
        → later ≤ mark_ts + order_ttl_seconds
        → was_order_processed R order_id later
            (update_features_for_order R parse_int parse_uuid fetchrow order_id now_ts mark_ts db).1
          ≡ true
    update_features_for_order-was_order_processed order_id now_ts mark_ts later db said h1 h2 =
        known (update_features_for_order-Updates order_id now_ts mark_ts db) said
      where
        known :
            {r : Option Bool × Db}
            → Updates order_id now_ts mark_ts db r
            → r.0 ≡ some true
            → was_order_processed R order_id later r.1 ≡ true
        known raised e = absurd (cc e)
        known (missing f) e = absurd (cc e)
        known (done order) e = mark-was_order_processed order_id mark_ts later _ h1 h2

    write_all_buckets :
        (order : OrderContext) (now_ts : ℕ) (db : Db) (b : ℕ) (id : String) (at : ℕ)
        → sismember b id at (write_all R parse_int order now_ts db) ≡ sismember b id at db
    unfolding write_all write_device_stream_aggregates write_payment_stream_aggregates
        write_address_stream_aggregates
    write_all_buckets order now_ts db b id at =
        Frame.buckets (write_address-Frame R L order order.delivery_address_id now_ts _) b id at
        ∙ Frame.buckets (write_store-Frame R L order now_ts _) b id at
        ∙ Frame.buckets (write_ip-Frame R L order now_ts _) b id at
        ∙ Frame.buckets (write_payment-Frame R L order order.payment_method_id now_ts _) b id at
        ∙ Frame.buckets (write_device-Frame R L order order.device_id now_ts _) b id at
        ∙ Frame.buckets (write_user-Frame R L parse_int order now_ts db) b id at

    -- An order that is known as processed stays known while other orders are handled: an update keeps
    -- what was known of any order at a time from the update's mark on, for as long as a bucket lives.
    pub update_features_for_order_keeps :
        (order_id other : String) (now_ts mark_ts later : ℕ) (db : Db)
        → mark_ts ≤ later
        → later < mark_ts + processed_orders_ttl_seconds
        → was_order_processed R other later db ≡ true
        → was_order_processed R other later
            (update_features_for_order R parse_int parse_uuid fetchrow order_id now_ts mark_ts db).1
          ≡ true
    update_features_for_order_keeps order_id other now_ts mark_ts later db h1 h2 known =
        kept (update_features_for_order-Updates order_id now_ts mark_ts db)
      where
        kept :
            {r : Option Bool × Db}
            → Updates order_id now_ts mark_ts db r
            → was_order_processed R other later r.1 ≡ true
        kept raised = known
        kept (missing f) = known
        kept (done order) = marked_keeps order_id other mark_ts later _ h1 h2 (
            subst (λ b. b ≡ true)
              (sym (was_order_processed_same other later db _ (write_all_buckets order now_ts db)))
              known)
