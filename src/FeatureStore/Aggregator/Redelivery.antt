-- ===== src/FeatureStore/Aggregator/Redelivery.antt =====
-- What a user's hash says of an order that feature_store/aggregator.py writes, the first time and when
-- the same order is delivered again.
use fraud_forecast.Base.{
  ℕ, ◌+◌, ◌-◌, ◌≡◌, ◌≢◌, refl, ap, ◌∙◌, true, some, Option, none, List, String, length, map, arith,
}
use fraud_forecast.Base.Int.{ℤ, pos, ◌+ℤ◌}
use fraud_forecast.FeatureStore.Keys.{user}
use fraud_forecast.FeatureStore.Client.{key}
use fraud_forecast.FeatureStore.Aggregator.Redis.{
  Kind, orders, spend, stores, payments, ZsetKey, orders_1h, orders_24h, spend_1h_pence,
  spend_24h_pence, Member, plain, priced, between, Redis, Laws,
}
use fraud_forecast.FeatureStore.Aggregator.Window.{
  one_hour_seconds, twenty_four_hours_seconds, count_in, spend_in, sum_spend_from_members,
}
use fraud_forecast.FeatureStore.Aggregator.Streams.{
  OrderContext, zset, zadd_if, add_user_order, user_mapping, write_user_stream_aggregates,
}
use fraud_forecast.FeatureStore.Aggregator.Frame.{Stored, count_in_same, spend_in_same}
use fraud_forecast.FeatureStore.Aggregator.Mirror.{user-Stored, refresh_user-SameSets}
use fraud_forecast.FeatureStore.Aggregator.Moving.{
  others, window_count, window_spend, others_count, others_spend,
}

in_window : (m : Member) (seconds now_ts : ℕ) → between (now_ts - seconds) now_ts (m, now_ts) ≡ true
in_window m seconds now_ts = ground arith

module _ (R : Redis) (L : Laws R) (parse_int : String → Option ℤ) where
  open R use {Db, zadd, hget}

  -- The user's other orders in a window, counted; and what they cost.
  abbrev pub other_orders : OrderContext → (seconds now_ts : ℕ) → Db → ℕ
  other_orders order seconds now_ts db = length (
      others (plain order.order_id) (now_ts - seconds) now_ts
        (L.members (zset user order.user_id orders) db))

  abbrev pub other_spend : OrderContext → (seconds now_ts : ℕ) → Db → ℤ
  other_spend order seconds now_ts db = sum_spend_from_members parse_int (
      map (λ e. e.0)
        (others (priced order.order_id order.total_pence) (now_ts - seconds) now_ts
          (L.members (zset user order.user_id spend) db)))

  zadd_if_other :
      (z w : ZsetKey) (o : Option String) (now_ts : ℕ) (db : Db)
      → w ≢ z
      → L.members w (zadd_if R z o now_ts db) ≡ L.members w db
  zadd_if_other z w none now_ts db ne = refl
  zadd_if_other z w (some i) now_ts db ne = L.zadd_other z w (plain i) now_ts db ne

  orders_members :
      (order : OrderContext) (now_ts : ℕ) (db : Db)
      → L.members (zset user order.user_id orders) (add_user_order R parse_int order now_ts db)
        ≡ L.members
            (zset user order.user_id orders)
            (zadd (zset user order.user_id orders) (plain order.order_id) now_ts db)
  orders_members order now_ts db =
      L.zadd_other _ _ _ now_ts _ (λ p. let q = ap (λ z. z.kind) p in cc)
      ∙ zadd_if_other _ _ order.payment_method_id now_ts _ (λ p. let q = ap (λ z. z.kind) p in cc)
      ∙ L.zadd_other _ _ _ now_ts _ (λ p. let q = ap (λ z. z.kind) p in cc)

  spend_members :
      (order : OrderContext) (now_ts : ℕ) (db : Db)
      → L.members (zset user order.user_id spend) (
          zadd_if R (zset user order.user_id payments) order.payment_method_id now_ts (
            zadd
              (zset user order.user_id stores)
              (plain order.store_id)
              now_ts
              (zadd (zset user order.user_id orders) (plain order.order_id) now_ts db)))
        ≡ L.members (zset user order.user_id spend) db
  spend_members order now_ts db =
      zadd_if_other _ _ order.payment_method_id now_ts _ (λ p. let q = ap (λ z. z.kind) p in cc)
      ∙ L.zadd_other _ _ _ now_ts _ (λ p. let q = ap (λ z. z.kind) p in cc)
      ∙ L.zadd_other _ _ _ now_ts _ (λ p. let q = ap (λ z. z.kind) p in cc)

  written_members :
      (order : OrderContext) (now_ts : ℕ) (db : Db) (kind : Kind)
      → L.members
          (zset user order.user_id kind)
          (write_user_stream_aggregates R parse_int order now_ts db)
        ≡ L.members (zset user order.user_id kind) (add_user_order R parse_int order now_ts db)
  unfolding write_user_stream_aggregates
  written_members order now_ts db kind =
      refresh_user-SameSets R L parse_int order.user_id now_ts _ (zset user order.user_id kind) refl

  orders_in :
      (order : OrderContext) (seconds now_ts : ℕ) (db : Db)
      → count_in R
          (zset user order.user_id orders)
          seconds
          now_ts
          (write_user_stream_aggregates R parse_int order now_ts db)
        ≡ pos (1 + other_orders order seconds now_ts db)
  orders_in order seconds now_ts db =
      count_in_same R L (zset user order.user_id orders) seconds now_ts _ _
        (written_members order now_ts db orders ∙ orders_members order now_ts db)
      ∙ ap pos (
          window_count R L (zset user order.user_id orders) (plain order.order_id) now_ts _ now_ts
            db (in_window (plain order.order_id) seconds now_ts))

  spend_of :
      (order : OrderContext) (seconds now_ts : ℕ) (db : Db)
      → spend_in R parse_int
          (zset user order.user_id spend)
          seconds
          now_ts
          (write_user_stream_aggregates R parse_int order now_ts db)
        ≡ order.total_pence +ℤ other_spend order seconds now_ts db
  spend_of order seconds now_ts db =
      spend_in_same R L parse_int (zset user order.user_id spend) seconds now_ts _ _
        (written_members order now_ts db spend)
      ∙ window_spend R L parse_int (zset user order.user_id spend) order.order_id order.total_pence
          now_ts _ now_ts _ (in_window (priced order.order_id order.total_pence) seconds now_ts)
      ∙ ap
          (λ ms.
            order.total_pence
            +ℤ sum_spend_from_members parse_int (
                map (λ e. e.0)
                  (others (priced order.order_id order.total_pence) (now_ts - seconds) now_ts ms)))
          (spend_members order now_ts db)

  written-Stored :
      (order : OrderContext) (now_ts : ℕ) (db : Db)
      → Stored R L
          (key user order.user_id)
          (user_mapping R parse_int order.user_id now_ts
            (write_user_stream_aggregates R parse_int order now_ts db))
          (write_user_stream_aggregates R parse_int order now_ts db)
  unfolding write_user_stream_aggregates
  written-Stored order now_ts db = user-Stored R L parse_int order.user_id now_ts _

  -- The four windows of a user's hash.
  pub record Windows (order : OrderContext) (now_ts : ℕ) (db after : Db) : Type 0 where
    pub orders_hour :
        hget (key user order.user_id) orders_1h after
        ≡ some (pos (1 + other_orders order one_hour_seconds now_ts db))
    pub orders_day :
        hget (key user order.user_id) orders_24h after
        ≡ some (pos (1 + other_orders order twenty_four_hours_seconds now_ts db))
    pub spend_hour :
        hget (key user order.user_id) spend_1h_pence after
        ≡ some (order.total_pence +ℤ other_spend order one_hour_seconds now_ts db)
    pub spend_day :
        hget (key user order.user_id) spend_24h_pence after
        ≡ some (order.total_pence +ℤ other_spend order twenty_four_hours_seconds now_ts db)

  -- After a user's write, each window of the user's hash counts the order itself once and the user's
  -- other orders whose scores lie in the window, and its spend is the order's total and theirs.
  pub write_user_stream_aggregates-Windows :
      (order : OrderContext) (now_ts : ℕ) (db : Db)
      → Windows order now_ts db (write_user_stream_aggregates R parse_int order now_ts db)
  write_user_stream_aggregates-Windows order now_ts db =
      let stored = written-Stored order now_ts db in
      record {
        orders_hour = stored.0 ∙ ap some (orders_in order one_hour_seconds now_ts db);
        orders_day = stored.1.0 ∙ ap some (orders_in order twenty_four_hours_seconds now_ts db);
        spend_hour = stored.1.1.0 ∙ ap some (spend_of order one_hour_seconds now_ts db);
        spend_day = stored.1.1.1.0 ∙ ap some (spend_of order twenty_four_hours_seconds now_ts db);
      }

  orders_again :
      (order : OrderContext) (seconds now_ts later : ℕ) (db : Db)
      → other_orders order seconds later (write_user_stream_aggregates R parse_int order now_ts db)
        ≡ other_orders order seconds later db
  orders_again order seconds now_ts later db =
      ap (λ ms. length (others (plain order.order_id) (later - seconds) later ms))
        (written_members order now_ts db orders ∙ orders_members order now_ts db)
      ∙ others_count R L (zset user order.user_id orders) (plain order.order_id) now_ts _ later db

  spend_again :
      (order : OrderContext) (seconds now_ts later : ℕ) (db : Db)
      → other_spend order seconds later (write_user_stream_aggregates R parse_int order now_ts db)
        ≡ other_spend order seconds later db
  spend_again order seconds now_ts later db =
      let total = λ (ms : List (Member × ℕ)). sum_spend_from_members parse_int (
        map (λ e. e.0)
          (others (priced order.order_id order.total_pence) (later - seconds) later ms)) in
      ap total (written_members order now_ts db spend)
      ∙ others_spend R L parse_int (zset user order.user_id spend)
          (priced order.order_id order.total_pence) now_ts _ later _
      ∙ ap total (spend_members order now_ts db)

  -- An order that is delivered a second time, at whatever time, is not counted twice: the windows of
  -- the user's hash are those that one delivery at the second time would have left.
  pub write_user_stream_aggregates_redelivered :
      (order : OrderContext) (now_ts later : ℕ) (db : Db)
      → Windows order later db (
          write_user_stream_aggregates R parse_int order later
            (write_user_stream_aggregates R parse_int order now_ts db))
  write_user_stream_aggregates_redelivered order now_ts later db =
      let once = write_user_stream_aggregates R parse_int order now_ts db in
      let w = write_user_stream_aggregates-Windows order later once in
      let counted = λ (seconds : ℕ).
        ap (λ n. some (pos (1 + n))) (orders_again order seconds now_ts later db) in
      let spent = λ (seconds : ℕ).
        ap (λ v. some (order.total_pence +ℤ v)) (spend_again order seconds now_ts later db) in
      record {
        orders_hour = w.orders_hour ∙ counted one_hour_seconds;
        orders_day = w.orders_day ∙ counted twenty_four_hours_seconds;
        spend_hour = w.spend_hour ∙ spent one_hour_seconds;
        spend_day = w.spend_day ∙ spent twenty_four_hours_seconds;
      }
