-- ===== src/FeatureStore/Aggregator/Polls.antt =====
-- How the backup poll of feature_store/aggregator.py works with the handlers of the notifications, which come
-- in any order before it.
use fraud_forecast.Base.{
  ℕ, ◌<◌, ◌+◌, ◌-◌, ◌≤◌, ◌≡◌, refl, sym, ap, ◌∙◌, subst, true, Bool, some, Option, List, [], ◌∷◌,
  String, All, Among, inl, inr, arith,
}
use fraud_forecast.Base.Int.{ℤ}
use fraud_forecast.FeatureStore.Aggregator.Redis.{Redis, Laws}
use fraud_forecast.FeatureStore.Aggregator.Update.{
  Row, coerce_uuid, order_ttl_seconds, processed_orders_ttl_seconds, was_order_processed,
  update_features_for_order, poll_order, poll_next, poll_rows, run_backup_poll_once,
  backup_poll_fallback_seconds,
}
use fraud_forecast.FeatureStore.Aggregator.Dedupe.{
  update_features_for_order-was_order_processed, update_features_for_order_keeps,
}

module _ (R : Redis) (L : Laws R) (parse_int : String → Option ℤ)
    (parse_uuid : String → Option String) (fetchrow : String → Option Row) where
  open R use {Db}

  abbrev updated : String → (now_ts mark_ts : ℕ) → Db → Option Bool × Db
  updated order_id now_ts mark_ts db =
      update_features_for_order R parse_int parse_uuid fetchrow order_id now_ts mark_ts db

  -- What has come before the time `later`: updates that said true, with the orders that they handled, and any
  -- other updates between them, whatever they did.
  pub data Handled (later : ℕ) (before : Db) : List String → Db → Type 0 where
    begin : Handled later before [] before
    handled :
        {ids : List String} {db : Db} (order_id : String) (now_ts mark_ts : ℕ)
        → Handled later before ids db
        → (updated order_id now_ts mark_ts db).0 ≡ some true
        → mark_ts ≤ later
        → later ≤ mark_ts + order_ttl_seconds
        → Handled later before (order_id ∷ ids) (updated order_id now_ts mark_ts db).1
    between :
        {ids : List String} {db : Db} (order_id : String) (now_ts mark_ts : ℕ)
        → Handled later before ids db
        → mark_ts ≤ later
        → later < mark_ts + processed_orders_ttl_seconds
        → Handled later before ids (updated order_id now_ts mark_ts db).1

  handled_known :
      (later : ℕ) (before db : Db) (ids : List String)
      → Handled later before ids db
      → (id : String) → Among id ids
      → was_order_processed R id later db ≡ true
  handled_known later before db ids begin id m = absurd m
  handled_known later before db ids (handled {db = mid} order_id now_ts mark_ts h said h1 h2) id
        (inl e) =
      subst
        (λ (i : String).
          was_order_processed R i later (updated order_id now_ts mark_ts mid).1 ≡ true)
        e
        (update_features_for_order-was_order_processed R L parse_int parse_uuid fetchrow order_id
          now_ts mark_ts later mid said h1 h2)
  handled_known later before db ids (handled order_id now_ts mark_ts h said h1 h2) id (inr m) =
      update_features_for_order_keeps R L parse_int parse_uuid fetchrow order_id id now_ts mark_ts
        later _ h1 (omega (arith, h2)) (handled_known later before _ _ h id m)
  handled_known later before db ids (between order_id now_ts mark_ts h h1 h2) id m =
      update_features_for_order_keeps R L parse_int parse_uuid fetchrow order_id id now_ts mark_ts
        later _ h1 h2 (handled_known later before _ _ h id m)

  -- The row's id can be read, and the order is known as processed.
  abbrev Processed : ℕ → Db → Row → Type 0
  Processed now_ts db row =
      (order_id : String) × (coerce_uuid parse_uuid row.order_id ≡ some order_id)
      × (was_order_processed R order_id now_ts db ≡ true)

  poll_order_known :
      (clock : String → ℕ × ℕ) (order_id : String) (now_ts : ℕ) (db : Db) (errors : ℕ)
      → was_order_processed R order_id now_ts db ≡ true
      → poll_order R parse_int parse_uuid fetchrow clock order_id now_ts (db, errors) ≡ (db, errors)
  unfolding poll_order
  poll_order_known clock order_id now_ts db errors h = rw h

  poll_rows-Processed :
      (clock : String → ℕ × ℕ) (rows : List Row) (now_ts : ℕ) (db : Db) (errors : ℕ)
      → All (Processed now_ts db) rows
      → poll_rows R parse_int parse_uuid fetchrow clock rows now_ts (db, errors)
        ≡ (true, db, errors)
  unfolding poll_rows
  poll_rows-Processed clock [] now_ts db errors h = refl
  poll_rows-Processed clock (row ∷ rows) now_ts db errors ((order_id, read, known), rest) =
      let later = poll_rows-Processed clock rows now_ts db errors rest in
      let skipped = poll_order_known clock order_id now_ts db errors known in
      subst
        (λ o.
          poll_next R parse_int parse_uuid fetchrow clock o now_ts
            (poll_rows R parse_int parse_uuid fetchrow clock rows now_ts) (db, errors)
          ≡ (true, db, errors))
        (sym read)
        (ap (poll_rows R parse_int parse_uuid fetchrow clock rows now_ts) skipped ∙ later)

  -- The row's id can be read and is one of the ids.
  abbrev pub OneOf : List String → Row → Type 0
  OneOf ids row =
      (order_id : String) × (coerce_uuid parse_uuid row.order_id ≡ some order_id)
      × Among order_id ids

  rows_known :
      (later : ℕ) (before db : Db) (ids : List String)
      → Handled later before ids db
      → (rows : List Row) → All (OneOf ids) rows
      → All (Processed later db) rows
  rows_known later before db ids h [] hs = tt
  rows_known later before db ids h (row ∷ rows) ((order_id, read, m), rest) = (
    (order_id, read, handled_known later before db ids h order_id m),
    rows_known later before db ids h rows rest,
  )

  -- A backup poll whose rows are orders that updates have handled and marked in the ten minutes before it,
  -- whatever other updates came between and as long as their marks live, leaves Redis as it is, raises
  -- nothing and counts no error.
  pub run_backup_poll_once-Handled :
      (rows_between : ℕ → ℕ → List Row) (clock : String → ℕ × ℕ) (now_ts : ℕ) (before db : Db)
      (ids : List String) (errors : ℕ)
      → Handled now_ts before ids db
      → All (OneOf ids) (rows_between (now_ts - backup_poll_fallback_seconds) now_ts)
      → run_backup_poll_once R parse_int parse_uuid fetchrow rows_between clock now_ts (db, errors)
        ≡ (true, db, errors)
  unfolding run_backup_poll_once
  run_backup_poll_once-Handled rows_between clock now_ts before db ids errors h rows =
      poll_rows-Processed clock _ now_ts db errors (rows_known now_ts before db ids h _ rows)
