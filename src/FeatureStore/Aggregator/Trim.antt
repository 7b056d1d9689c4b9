-- ===== src/FeatureStore/Aggregator/Trim.antt =====
-- trim_order_zsets_once of feature_store/aggregator.py: old members are dropped from the sorted sets, and each
-- entity that has lost one is refreshed.
use fraud_forecast.Base.{
  Option, not, mem_by, ℕ, ◌-◌, ◌≡◌, ◌≢◌, Bool, true, false, ◌||◌, List, [], ◌∷◌, String, filter_by,
  ltb, if◌then◌else◌,
}
use fraud_forecast.Base.Int.{ℤ}
use fraud_forecast.FeatureStore.Keys.{
  Entity, user, device, payment, ip, store, address, merchant, email_domain,
}
use fraud_forecast.FeatureStore.Aggregator.Redis.{
  Kind, orders, spend, stores, payments, users, devices, cards_1h, ZsetKey, Field, Member, Redis,
  Laws,
}
use fraud_forecast.FeatureStore.Aggregator.Window.{twenty_four_hours_seconds}
use fraud_forecast.FeatureStore.Aggregator.Streams.{
  zset, user_mapping, device_mapping, payment_mapping, ip_mapping, store_mapping, address_mapping,
  refresh_user_stream_aggregates, refresh_device_stream_aggregates,
  refresh_payment_stream_aggregates, refresh_ip_stream_aggregates, refresh_store_stream_aggregates,
  refresh_address_stream_aggregates,
}
use fraud_forecast.FeatureStore.Aggregator.Memory.{String-discrete}
use text.Mathlib.Text.{◌==◌ as str_eq}

-- `zremrangebyscore(key, "-inf", cutoff)`: the number of members removed, and what is left.
pub record Remover (R : Redis) : Type 0 where
  pub zremrangebyscore : ZsetKey → (cutoff : ℕ) → R.Db → ℕ × R.Db

module _ (R : Redis) (L : Laws R) where
  -- What its documentation says.
  pub record RemoverLaws (M : Remover R) : Type 0 where
    pub removes :
        (z : ZsetKey) (cutoff : ℕ) (db : R.Db)
        → L.members z (M.zremrangebyscore z cutoff db).1
          ≡ filter_by (λ (e : Member × ℕ). ltb cutoff e.1) (L.members z db)
    pub removes_other :
        (z w : ZsetKey) (cutoff : ℕ) (db : R.Db)
        → w ≢ z
        → L.members w (M.zremrangebyscore z cutoff db).1 ≡ L.members w db
    pub removes_none :
        (z : ZsetKey) (cutoff : ℕ) (db : R.Db)
        → (M.zremrangebyscore z cutoff db).0 ≡ 0
        → L.members z (M.zremrangebyscore z cutoff db).1 ≡ L.members z db

-- What a key names: `_extract_entity_from_zset_key` reads it from the key's text.
abbrev pub Named : Type 0
Named = Entity × String

-- `CLEANUP_ZSET_SUFFIXES`
abbrev pub cleanup_kinds : List Kind
cleanup_kinds = orders ∷ spend ∷ stores ∷ payments ∷ users ∷ devices ∷ cards_1h ∷ []

-- The types that `refresh_required_by_type` has.
abbrev pub is_streamed : Entity → Bool
is_streamed merchant = false
is_streamed email_domain = false
is_streamed _ = true

unfoldable pub Entity-discrete : Discrete Entity
Entity-discrete = hlevel

unfoldable pub Named-discrete : Discrete Named
Named-discrete = hlevel (String-discrete)

-- `refresh_required_by_type[entity_type].add(entity_id)`, of a key with an id: the entries of all its sets.
unfoldable pub require : Named → List Named → List Named
require (e, i) required =
    if str_eq i "" || not (is_streamed e) || mem_by Named-discrete (e, i) required
    then required
    else (e, i) ∷ required

-- The loop over `zip(keys, trimmed_counts)`.
unfoldable pub note : List Named → List ℕ → List Named → List Named
note (n ∷ keys) (count ∷ counts) required =
    note keys counts (if ltb 0 count then require n required else required)
note _ _ required = required

-- `refresh_required_by_type[entity]`
abbrev pub ids_of : Entity → List Named → List String
ids_of e [] = []
ids_of e ((d, i) ∷ required) =
    let rest = ids_of e required in elim (Entity-discrete d e) [ yes _ ↦ i ∷ rest | no _ ↦ rest ]

module _ (R : Redis) (M : Remover R) where
  open R use {Db}
  open M use {zremrangebyscore}

  -- The pipeline of one page.
  unfoldable pub execute : Kind → (cutoff : ℕ) → List Named → Db → List ℕ × Db
  execute k cutoff [] db = ([], db)
  execute k cutoff ((e, i) ∷ keys) db =
      let (count, trimmed) = zremrangebyscore (zset e i k) cutoff db in
      let (counts, after) = execute k cutoff keys trimmed in (count ∷ counts, after)

  -- The pages that `scan` gives for one suffix.
  unfoldable pub trim_pages :
      Kind → (cutoff : ℕ) → List (List Named) → List Named × Db → List Named × Db
  trim_pages k cutoff [] s = s
  trim_pages k cutoff (keys ∷ pages) (required, db) =
      let (counts, after) = execute k cutoff keys db in
      trim_pages k cutoff pages (note keys counts required, after)

  unfoldable pub trim_kinds :
      List Kind
      → (cutoff : ℕ) → (scan : Kind → List (List Named)) → List Named × Db
      → List Named × Db
  trim_kinds [] cutoff scan s = s
  trim_kinds (k ∷ kinds) cutoff scan s =
      trim_kinds kinds cutoff scan (trim_pages k cutoff (scan k) s)

module _ (R : Redis) (parse_int : String → Option ℤ) where
  open R use {Db}

  -- The refresh of each type of entity, and what it stores.
  abbrev pub refresh : Entity → String → (now_ts : ℕ) → Db → Db
  refresh user i now_ts db = refresh_user_stream_aggregates R parse_int i now_ts db
  refresh device i now_ts db = refresh_device_stream_aggregates R i now_ts db
  refresh payment i now_ts db = refresh_payment_stream_aggregates R i now_ts db
  refresh ip i now_ts db = refresh_ip_stream_aggregates R i now_ts db
  refresh store i now_ts db = refresh_store_stream_aggregates R i now_ts db
  refresh address i now_ts db = refresh_address_stream_aggregates R i now_ts db
  refresh _ i now_ts db = db

  abbrev pub mapping : Entity → String → (now_ts : ℕ) → Db → List (Field × ℤ)
  mapping user i now_ts db = user_mapping R parse_int i now_ts db
  mapping device i now_ts db = device_mapping R i now_ts db
  mapping payment i now_ts db = payment_mapping R i now_ts db
  mapping ip i now_ts db = ip_mapping R i now_ts db
  mapping store i now_ts db = store_mapping R i now_ts db
  mapping address i now_ts db = address_mapping R i now_ts db
  mapping _ i now_ts db = []

  unfoldable pub refresh_each : Entity → List String → (now_ts : ℕ) → Db → Db
  refresh_each e [] now_ts db = db
  refresh_each e (i ∷ ids) now_ts db = refresh_each e ids now_ts (refresh e i now_ts db)

  module _ (iterate : List String → List String) where
    -- The six loops over the sets of ids; `iterate` gives the order in which a set is gone through.
    unfoldable pub refresh_required : List Named → (now_ts : ℕ) → Db → Db
    refresh_required required now_ts db =
        let each =
          λ (e : Entity) (db : Db). refresh_each e (iterate (ids_of e required)) now_ts db in
        each address (each store (each ip (each payment (each device (each user db)))))

module _ (R : Redis) (M : Remover R) (parse_int : String → Option ℤ)
    (iterate : List String → List String) where
  unfoldable pub trim_order_zsets_once :
      (scan : Kind → List (List Named)) → (now_ts : ℕ) → R.Db → R.Db
  trim_order_zsets_once scan now_ts db =
      let (required, trimmed) =
        trim_kinds R M cleanup_kinds (now_ts - twenty_four_hours_seconds) scan ([], db) in
      refresh_required R parse_int iterate required now_ts trimmed
