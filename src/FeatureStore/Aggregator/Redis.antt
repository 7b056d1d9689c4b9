-- ===== src/FeatureStore/Aggregator/Redis.antt =====
-- The commands of Redis that feature_store/aggregator.py sends, as parameters over an unknown database,
-- with what their documentation says of them. A sorted set's key is the parts of its f-string.
use fraud_forecast.Base.{
  ℕ, ◌+◌, ◌<◌, ◌≤◌, ◌≡◌, ◌≢◌, Bool, true, false, ◌&&◌, Option, none, some, List, [], ◌∷◌, String,
  length, sum_by, filter_by, leb, ◌==◌, map, if◌then◌else◌,
}
use fraud_forecast.Base.Int.{ℤ, pos_part, neg_part}
use fraud_forecast.FeatureStore.Keys.{Entity, HashKey}
use text.Mathlib.Text.{◌==◌ as str_eq}

-- The suffixes of `CLEANUP_ZSET_SUFFIXES`: ":{kind}_zset".
pub data Kind : Type 0 where
  orders spend stores payments users devices cards_1h : Kind

-- "fs:{entity}:{id}:{kind}_zset"
pub record ZsetKey : Type 0 where
  pub entity : Entity
  pub id : String
  pub kind : Kind

pub data Field : Type 0 where
  orders_1h orders_24h spend_1h_pence spend_24h_pence unique_stores_24h unique_payment_methods_24h
        unique_users_24h unique_devices_24h unique_cards_1h decline_count_24h last_order_age_minutes
        updated_at :
      Field

-- A member is the text of an id or, in a spend set, "{order_id}:{pence}".
pub data Member : Type 0 where
  plain : String → Member
  priced : String → ℤ → Member

abbrev pub same : Member → Member → Bool
same (plain a) (plain b) = str_eq a b
same (priced a p) (priced b q) =
    str_eq a b && (pos_part p == pos_part q && neg_part p == neg_part q)
same _ _ = false

-- A score lies between the ends, which both count.
abbrev pub between : ℕ → ℕ → Member × ℕ → Bool
between low high (m, score) = leb low score && leb score high

-- `dict.get`, on the mapping that `hset` takes.
module _ (field_eq : Discrete Field) where
  abbrev pub lookup : Field → List (Field × ℤ) → Option ℤ
  lookup f [] = none
  lookup f ((g, v) ∷ rest) = elim (field_eq g f) [ yes _ ↦ some v | no _ ↦ lookup f rest ]

abbrev pub or_else : Option ℤ → Option ℤ → Option ℤ
or_else (some v) w = some v
or_else none w = w

-- The last entry but one, alone.
abbrev pub second_last {ℓ} : {A : Type ℓ} → List A → List A
second_last [] = []
second_last (x ∷ []) = []
second_last (x ∷ y ∷ []) = x ∷ []
second_last (x ∷ y ∷ z ∷ rest) = second_last (y ∷ z ∷ rest)

unfoldable pub Field-discrete : Discrete Field
Field-discrete = hlevel

pub record Redis : Type 1 where
  pub Db : Type 0
  pub zadd : ZsetKey → Member → ℕ → Db → Db
  pub zcount : ZsetKey → (low high : ℕ) → Db → ℕ
  pub zrangebyscore : ZsetKey → (low high : ℕ) → Db → List Member
  -- `zrevrange(key, 1, 1, withscores=True)`
  pub second_newest : ZsetKey → Db → List (Member × ℕ)
  pub hset : HashKey → List (Field × ℤ) → Db → Db
  pub hdel : HashKey → Field → Db → Db
  pub hget : HashKey → Field → Db → Option ℤ
  pub expire : HashKey → (seconds : ℕ) → Db → Db
  -- The set of a bucket, at a time of the server.
  pub sadd : (bucket : ℕ) → String → (at : ℕ) → Db → Db
  pub expire_bucket : (bucket seconds at : ℕ) → Db → Db
  pub sismember : (bucket : ℕ) → String → (at : ℕ) → Db → Bool

module _ (R : Redis) where
  open R use {
    Db, zadd, zcount, zrangebyscore, hset, hdel, hget, expire, sadd, expire_bucket, sismember,
    second_newest,
  }

  -- What the documentation of the commands says, where `members` is the content of a sorted set.
  pub record Laws : Type 0 where
    pub members : ZsetKey → Db → List (Member × ℕ)
    pub zcount_counts :
        (z : ZsetKey) (low high : ℕ) (db : Db)
        → zcount z low high db ≡ length (filter_by (between low high) (members z db))
    pub zrangebyscore_lists :
        (z : ZsetKey) (low high : ℕ) (db : Db)
        → zrangebyscore z low high db ≡ map (λ e. e.0) (filter_by (between low high) (members z db))
    -- `members` is in the order of the scores.
    pub second_newest_reads :
        (z : ZsetKey) (db : Db) → second_newest z db ≡ second_last (members z db)
    -- ZADD adds the member, or moves it to the score if it is there: whatever is summed over the
    -- set, its old entry goes and the new one comes.
    pub zadd_moves :
        (z : ZsetKey) (m : Member) (score : ℕ) (db : Db) (f : Member × ℕ → ℕ)
        → sum_by f (members z (zadd z m score db))
            + sum_by (λ e. if same e.0 m then f e else 0) (members z db)
          ≡ f (m, score) + sum_by f (members z db)
    pub zadd_other :
        (z w : ZsetKey) (m : Member) (score : ℕ) (db : Db)
        → w ≢ z
        → members w (zadd z m score db) ≡ members w db
    pub zadd_hget :
        (z : ZsetKey) (m : Member) (score : ℕ) (db : Db) (k : HashKey) (f : Field)
        → hget k f (zadd z m score db) ≡ hget k f db
    pub hset_sets :
        (k : HashKey) (mapping : List (Field × ℤ)) (db : Db) (f : Field)
        → hget k f (hset k mapping db) ≡ or_else (lookup Field-discrete f mapping) (hget k f db)
    pub hset_other :
        (k l : HashKey) (mapping : List (Field × ℤ)) (db : Db) (f : Field)
        → l ≢ k
        → hget l f (hset k mapping db) ≡ hget l f db
    pub hset_members :
        (k : HashKey) (mapping : List (Field × ℤ)) (db : Db) (z : ZsetKey)
        → members z (hset k mapping db) ≡ members z db
    pub hdel_deletes : (k : HashKey) (f : Field) (db : Db) → hget k f (hdel k f db) ≡ none
    pub hdel_other :
        (k l : HashKey) (f : Field) (db : Db) (g : Field)
        → l ≢ k
        → hget l g (hdel k f db) ≡ hget l g db
    pub hdel_members :
        (k : HashKey) (f : Field) (db : Db) (z : ZsetKey) → members z (hdel k f db) ≡ members z db
    -- EXPIRE sets a deadline; nothing is gone yet.
    pub expire_hget :
        (k : HashKey) (seconds : ℕ) (db : Db) (l : HashKey) (f : Field)
        → hget l f (expire k seconds db) ≡ hget l f db
    pub expire_members :
        (k : HashKey) (seconds : ℕ) (db : Db) (z : ZsetKey)
        → members z (expire k seconds db) ≡ members z db
    pub bucket_hget :
        (b seconds at : ℕ) (id : String) (db : Db) (l : HashKey) (f : Field)
        → hget l f (expire_bucket b seconds at (sadd b id at db)) ≡ hget l f db
    pub bucket_members :
        (b seconds at : ℕ) (id : String) (db : Db) (z : ZsetKey)
        → members z (expire_bucket b seconds at (sadd b id at db)) ≡ members z db
    -- The sets of ids are keys of their own.
    pub zadd_bucket :
        (z : ZsetKey) (m : Member) (score : ℕ) (db : Db) (b : ℕ) (id : String) (at : ℕ)
        → sismember b id at (zadd z m score db) ≡ sismember b id at db
    pub hset_bucket :
        (k : HashKey) (mapping : List (Field × ℤ)) (db : Db) (b : ℕ) (id : String) (at : ℕ)
        → sismember b id at (hset k mapping db) ≡ sismember b id at db
    pub hdel_bucket :
        (k : HashKey) (f : Field) (db : Db) (b : ℕ) (id : String) (at : ℕ)
        → sismember b id at (hdel k f db) ≡ sismember b id at db
    pub expire_hash_bucket :
        (k : HashKey) (seconds : ℕ) (db : Db) (b : ℕ) (id : String) (at : ℕ)
        → sismember b id at (expire k seconds db) ≡ sismember b id at db
    -- A member that was added is there until the deadline.
    pub sadd_adds :
        (b seconds at : ℕ) (id : String) (db : Db) (later : ℕ)
        → later < at + seconds
        → sismember b id later (expire_bucket b seconds at (sadd b id at db)) ≡ true
    -- A member that would be there at a later time still is, unless a new deadline comes first.
    pub sadd_keeps :
        (b seconds at : ℕ) (id : String) (db : Db) (c : ℕ) (other : String) (later : ℕ)
        → at ≤ later
        → later < at + seconds
        → sismember c other later db ≡ true
        → sismember c other later (expire_bucket b seconds at (sadd b id at db)) ≡ true
