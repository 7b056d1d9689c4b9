-- ===== src/FeatureStore/Aggregator/Frame.antt =====
-- What a write of feature_store/aggregator.py leaves alone: the keys of the other entities.
use fraud_forecast.Base.{
  ℕ, ◌-◌, ◌≡◌, ◌≢◌, refl, ap, ◌∙◌, sym, Option, none, some, List, [], ◌∷◌, String, All, filter_by,
  length, map,
}
use fraud_forecast.Base.Int.{ℤ, pos}
use fraud_forecast.FeatureStore.Keys.{Entity, HashKey}
use fraud_forecast.FeatureStore.Client.{key}
use fraud_forecast.FeatureStore.Aggregator.Redis.{
  Kind, ZsetKey, Field, Member, Redis, Laws, lookup, or_else, Field-discrete, between, second_last,
}
use fraud_forecast.FeatureStore.Aggregator.Window.{count_in, spend_in, sum_spend_from_members}
use fraud_forecast.FeatureStore.Aggregator.Streams.{persist, zset, zadd_if, clear_age}

module _ (R : Redis) (L : Laws R) where
  open R use {Db, zadd, zcount, zrangebyscore, hset, hdel, hget, expire, second_newest, sismember}

  -- Only keys of the entity `e` differ.
  pub record Frame (e : Entity) (db after : Db) : Type 0 where
    pub hashes : (k : HashKey) (f : Field) → k.entity ≢ e → hget k f after ≡ hget k f db
    pub sets : (z : ZsetKey) → z.entity ≢ e → L.members z after ≡ L.members z db
    pub buckets : (b : ℕ) (id : String) (at : ℕ) → sismember b id at after ≡ sismember b id at db

  pub then_Frame :
      {e : Entity} {db mid after : Db} → Frame e db mid → Frame e mid after → Frame e db after
  then_Frame p q = record {
    hashes = λ k f ne. q.hashes k f ne ∙ p.hashes k f ne;
    sets = λ z ne. q.sets z ne ∙ p.sets z ne;
    buckets = λ b id at. q.buckets b id at ∙ p.buckets b id at;
  }

  pub same_Frame : (e : Entity) (db : Db) → Frame e db db
  same_Frame e db = record {
    hashes = λ k f ne. refl;
    sets = λ z ne. refl;
    buckets = λ b id at. refl;
  }

  pub zadd-Frame :
      (e : Entity) (i : String) (kind : Kind) (m : Member) (now_ts : ℕ) (db : Db)
      → Frame e db (zadd (zset e i kind) m now_ts db)
  zadd-Frame e i kind m now_ts db = record {
    hashes = λ k f ne. L.zadd_hget (zset e i kind) m now_ts db k f;
    sets = λ z ne. L.zadd_other (zset e i kind) z m now_ts db (λ p. ne (ap (λ q. q.entity) p));
    buckets = λ b id at. L.zadd_bucket (zset e i kind) m now_ts db b id at;
  }

  pub zadd_if-Frame :
      (e : Entity) (i : String) (kind : Kind) (o : Option String) (now_ts : ℕ) (db : Db)
      → Frame e db (zadd_if R (zset e i kind) o now_ts db)
  zadd_if-Frame e i kind none now_ts db = same_Frame e db
  zadd_if-Frame e i kind (some m) now_ts db = zadd-Frame e i kind _ now_ts db

  pub persist-Frame :
      (e : Entity) (i : String) (mapping : List (Field × ℤ)) (db : Db)
      → Frame e db (persist R (key e i) mapping db)
  persist-Frame e i mapping db = record {
    hashes = λ k f ne.
        L.expire_hget _ _ _ k f
        ∙ L.hset_other (key e i) k mapping db f (λ p. ne (ap (λ q. q.entity) p));
    sets = λ z ne. L.expire_members _ _ _ z ∙ L.hset_members _ mapping db z;
    buckets = λ b id at. L.expire_hash_bucket _ _ _ b id at ∙ L.hset_bucket _ mapping db b id at;
  }

  pub clear_age-Frame :
      (e : Entity) (i : String) (age : Option ℕ) (db : Db)
      → Frame e db (clear_age R (key e i) age db)
  clear_age-Frame e i none db = record {
    hashes = λ k f ne. L.hdel_other (key e i) k _ db f (λ p. ne (ap (λ q. q.entity) p));
    sets = λ z ne. L.hdel_members _ _ db z;
    buckets = λ b id at. L.hdel_bucket _ _ db b id at;
  }
  clear_age-Frame e i (some minutes) db = same_Frame e db

  -- The sets of an entity are the same in both databases.
  abbrev pub SameSets : Entity → Db → Db → Type 0
  SameSets e db after = (z : ZsetKey) → z.entity ≡ e → L.members z after ≡ L.members z db

  pub persist-SameSets :
      (e : Entity) (k : HashKey) (mapping : List (Field × ℤ)) (db : Db)
      → SameSets e db (persist R k mapping db)
  persist-SameSets e k mapping db z h = L.expire_members _ _ _ z ∙ L.hset_members k mapping db z

  pub clear_age-SameSets :
      (e : Entity) (k : HashKey) (age : Option ℕ) (db : Db) → SameSets e db (clear_age R k age db)
  clear_age-SameSets e k none db z h = L.hdel_members _ _ db z
  clear_age-SameSets e k (some minutes) db z h = refl

  pub count_in_same :
      (z : ZsetKey) (seconds now_ts : ℕ) (db after : Db)
      → L.members z after ≡ L.members z db
      → count_in R z seconds now_ts after ≡ count_in R z seconds now_ts db
  count_in_same z seconds now_ts db after h = ap pos (
      L.zcount_counts z _ _ after
      ∙ ap (λ ms. length (filter_by (between (now_ts - seconds) now_ts) ms)) h
      ∙ sym (L.zcount_counts z _ _ db))

  pub spend_in_same :
      (parse_int : String → Option ℤ) (z : ZsetKey) (seconds now_ts : ℕ) (db after : Db)
      → L.members z after ≡ L.members z db
      → spend_in R parse_int z seconds now_ts after ≡ spend_in R parse_int z seconds now_ts db
  spend_in_same parse_int z seconds now_ts db after h = ap (sum_spend_from_members parse_int) (
      L.zrangebyscore_lists z _ _ after
      ∙ ap (λ ms. map (λ e. e.0) (filter_by (between (now_ts - seconds) now_ts) ms)) h
      ∙ sym (L.zrangebyscore_lists z _ _ db))

  pub second_newest_same :
      (z : ZsetKey) (db after : Db)
      → L.members z after ≡ L.members z db
      → second_newest z after ≡ second_newest z db
  second_newest_same z db after h =
      L.second_newest_reads z after ∙ ap second_last h ∙ sym (L.second_newest_reads z db)

  -- The hash holds every entry of the mapping.
  abbrev pub Stored : HashKey → List (Field × ℤ) → Db → Type 0
  Stored k mapping db = All (λ e. hget k e.0 db ≡ some e.1) mapping

  -- No field of the mapping is set twice.
  abbrev pub Unambiguous : List (Field × ℤ) → List (Field × ℤ) → Type 0
  Unambiguous whole = All (λ e. lookup Field-discrete e.0 whole ≡ some e.1)

  pub persist-Stored :
      (k : HashKey) (whole part : List (Field × ℤ)) (db : Db)
      → Unambiguous whole part
      → Stored k part (persist R k whole db)
  persist-Stored k whole [] db h = tt
  persist-Stored k whole ((f, v) ∷ part) db (here, rest) = (
    L.expire_hget _ _ _ k f ∙ L.hset_sets k whole db f ∙ ap (λ o. or_else o (hget k f db)) here,
    persist-Stored k whole part db rest,
  )
