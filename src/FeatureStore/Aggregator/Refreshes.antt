-- ===== src/FeatureStore/Aggregator/Refreshes.antt =====
-- The refreshes of feature_store/aggregator.py, whatever the type of the entity: what they store and what they
-- leave alone.
use fraud_forecast.Base.{
  ℕ, ◌≡◌, ◌≢◌, refl, sym, ap, ◌∙◌, subst, Option, none, some, List, [], ◌∷◌, String, Among, inl,
  inr, ◌⊎◌,
}
use fraud_forecast.Base.Int.{ℤ}
use fraud_forecast.FeatureStore.Keys.{
  Entity, user, device, payment, ip, store, address, merchant, email_domain, HashKey,
}
use fraud_forecast.FeatureStore.Client.{key}
use fraud_forecast.FeatureStore.Aggregator.Redis.{ZsetKey, Field, Redis, Laws}
use fraud_forecast.FeatureStore.Aggregator.Streams.{
  persist, clear_age, refresh_user_stream_aggregates, refresh_device_stream_aggregates,
  refresh_payment_stream_aggregates, refresh_ip_stream_aggregates, refresh_store_stream_aggregates,
  refresh_address_stream_aggregates,
}
use fraud_forecast.FeatureStore.Aggregator.Frame.{Stored, persist-SameSets, clear_age-SameSets}
use fraud_forecast.FeatureStore.Aggregator.Mirror.{
  user_mapping_same, device_mapping_same, payment_mapping_same, ip_mapping_same, store_mapping_same,
  address_mapping_same, user-Stored, device-Stored, payment-Stored, ip-Stored, store-Stored,
  address-Stored,
}
use fraud_forecast.FeatureStore.Aggregator.Memory.{HashKey-discrete}
use fraud_forecast.FeatureStore.Aggregator.Trim.{
  Named, Entity-discrete, refresh, mapping, refresh_each, ids_of, refresh_required,
}

module _ (R : Redis) (L : Laws R) (parse_int : String → Option ℤ) where
  open R use {Db, hget, hset}

  persist_hget :
      (k l : HashKey) (m : List (Field × ℤ)) (f : Field) (db : Db)
      → l ≢ k
      → hget l f (persist R k m db) ≡ hget l f db
  persist_hget k l m f db ne = L.expire_hget _ _ _ l f ∙ L.hset_other k l m db f ne

  clear_age_hget :
      (k l : HashKey) (age : Option ℕ) (f : Field) (db : Db)
      → l ≢ k
      → hget l f (clear_age R k age db) ≡ hget l f db
  clear_age_hget k l none f db ne = L.hdel_other k l _ db f ne
  clear_age_hget k l (some minutes) f db ne = refl

  pub refresh_hget :
      (e : Entity) (i : String) (now_ts : ℕ) (l : HashKey) (f : Field) (db : Db)
      → l ≢ key e i
      → hget l f (refresh R parse_int e i now_ts db) ≡ hget l f db
  unfolding refresh_user_stream_aggregates refresh_device_stream_aggregates
      refresh_payment_stream_aggregates refresh_ip_stream_aggregates refresh_store_stream_aggregates
      refresh_address_stream_aggregates
  refresh_hget user i now_ts l f db ne = persist_hget _ l _ f _ ne ∙ clear_age_hget _ l _ f db ne
  refresh_hget device i now_ts l f db ne = persist_hget _ l _ f db ne
  refresh_hget payment i now_ts l f db ne = persist_hget _ l _ f db ne
  refresh_hget ip i now_ts l f db ne = persist_hget _ l _ f db ne
  refresh_hget store i now_ts l f db ne = persist_hget _ l _ f db ne
  refresh_hget address i now_ts l f db ne = persist_hget _ l _ f db ne
  refresh_hget merchant i now_ts l f db ne = refl
  refresh_hget email_domain i now_ts l f db ne = refl

  pub refresh_members :
      (e : Entity) (i : String) (now_ts : ℕ) (db : Db) (z : ZsetKey)
      → L.members z (refresh R parse_int e i now_ts db) ≡ L.members z db
  unfolding refresh_hget
  refresh_members user i now_ts db z =
      persist-SameSets R L z.entity _ _ _ z refl ∙ clear_age-SameSets R L z.entity _ _ db z refl
  refresh_members device i now_ts db z = persist-SameSets R L z.entity _ _ db z refl
  refresh_members payment i now_ts db z = persist-SameSets R L z.entity _ _ db z refl
  refresh_members ip i now_ts db z = persist-SameSets R L z.entity _ _ db z refl
  refresh_members store i now_ts db z = persist-SameSets R L z.entity _ _ db z refl
  refresh_members address i now_ts db z = persist-SameSets R L z.entity _ _ db z refl
  refresh_members merchant i now_ts db z = refl
  refresh_members email_domain i now_ts db z = refl

  -- All sorted sets are the same in both databases.
  abbrev pub AllSets : Db → Db → Type 0
  AllSets db after = (z : ZsetKey) → L.members z after ≡ L.members z db

  pub mapping_same :
      (e : Entity) (i : String) (now_ts : ℕ) (db after : Db)
      → AllSets db after
      → mapping R parse_int e i now_ts after ≡ mapping R parse_int e i now_ts db
  mapping_same user i now_ts db after h =
      user_mapping_same R L parse_int i now_ts db after (λ z p. h z)
  mapping_same device i now_ts db after h = device_mapping_same R L i now_ts db after (λ z p. h z)
  mapping_same payment i now_ts db after h = payment_mapping_same R L i now_ts db after (λ z p. h z)
  mapping_same ip i now_ts db after h = ip_mapping_same R L i now_ts db after (λ z p. h z)
  mapping_same store i now_ts db after h = store_mapping_same R L i now_ts db after (λ z p. h z)
  mapping_same address i now_ts db after h = address_mapping_same R L i now_ts db after (λ z p. h z)
  mapping_same merchant i now_ts db after h = refl
  mapping_same email_domain i now_ts db after h = refl

  -- The hash of the entity holds what its sorted sets give.
  abbrev pub Holds : (now_ts : ℕ) → Entity → String → Db → Type 0
  Holds now_ts e i db = Stored R L (key e i) (mapping R parse_int e i now_ts db) db

  pub refresh-Holds :
      (now_ts : ℕ) (e : Entity) (i : String) (db : Db)
      → Holds now_ts e i (refresh R parse_int e i now_ts db)
  refresh-Holds now_ts user i db = user-Stored R L parse_int i now_ts db
  refresh-Holds now_ts device i db = device-Stored R L i now_ts db
  refresh-Holds now_ts payment i db = payment-Stored R L i now_ts db
  refresh-Holds now_ts ip i db = ip-Stored R L i now_ts db
  refresh-Holds now_ts store i db = store-Stored R L i now_ts db
  refresh-Holds now_ts address i db = address-Stored R L i now_ts db
  refresh-Holds now_ts merchant i db = tt
  refresh-Holds now_ts email_domain i db = tt

  same_hash-Stored :
      (k : HashKey) (m : List (Field × ℤ)) (db after : Db)
      → ((f : Field) → hget k f after ≡ hget k f db)
      → Stored R L k m db
      → Stored R L k m after
  same_hash-Stored k [] db after h s = tt
  same_hash-Stored k ((f, v) ∷ m) db after h s = (h f ∙ s.0, same_hash-Stored k m db after h s.1)

  keeps-Holds :
      (now_ts : ℕ) (e d : Entity) (i j : String) (db : Db)
      → Holds now_ts d j db
      → Holds now_ts d j (refresh R parse_int e i now_ts db)
  keeps-Holds now_ts e d i j db h = split (HashKey-discrete (key d j) (key e i))
    where
      split : Dec (key d j ≡ key e i) → Holds now_ts d j (refresh R parse_int e i now_ts db)
      split (yes p) =
          subst (λ (k : HashKey). Holds now_ts k.entity k.id (refresh R parse_int e i now_ts db))
            (sym p) (refresh-Holds now_ts e i db)
      split (no q) =
          subst (λ m. Stored R L (key d j) m (refresh R parse_int e i now_ts db))
            (sym (mapping_same d j now_ts db _ (refresh_members e i now_ts db)))
            (same_hash-Stored (key d j) _ db _ (λ f. refresh_hget e i now_ts (key d j) f db q) h)

  refresh_each_members :
      (e : Entity) (ids : List String) (now_ts : ℕ) (db : Db)
      → AllSets db (refresh_each R parse_int e ids now_ts db)
  unfolding refresh_each
  refresh_each_members e [] now_ts db z = refl
  refresh_each_members e (i ∷ ids) now_ts db z =
      refresh_each_members e ids now_ts _ z ∙ refresh_members e i now_ts db z

  refresh_each_keeps-Holds :
      (e d : Entity) (j : String) (ids : List String) (now_ts : ℕ) (db : Db)
      → Holds now_ts d j db
      → Holds now_ts d j (refresh_each R parse_int e ids now_ts db)
  unfolding refresh_each
  refresh_each_keeps-Holds e d j [] now_ts db h = h
  refresh_each_keeps-Holds e d j (i ∷ ids) now_ts db h =
      refresh_each_keeps-Holds e d j ids now_ts _ (keeps-Holds now_ts e d i j db h)

  refresh_each-Holds :
      (e : Entity) (ids : List String) (now_ts : ℕ) (db : Db) (i : String)
      → Among i ids
      → Holds now_ts e i (refresh_each R parse_int e ids now_ts db)
  unfolding refresh_each
  refresh_each-Holds e [] now_ts db i m = absurd m
  refresh_each-Holds e (j ∷ ids) now_ts db i (inl p) = refresh_each_keeps-Holds e e i ids now_ts _ (
      subst (λ (n : String). Holds now_ts e n (refresh R parse_int e j now_ts db)) p
        (refresh-Holds now_ts e j db))
  refresh_each-Holds e (j ∷ ids) now_ts db i (inr m) = refresh_each-Holds e ids now_ts _ i m

  Among-ids_of :
      (e : Entity) (i : String) (required : List Named)
      → Among (e, i) required
      → Among i (ids_of e required)
  Among-ids_of e i [] m = absurd m
  Among-ids_of e i ((d, j) ∷ required) m = split (Entity-discrete d e) (Among-ids_of e i required) m
    where
      split :
          (dec : Dec (d ≡ e))
          → (Among (e, i) required → Among i (ids_of e required))
          → ◌≡◌ {A = Named} (d, j) (e, i) ⊎ Among (e, i) required
          → Among i (elim dec [ yes _ ↦ j ∷ ids_of e required | no _ ↦ ids_of e required ])
      split (yes p) ih (inl q) = inl (ap (λ (n : Named). n.1) q)
      split (yes p) ih (inr q) = inr (ih q)
      split (no p) ih (inl q) = absurd (p (ap (λ (n : Named). n.0) q))
      split (no p) ih (inr q) = ih q

  module _ (iterate : List String → List String)
      (iterate_all : (ids : List String) (i : String) → Among i ids → Among i (iterate ids)) where
    pub refresh_required_members :
        (required : List Named) (now_ts : ℕ) (db : Db)
        → AllSets db (refresh_required R parse_int iterate required now_ts db)
    unfolding refresh_required
    refresh_required_members required now_ts db z =
        refresh_each_members address _ now_ts _ z
        ∙ refresh_each_members store _ now_ts _ z
        ∙ refresh_each_members ip _ now_ts _ z
        ∙ refresh_each_members payment _ now_ts _ z
        ∙ refresh_each_members device _ now_ts _ z
        ∙ refresh_each_members user _ now_ts db z

    pub refresh_required-Holds :
        (required : List Named) (now_ts : ℕ) (db : Db) (e : Entity) (i : String)
        → Among (e, i) required
        → Holds now_ts e i (refresh_required R parse_int iterate required now_ts db)
    unfolding refresh_required
    refresh_required-Holds required now_ts db user i m =
        refresh_each_keeps-Holds address user i _ now_ts _ (
          refresh_each_keeps-Holds store user i _ now_ts _ (
            refresh_each_keeps-Holds ip user i _ now_ts _ (
              refresh_each_keeps-Holds payment user i _ now_ts _ (
                refresh_each_keeps-Holds device user i _ now_ts _ (
                  refresh_each-Holds user _ now_ts _ i
                    (iterate_all _ i (Among-ids_of user i required m)))))))
    refresh_required-Holds required now_ts db device i m =
        refresh_each_keeps-Holds address device i _ now_ts _ (
          refresh_each_keeps-Holds store device i _ now_ts _ (
            refresh_each_keeps-Holds ip device i _ now_ts _ (
              refresh_each_keeps-Holds payment device i _ now_ts _ (
                refresh_each-Holds device _ now_ts _ i
                  (iterate_all _ i (Among-ids_of device i required m))))))
    refresh_required-Holds required now_ts db payment i m =
        refresh_each_keeps-Holds address payment i _ now_ts _ (
          refresh_each_keeps-Holds store payment i _ now_ts _ (
            refresh_each_keeps-Holds ip payment i _ now_ts _ (
              refresh_each-Holds payment _ now_ts _ i
                (iterate_all _ i (Among-ids_of payment i required m)))))
    refresh_required-Holds required now_ts db ip i m =
        refresh_each_keeps-Holds address ip i _ now_ts _ (
          refresh_each_keeps-Holds store ip i _ now_ts _
            (refresh_each-Holds ip _ now_ts _ i (iterate_all _ i (Among-ids_of ip i required m))))
    refresh_required-Holds required now_ts db store i m =
        refresh_each_keeps-Holds address store i _ now_ts _ (
          refresh_each-Holds store _ now_ts _ i (iterate_all _ i (Among-ids_of store i required m)))
    refresh_required-Holds required now_ts db address i m =
        refresh_each-Holds address _ now_ts _ i
          (iterate_all _ i (Among-ids_of address i required m))
    refresh_required-Holds required now_ts db merchant i m = tt
    refresh_required-Holds required now_ts db email_domain i m = tt
