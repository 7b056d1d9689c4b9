-- ===== src/FeatureStore/Reading.antt =====
-- `get_features` of feature_store/client.py against the declarations of feature_store/schema.py: an
-- attribute's name says which entity and which field it is read from, and its default which of the two hashes.
use Prim.Native.String.{◌++◌}
use fraud_forecast.Base.{
  ◌≡◌, refl, sym, ◌∙◌, subst, ap, Bool, true, false, inl, inr, Option, none, some, is_some, get_or,
  List, [], ◌∷◌, ◌⊎◌, arith, mem_by-Among, Among, if◌then◌else◌, Option-cases, String,
}
use fraud_forecast.Base.Int.{pos}
use fraud_forecast.FeatureStore.Keys.{
  Entity, user, device, payment, ip, store, merchant, email_domain, address, Part, stream, batch,
  HashKey, Context, Source, user_stream, user_batch, device_stream, device_batch, payment_stream,
  payment_batch, ip_stream, ip_batch, store_stream, store_batch, merchant_batch, email_domain_batch,
  address_stream,
}
use fraud_forecast.FeatureStore.Schema.{
  Feature, features, source_of, field_of, Kind, kind_of, user_orders_1h,
}
use fraud_forecast.FeatureStore.Declared.{declared}
use fraud_forecast.FeatureStore.Client.{Hash, Hashes, Reply, get, dict_of}
use fraud_forecast.FeatureStore.Build.{
  missing_features, Numerals, Value, int_value, FeatureSet, value_of, convert, all_convert,
  build_feature_set, get_features,
}
use fraud_forecast.FeatureStore.Decoding.{hash_by_key, hashes_of_results-hash_by_key}
use fraud_forecast.FeatureStore.Meaning.{Means, Unreadable, Ended, convert-Ended}
use fraud_forecast.FeatureStore.Missing.{Feature-discrete, listed}

-- What the names of an entity's attributes begin with.
abbrev pub prefix : Entity → String
prefix user = "user_"
prefix device = "device_"
prefix payment = "payment_"
prefix ip = "ip_"
prefix store = "store_"
prefix merchant = "merchant_"
prefix email_domain = "email_domain_"
prefix address = "address_"

-- The id of an order's entity, where it has one.
abbrev pub id_of : Context → Entity → Option String
id_of c user = some c.user_id
id_of c device = c.device_id
id_of c payment = c.payment_method_id
id_of c ip = some c.ip_address
id_of c store = some c.store_id
id_of c merchant = some c.merchant_id
id_of c email_domain = some c.email_domain
id_of c address = c.delivery_address_id

abbrev pub hash_at : (HashKey → Reply) → Entity → Part → Option String → Hash
hash_at hgetall e part none = []
hash_at hgetall e part (some i) = dict_of (hgetall (record { entity = e; id = i; part = part }))

abbrev pub part_for : (optional : Bool) → Part
part_for true = batch
part_for false = stream

abbrev entity_of : Source → Entity
entity_of user_stream = user
entity_of user_batch = user
entity_of device_stream = device
entity_of device_batch = device
entity_of payment_stream = payment
entity_of payment_batch = payment
entity_of ip_stream = ip
entity_of ip_batch = ip
entity_of store_stream = store
entity_of store_batch = store
entity_of merchant_batch = merchant
entity_of email_domain_batch = email_domain
entity_of address_stream = address

abbrev part_of : Source → Part
part_of user_stream = stream
part_of device_stream = stream
part_of payment_stream = stream
part_of ip_stream = stream
part_of store_stream = stream
part_of address_stream = stream
part_of _ = batch

-- The call takes each attribute from where its declaration says.
named : (f : Feature) → (declared f).name ≡ prefix (entity_of (source_of f)) ++ field_of f
unfolding declared source_of field_of
named user_orders_1h = refl
named _ = refl

typed : (f : Feature) → kind_of f ≡ (declared f).type
unfolding declared kind_of
typed user_orders_1h = refl
typed _ = refl

parted : (f : Feature) → part_of (source_of f) ≡ part_for (declared f).optional
unfolding declared source_of
parted user_orders_1h = refl
parted _ = refl

module _ (hgetall : HashKey → Reply) where
  at_source :
      (c : Context) (s : Source)
      → hash_by_key hgetall c s ≡ hash_at hgetall (entity_of s) (part_of s) (id_of c (entity_of s))
  at_source c device_stream = ground arith
  at_source c device_batch = ground arith
  at_source c payment_stream = ground arith
  at_source c payment_batch = ground arith
  at_source c address_stream = ground arith
  at_source c _ = refl

module _ (N : Numerals) where
  open N use {Float, zero_float, int_of, float_of}

  -- Where an attribute's name places it.
  pub record Place (f : Feature) : Type 0 where
    pub entity : Entity
    pub field : String
    pub spelled : (declared f).name ≡ prefix entity ++ field

  module _ (c : Context) (hgetall : HashKey → Reply) where
    abbrev pub text_at : (f : Feature) → Place f → Option String
    text_at f p =
        get p.field (hash_at hgetall p.entity (part_for (declared f).optional) (id_of c p.entity))

    module _ (latency_ms : Float) where
      abbrev pub by_key : Hashes
      by_key = hash_by_key hgetall c

      -- How the call ends.
      pub data Fetched : Option (FeatureSet N) → Type 0 where
        fetched :
            {fs : FeatureSet N}
            → ((f : Feature)
                → (p : Place f) × Means N (declared f).type (text_at f p) (fs.feature f))
            → fs.missing ≡ missing_features c by_key
            → fs.feature_fetch_latency_ms ≡ latency_ms
            → Fetched (some fs)
        raised :
            (f : Feature) (p : Place f)
            → Unreadable N (declared f).type (text_at f p)
            → Fetched none

  place : (f : Feature) → Place f
  place f = record { entity = entity_of (source_of f); field = field_of f; spelled = named f }

  module _ (c : Context) (hgetall : HashKey → Reply) where
    -- The text that the call takes is the one at the attribute's place.
    same_text :
        (f : Feature)
        → get (field_of f) (hash_by_key hgetall c (source_of f)) ≡ text_at c hgetall f (place f)
    unfolding place
    same_text f = ap (get (field_of f)) (
        at_source hgetall c (source_of f)
        ∙ ap
            (λ (part : Part).
              hash_at hgetall (entity_of (source_of f)) part (id_of c (entity_of (source_of f))))
            (parted f))

    value_of-Ended :
        (f : Feature)
        → Ended N
            (declared f).type
            (text_at c hgetall f (place f))
            (value_of N (hash_by_key hgetall c) f)
    unfolding value_of
    value_of-Ended f =
        subst
          (λ (k : Kind).
            Ended N k (text_at c hgetall f (place f))
              (convert N (kind_of f) (get (field_of f) (hash_by_key hgetall c (source_of f)))))
          (typed f)
          (subst
            (λ (t : Option String).
              Ended N (kind_of f) t
                (convert N (kind_of f) (get (field_of f) (hash_by_key hgetall c (source_of f)))))
            (same_text f) (convert-Ended N (kind_of f) _))

  -- Every value is there, or one is not.
  all_convert-cases :
      (h : Hashes) (fs : List Feature)
      → ((all_convert N h fs ≡ true)
          × ((f : Feature) → Among f fs → is_some (value_of N h f) ≡ true))
        ⊎ ((all_convert N h fs ≡ false) × (f : Feature) × (value_of N h f ≡ none))
  all_convert-cases h [] = inl (refl, λ f m. absurd m)
  all_convert-cases h (g ∷ fs) = elim (Option-cases (value_of N h g)) [
    | inl e ↦ inr (rw e refl, g, e)
    | inr (v, e) ↦ elim (all_convert-cases h fs) [
      | inr (not_all, f, e') ↦ inr (rw e not_all, f, e')
      | inl (yes_all, each) ↦ inl (
        rw e yes_all,
        λ f m. elim m [
          | inl q ↦ subst (λ x. is_some (value_of N h x) ≡ true) q (rw e refl)
          | inr later ↦ each f later
        ],
      )
    ]
  ]

  module _ (c : Context) (hgetall : HashKey → Reply) (latency_ms : Float) where
    abbrev built : FeatureSet N
    built = record {
      feature = λ f. get_or (value_of N (by_key c hgetall latency_ms) f) (int_value (pos 0));
      missing = missing_features c (by_key c hgetall latency_ms);
      feature_fetch_latency_ms = latency_ms;
    }

    get_features_lem :
        get_features N c hgetall latency_ms
        ≡ (if all_convert N (by_key c hgetall latency_ms) features then some built else none)
    unfolding get_features build_feature_set
    get_features_lem = rw (hashes_of_results-hash_by_key hgetall c, build_feature_set)

    given : (o : Option (Value Float)) → is_some o ≡ true → o ≡ some (get_or o (int_value (pos 0)))
    given none h = cc
    given (some v) h = refl

    built-Means :
        (f : Feature)
        → is_some (value_of N (by_key c hgetall latency_ms) f) ≡ true
        → Means N (declared f).type (text_at c hgetall f (place f)) (built.feature f)
    built-Means f h =
        subst (Ended N (declared f).type (text_at c hgetall f (place f))) (given _ h)
          (value_of-Ended c hgetall f)

    -- The call returns a set in which every attribute that schema.py declares means the text at the place
    -- that its name and its default say, with zero for an absent or empty text, and with the missing list and
    -- the latency of the round trip; or it raises, and then such a text is no number of the declared type.
    pub get_features-Fetched : Fetched c hgetall latency_ms (get_features N c hgetall latency_ms)
    get_features-Fetched = elim (all_convert-cases (by_key c hgetall latency_ms) features) [
      | inl (yes_all, each) ↦
          subst (Fetched c hgetall latency_ms) (sym (get_features_lem ∙ rw yes_all refl)) (
            fetched
              (λ f. (
                place f,
                built-Means f (each f (mem_by-Among Feature-discrete f features (listed f))),
              ))
              refl refl)
      | inr (not_all, f, e) ↦
          subst (Fetched c hgetall latency_ms) (sym (get_features_lem ∙ rw not_all refl)) (
            raised f (place f) (
              subst (Ended N (declared f).type (text_at c hgetall f (place f))) e
                (value_of-Ended c hgetall f)))
    ]
