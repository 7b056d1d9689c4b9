-- ===== src/FeatureStore/Build.antt =====
-- The rest of feature_store/client.py: `missing_features`, the `FeatureSet`, `get_features` and the
-- three small readers of the asynchronous client.
use fraud_forecast.Base.{
  Bool, true, false, ◌&&◌, Option, none, some, is_some, get_or, List, [], ◌∷◌, ◌++◌, flat_map, map,
  String, if◌then◌else◌,
}
use fraud_forecast.Base.Int.{ℤ, pos}
use fraud_forecast.FeatureStore.Keys.{
  user, device, payment, ip, store, merchant, email_domain, address, HashKey, Context, Source,
  user_stream, user_batch, device_stream, device_batch, payment_stream, payment_batch, ip_stream,
  ip_batch, store_stream, store_batch, merchant_batch, email_domain_batch, address_stream,
}
use fraud_forecast.FeatureStore.Schema.{
  Feature, source_of, field_of, Kind, int, float, kind_of, expected_fields, features,
}
use fraud_forecast.FeatureStore.Client.{
  Hash, Hashes, Reply, get, key, batch_key, pipeline_keys, hashes_of_results,
}
use text.Mathlib.Text.{◌==◌ as str_eq}

-- The key variables: `user_stream_key` and the rest.
abbrev pub key_of : Context → Source → Option HashKey
key_of c user_stream = some (key user c.user_id)
key_of c user_batch = some (batch_key user c.user_id)
key_of c device_stream = elim c.device_id [ none ↦ none | some i ↦ some (key device i) ]
key_of c device_batch = elim c.device_id [ none ↦ none | some i ↦ some (batch_key device i) ]
key_of c payment_stream = elim c.payment_method_id [ none ↦ none | some i ↦ some (key payment i) ]
key_of c payment_batch = elim c.payment_method_id [
  | none ↦ none
  | some i ↦ some (batch_key payment i)
]
key_of c ip_stream = some (key ip c.ip_address)
key_of c ip_batch = some (batch_key ip c.ip_address)
key_of c store_stream = some (key store c.store_id)
key_of c store_batch = some (batch_key store c.store_id)
key_of c merchant_batch = some (batch_key merchant c.merchant_id)
key_of c email_domain_batch = some (batch_key email_domain c.email_domain)
key_of c address_stream = elim c.delivery_address_id [ none ↦ none | some i ↦ some (key address i) ]

-- The order of both tables.
abbrev pub sources : List Source
sources =
    user_stream ∷ user_batch ∷ device_stream ∷ device_batch ∷ payment_stream ∷ payment_batch
    ∷ ip_stream ∷ ip_batch ∷ store_stream ∷ store_batch ∷ merchant_batch ∷ email_domain_batch
    ∷ address_stream ∷ []

-- An entry of `missing_features`: a key, or "{key}:{field}".
pub data Missing : Type 0 where
  missing_key : HashKey → Missing
  missing_field : HashKey → String → Missing

-- `payload == {}`
abbrev pub is_empty : Hash → Bool
is_empty [] = true
is_empty (_ ∷ _) = false

-- `value in ("", None)`
abbrev pub is_blank : Option String → Bool
is_blank none = true
is_blank (some v) = str_eq v ""

abbrev pub blank_fields : HashKey → Hash → List String → List Missing
blank_fields k h [] = []
blank_fields k h (f ∷ fs) =
    if is_blank (get f h) then missing_field k f ∷ blank_fields k h fs else blank_fields k h fs

module _ (c : Context) (h : Hashes) where
  -- The body of the first loop, and of the second.
  unfoldable pub missing_keys_of : Source → List Missing
  missing_keys_of s = elim (key_of c s) [
    | none ↦ []
    | some k ↦ if is_empty (h s) then missing_key k ∷ [] else []
  ]

  unfoldable pub missing_fields_of : Source → List Missing
  missing_fields_of s = elim (key_of c s) [
    | none ↦ []
    | some k ↦ if is_empty (h s) then [] else blank_fields k (h s) (expected_fields s)
  ]

  unfoldable pub missing_features : List Missing
  missing_features = flat_map missing_keys_of sources ++ flat_map missing_fields_of sources

-- `int(text)` and `float(text)`; `none` is a ValueError.
pub record Numerals : Type 1 where
  pub Float : Type 0
  pub zero_float : Float
  pub int_of : String → Option ℤ
  pub float_of : String → Option Float

pub data Value (Float : Type 0) : Type 0 where
  int_value : ℤ → Value Float
  float_value : Float → Value Float

module _ (N : Numerals) where
  open N use {Float, zero_float, int_of, float_of}

  -- `_to_int` and `_to_float`, on what `get` gives.
  unfoldable pub to_int : Option String → Option ℤ
  to_int val = if is_blank val then some (pos 0) else int_of (get_or val "")

  unfoldable pub to_float : Option String → Option Float
  to_float val = if is_blank val then some zero_float else float_of (get_or val "")

  unfoldable pub convert : Kind → Option String → Option (Value Float)
  convert int val = elim (to_int val) [ none ↦ none | some n ↦ some (int_value n) ]
  convert float val = elim (to_float val) [ none ↦ none | some x ↦ some (float_value x) ]

  pub record FeatureSet : Type 0 where
    pub feature : Feature → Value Float
    pub missing : List Missing
    pub feature_fetch_latency_ms : Float

  -- One argument of the `FeatureSet(…)` call.
  unfoldable pub value_of : Hashes → Feature → Option (Value Float)
  value_of h f = convert (kind_of f) (get (field_of f) (h (source_of f)))

  abbrev pub all_convert : Hashes → List Feature → Bool
  all_convert h [] = true
  all_convert h (f ∷ fs) = is_some (value_of h f) && all_convert h fs

  -- `_build_feature_set`: a text that is no number raises, whichever field holds it.
  unfoldable pub build_feature_set : Context → List Reply → Float → Option FeatureSet
  build_feature_set c results latency_ms = elim (hashes_of_results c results) [
    | none ↦ none
    | some h ↦
        if all_convert h features
        then some (record {
          feature = λ f. get_or (value_of h f) (int_value (pos 0));
          missing = missing_features c h;
          feature_fetch_latency_ms = latency_ms;
        })
        else none
  ]

  -- `get_features`, over what `hgetall` gives for each key.
  unfoldable pub get_features : Context → (HashKey → Reply) → Float → Option FeatureSet
  get_features c hgetall latency_ms = build_feature_set c (map hgetall (pipeline_keys c)) latency_ms
