-- ===== src/FeatureStore/Tests.antt =====
-- Runs of the feature store.
use fraud_forecast.Base.{ℕ, ◌≡◌, refl, inl, inr, ◌⊎◌, true, false, none, some, [], ◌∷◌, map, Among}
use fraud_forecast.Base.Int.{pos}
use fraud_forecast.FeatureStore.Keys.{Entity, user, Part, HashKey, Context, user_stream}
use fraud_forecast.FeatureStore.Schema.{
  user_orders_1h, user_spend_1h_pence, source_of, field_of, kind_of, expected_fields,
}
use fraud_forecast.FeatureStore.Client.{
  Reply, hash, key, pipeline_keys, hashes_of_results, result_hash,
}
use fraud_forecast.FeatureStore.Build.{
  missing_key, missing_field, is_empty, missing_features, missing_keys_of, missing_fields_of,
  Numerals, int_value, value_of, convert, to_int, to_float, build_feature_set, get_features,
}
use fraud_forecast.FeatureStore.Decoding.{hash_by_key, hashes_of_results-hash_by_key}
use fraud_forecast.FeatureStore.Missing.{
  Explains, missing_features_complete, missing_features-Explains,
}
use fraud_forecast.FeatureStore.Reading.{Fetched, get_features-Fetched}
use text.Mathlib.Text.{◌==◌ as str_eq}

abbrev context : Context
context = record {
  user_id = "u";
  device_id = none;
  payment_method_id = some "p";
  ip_address = "1.2.3.4";
  store_id = "s";
  merchant_id = "m";
  delivery_address_id = none;
  email_domain = "x.uk";
}

-- One user hash, with two orders and a blank spend; nothing else is stored.
abbrev stored : HashKey → Reply
stored (record_key) = elim record_key.entity [
  | Entity.user ↦ elim record_key.part [
    | Part.stream ↦ hash (("orders_1h", "2") ∷ ("spend_1h_pence", "") ∷ [])
    | _ ↦ hash []
  ]
  | _ ↦ hash []
]

abbrev numerals : Numerals
numerals = record {
  Float = ℕ;
  zero_float = 0;
  int_of = λ s. elim (str_eq s "2") [ true ↦ some (pos 2) | _ ↦ some (pos 7) ];
  float_of = λ s. some 0;
}

program : Unit {0}
unfolding get_features build_feature_set hashes_of_results result_hash pipeline_keys value_of
    convert to_int to_float kind_of field_of source_of missing_features missing_keys_of
    missing_fields_of expected_fields
program = tt

orders_1h : value_of numerals (hash_by_key stored context) user_orders_1h ≡ some (int_value (pos 2))
unfolding program
orders_1h = refl

get_features-Fetched_example :
    Fetched numerals context stored 3 (get_features numerals context stored 3)
get_features-Fetched_example = get_features-Fetched numerals context stored 3

hashes_of_results-hash_by_key_example :
    hashes_of_results context (map stored (pipeline_keys context))
    ≡ some (hash_by_key stored context)
hashes_of_results-hash_by_key_example = hashes_of_results-hash_by_key stored context

missing_features_complete_example :
    (Among (missing_key (key user "u")) (missing_features context (hash_by_key stored context))
      × (is_empty (hash_by_key stored context user_stream) ≡ true))
    ⊎ (Among
          (missing_field (key user "u") "spend_1h_pence")
          (missing_features context (hash_by_key stored context))
        × (is_empty (hash_by_key stored context user_stream) ≡ false))
unfolding program
missing_features_complete_example =
    missing_features_complete context (hash_by_key stored context) user_spend_1h_pence refl refl

missing_features-Explains_example :
    Explains context (hash_by_key stored context) (missing_field (key user "u") "spend_24h_pence")
unfolding program
missing_features-Explains_example =
    missing_features-Explains context (hash_by_key stored context)
      (missing_field (key user "u") "spend_24h_pence")
      (inr (inr (inr (inr (inr (inr (inr (inr (inr (inr (inr (inl refl))))))))))))
