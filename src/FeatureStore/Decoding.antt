-- ===== src/FeatureStore/Decoding.antt =====
-- The replies that feature_store/client.py takes by position are those of the keys that it names.
use fraud_forecast.Base.{◌≡◌, refl, ap, ◌∙◌, Option, none, some, List, map, String}
use fraud_forecast.FeatureStore.Keys.{
  HashKey, Context, Source, user_stream, user_batch, device_stream, device_batch, payment_stream,
  payment_batch, ip_stream, ip_batch, store_stream, store_batch, merchant_batch, email_domain_batch,
  address_stream,
}
use fraud_forecast.FeatureStore.Client.{
  Hashes, hashes, Reply, dict_of, pipeline_keys, hashes_of_results,
}
use fraud_forecast.FeatureStore.Build.{key_of}
use mathlib.Core.Path.{fun_ext}

module _ (hgetall : HashKey → Reply) where
  -- The hash of a source, read by its key; nothing where the id is None.
  abbrev pub hash_by_key : Context → Hashes
  hash_by_key c s = elim (key_of c s) [ none ↦ List.[] | some k ↦ dict_of (hgetall k) ]

  abbrev with_ids : Context → (device payment address : Option String) → Context
  with_ids c device payment address = record c {
    device_id = device;
    payment_method_id = payment;
    delivery_address_id = address;
  }

  gathered : Context → Hashes
  gathered c =
      let at = hash_by_key c in
      hashes (at user_stream) (at user_batch) (at device_stream) (at device_batch)
        (at payment_stream) (at payment_batch) (at ip_stream) (at ip_batch) (at store_stream)
        (at store_batch) (at merchant_batch) (at email_domain_batch) (at address_stream)

  gathered-hash_by_key : (c : Context) (s : Source) → gathered c s ≡ hash_by_key c s
  unfolding gathered
  gathered-hash_by_key c user_stream = refl
  gathered-hash_by_key c _ = refl

  -- With each id given or None, the positions are those of the keys.
  gathered_by_position :
      (c : Context) (device payment address : Option String)
      → let c' = with_ids c device payment address in
        hashes_of_results c' (map hgetall (pipeline_keys c')) ≡ some (gathered c')
  unfolding hashes_of_results pipeline_keys gathered
  gathered_by_position c none none none = refl
  gathered_by_position c none none (some k) = refl
  gathered_by_position c none (some j) none = refl
  gathered_by_position c none (some j) (some k) = refl
  gathered_by_position c (some i) none none = refl
  gathered_by_position c (some i) none (some k) = refl
  gathered_by_position c (some i) (some j) none = refl
  gathered_by_position c (some i) (some j) (some k) = refl

  -- For every order context, whichever of the three optional ids are given, the hash that the client
  -- takes by position for a source is the one stored under that source's key, and the empty hash where
  -- the id is None; no position is out of range.
  pub hashes_of_results-hash_by_key :
      (c : Context) → hashes_of_results c (map hgetall (pipeline_keys c)) ≡ some (hash_by_key c)
  hashes_of_results-hash_by_key c =
      gathered_by_position c c.device_id c.payment_method_id c.delivery_address_id
      ∙ ap some (fun_ext (gathered-hash_by_key c))
