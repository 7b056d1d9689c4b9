-- ===== src/FeatureStore/Aggregator/Tests.antt =====
-- Runs of the aggregator over Redis in memory.
use fraud_forecast.Base.{
  inl, ℕ, ◌+◌, ◌≡◌, refl, true, some, none, Option, [], ◌∷◌, ◌++◌, String, arith,
}
use fraud_forecast.Base.Int.{ℤ, pos, ◌+ℤ◌}
use fraud_forecast.FeatureStore.Keys.{user}
use fraud_forecast.FeatureStore.Client.{key}
use fraud_forecast.FeatureStore.Aggregator.Redis.{spend_24h_pence, Field-discrete}
use fraud_forecast.FeatureStore.Aggregator.Streams.{
  OrderContext, write_user_stream_aggregates, refresh_user_stream_aggregates,
}
use fraud_forecast.FeatureStore.Aggregator.Update.{
  uuid, text, null, Row, coerce_order_context, update_features_for_order, was_order_processed,
  run_backup_poll_once,
}
use fraud_forecast.FeatureStore.Aggregator.KeyText.{
  fs_prefix, strip_prefix, strip_suffix, extract_entity_from_zset_key,
  extract_entity_from_zset_key-append,
}
use fraud_forecast.FeatureStore.Aggregator.Memory.{
  Store, memory, memory_laws, String-discrete, ZsetKey-discrete, HashKey-discrete,
}
use fraud_forecast.FeatureStore.Aggregator.InStep.{InStep, update_features_for_order-InStep}
use fraud_forecast.FeatureStore.Aggregator.Redelivery.{
  Windows, write_user_stream_aggregates-Windows, write_user_stream_aggregates_redelivered,
}
use fraud_forecast.FeatureStore.Aggregator.Polls.{
  begin, handled, between, run_backup_poll_once-Handled,
}
use fraud_forecast.FeatureStore.Aggregator.Dedupe.{
  Updates, update_features_for_order-Updates, update_features_for_order_keeps,
  update_features_for_order-was_order_processed,
}

abbrev empty : Store
empty = record {
  zsets = λ z. [];
  hashes = λ k f. none;
  buckets = λ b. record { holds = []; deadline = none };
}

abbrev row : Row
row = record {
  order_id = uuid "o1";
  user_id = text "u1";
  store_id = uuid "s1";
  merchant_id = uuid "m1";
  device_id = null;
  ip_address = "10.0.0.1";
  payment_method_id = uuid "p1";
  delivery_address_id = null;
  total_pence = pos 1250;
  placed_at = some 1_700_000_000;
  user_email_domain = "example.com";
}

abbrev order : OrderContext
order = record {
  order_id = "o1";
  user_id = "u1";
  store_id = "s1";
  merchant_id = "m1";
  device_id = none;
  ip_address = "10.0.0.1";
  payment_method_id = some "p1";
  delivery_address_id = none;
  total_pence = pos 1250;
  placed_at_ts = 1_700_000_000;
  user_email_domain = "example.com";
}

abbrev no_int : String → Option ℤ
no_int s = none

abbrev as_it_is : String → Option String
as_it_is s = some s

abbrev rows : String → Option Row
rows s = some row

abbrev now : ℕ
now = 1_700_000_005

spend_of_two :
    memory.hget (key user "u1") spend_24h_pence (
      write_user_stream_aggregates memory no_int order
        (now + 5)
        (write_user_stream_aggregates memory no_int order now empty))
    ≡ some (pos 1250)
unfolding write_user_stream_aggregates refresh_user_stream_aggregates Field-discrete String-discrete
    ZsetKey-discrete HashKey-discrete ◌+ℤ◌
spend_of_two = refl

coerced : coerce_order_context as_it_is row ≡ some order
unfolding coerce_order_context
coerced = refl

update_features_for_order-InStep_example :
    ((update_features_for_order memory no_int as_it_is rows "o1" now now empty).0 ≡ some true)
    × InStep memory memory_laws no_int order now
        (update_features_for_order memory no_int as_it_is rows "o1" now now empty).1
update_features_for_order-InStep_example =
    update_features_for_order-InStep memory memory_laws no_int as_it_is rows row order "o1" now now
      empty refl coerced

write_user_stream_aggregates-Windows_example :
    Windows memory memory_laws no_int order now empty
      (write_user_stream_aggregates memory no_int order now empty)
write_user_stream_aggregates-Windows_example =
    write_user_stream_aggregates-Windows memory memory_laws no_int order now empty

write_user_stream_aggregates_redelivered_example :
    Windows memory memory_laws no_int order (now + 5) empty (
      write_user_stream_aggregates memory no_int order
        (now + 5)
        (write_user_stream_aggregates memory no_int order now empty))
write_user_stream_aggregates_redelivered_example =
    write_user_stream_aggregates_redelivered memory memory_laws no_int order now (now + 5) empty

how_it_ends :
    Updates memory memory_laws no_int as_it_is rows "o1" now now empty
      (update_features_for_order memory no_int as_it_is rows "o1" now now empty)
how_it_ends =
    update_features_for_order-Updates memory memory_laws no_int as_it_is rows "o1" now now empty

update_features_for_order-was_order_processed_example :
    was_order_processed memory "o1"
      (now + 60)
      (update_features_for_order memory no_int as_it_is rows "o1" now now empty).1
    ≡ true
update_features_for_order-was_order_processed_example =
    update_features_for_order-was_order_processed memory memory_laws no_int as_it_is rows "o1" now
      now (now + 60) empty update_features_for_order-InStep_example.0 (omega arith) (omega arith)

run_backup_poll_once-Handled_example :
    let handled_one =
      (update_features_for_order memory no_int as_it_is rows "o1" now now empty).1 in
    let db =
      (update_features_for_order memory no_int as_it_is rows "o2" now (now + 5) handled_one).1 in
    run_backup_poll_once memory no_int as_it_is rows
      (λ a b. row ∷ [])
      (λ s. (now, now))
      (now + 20)
      (db, 3)
    ≡ (true, db, 3)
run_backup_poll_once-Handled_example =
    run_backup_poll_once-Handled memory memory_laws no_int as_it_is rows (λ a b. row ∷ [])
      (λ s. (now, now)) (now + 20) empty _ ("o1" ∷ []) 3
      (between "o2" now (now + 5)
        (handled "o1" now now begin update_features_for_order-InStep_example.0 (omega arith)
          (omega arith))
        (omega arith) (omega arith))
      (("o1", refl, inl refl), tt)

-- An IPv6 address keeps its colons.
ip_key :
    extract_entity_from_zset_key
      (b'f' ∷ b's' ∷ b':' ∷ b'i' ∷ b'p' ∷ b':' ∷ b':' ∷ b'1' ∷ b'_' ∷ [])
      (b'_' ∷ [])
    ≡ some (b'i' ∷ b'p' ∷ [], b':' ∷ b'1' ∷ [])
unfolding extract_entity_from_zset_key strip_prefix strip_suffix
ip_key = refl

extract_entity_from_zset_key-append_example :
    extract_entity_from_zset_key
      (fs_prefix ++ (((b'i' ∷ b'p' ∷ []) ++ b':' ∷ b':' ∷ b'1' ∷ []) ++ b'_' ∷ []))
      (b'_' ∷ [])
    ≡ some (b'i' ∷ b'p' ∷ [], b':' ∷ b'1' ∷ [])
extract_entity_from_zset_key-append_example =
    extract_entity_from_zset_key-append (b'i' ∷ b'p' ∷ []) b':' (b'1' ∷ []) b'_' []
      ((λ e. absurd (omega arith)), ((λ e. absurd (omega arith)), tt))

update_features_for_order_keeps_example :
    was_order_processed memory "o1"
      (now + 60)
      (update_features_for_order memory no_int as_it_is rows "o2"
        (now + 1)
        (now + 2)
        (update_features_for_order memory no_int as_it_is rows "o1" now now empty).1).1
    ≡ true
update_features_for_order_keeps_example =
    update_features_for_order_keeps memory memory_laws no_int as_it_is rows "o2" "o1" (now + 1)
      (now + 2) (now + 60)
      (update_features_for_order memory no_int as_it_is rows "o1" now now empty).1 (omega arith)
      (omega arith) update_features_for_order-was_order_processed_example
