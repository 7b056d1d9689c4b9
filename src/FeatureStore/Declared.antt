-- ===== src/FeatureStore/Declared.antt =====
-- feature_store/schema.py: what the class `FeatureSet` declares of each of its features.
use fraud_forecast.Base.{String, Bool, true, false}
use fraud_forecast.FeatureStore.Schema.{
  Feature, Kind, int, float, user_orders_1h, user_orders_24h, user_spend_1h_pence,
  user_spend_24h_pence, user_unique_stores_24h, user_unique_payment_methods_24h,
  user_last_order_age_minutes, user_lifetime_order_count, user_lifetime_spend_pence,
  user_avg_order_value_pence, user_lifetime_chargeback_count, user_lifetime_refund_count,
  user_lifetime_chargeback_rate, user_unique_devices_used, user_unique_payment_methods_used,
  user_unique_delivery_addresses, user_account_age_days, user_days_since_last_order,
  user_distinct_cities_ordered_from, device_orders_1h, device_orders_24h, device_unique_users_24h,
  device_unique_payment_methods_24h, device_lifetime_order_count, device_lifetime_chargeback_rate,
  device_unique_users_lifetime, device_first_seen_days_ago,
  device_distinct_payment_methods_lifetime, payment_orders_1h, payment_orders_24h,
  payment_unique_users_24h, payment_decline_count_24h, payment_lifetime_order_count,
  payment_lifetime_chargeback_count, payment_lifetime_chargeback_rate,
  payment_unique_users_lifetime, payment_distinct_delivery_addresses_lifetime, ip_orders_1h,
  ip_orders_24h, ip_unique_users_24h, ip_unique_devices_24h, ip_lifetime_order_count,
  ip_unique_users_lifetime, ip_chargeback_rate, ip_first_seen_days_ago, store_orders_1h,
  store_orders_24h, store_unique_users_24h, store_unique_cards_1h, store_avg_order_value_pence,
  store_chargeback_rate, store_unique_cards_30d, store_total_orders_30d, merchant_chargeback_rate,
  merchant_total_stores, email_domain_chargeback_rate, email_domain_total_orders,
  address_orders_24h, address_unique_users_24h,
}

-- An attribute: its name, its type, and whether it is `| None`, which the batch fields are.
pub record Declaration : Type 0 where
  pub name : String
  pub type : Kind
  pub optional : Bool

abbrev streaming_int : String → Declaration
streaming_int name = record { name = name; type = int; optional = false }

abbrev batch_int : String → Declaration
batch_int name = record { name = name; type = int; optional = true }

abbrev batch_float : String → Declaration
batch_float name = record { name = name; type = float; optional = true }

unfoldable pub declared : Feature → Declaration
declared user_orders_1h = streaming_int "user_orders_1h"
declared user_orders_24h = streaming_int "user_orders_24h"
declared user_spend_1h_pence = streaming_int "user_spend_1h_pence"
declared user_spend_24h_pence = streaming_int "user_spend_24h_pence"
declared user_unique_stores_24h = streaming_int "user_unique_stores_24h"
declared user_unique_payment_methods_24h = streaming_int "user_unique_payment_methods_24h"
declared user_last_order_age_minutes = streaming_int "user_last_order_age_minutes"
declared user_lifetime_order_count = batch_int "user_lifetime_order_count"
declared user_lifetime_spend_pence = batch_int "user_lifetime_spend_pence"
declared user_avg_order_value_pence = batch_int "user_avg_order_value_pence"
declared user_lifetime_chargeback_count = batch_int "user_lifetime_chargeback_count"
declared user_lifetime_refund_count = batch_int "user_lifetime_refund_count"
declared user_lifetime_chargeback_rate = batch_float "user_lifetime_chargeback_rate"
declared user_unique_devices_used = batch_int "user_unique_devices_used"
declared user_unique_payment_methods_used = batch_int "user_unique_payment_methods_used"
declared user_unique_delivery_addresses = batch_int "user_unique_delivery_addresses"
declared user_account_age_days = batch_int "user_account_age_days"
declared user_days_since_last_order = batch_int "user_days_since_last_order"
declared user_distinct_cities_ordered_from = batch_int "user_distinct_cities_ordered_from"
declared device_orders_1h = streaming_int "device_orders_1h"
declared device_orders_24h = streaming_int "device_orders_24h"
declared device_unique_users_24h = streaming_int "device_unique_users_24h"
declared device_unique_payment_methods_24h = streaming_int "device_unique_payment_methods_24h"
declared device_lifetime_order_count = batch_int "device_lifetime_order_count"
declared device_lifetime_chargeback_rate = batch_float "device_lifetime_chargeback_rate"
declared device_unique_users_lifetime = batch_int "device_unique_users_lifetime"
declared device_first_seen_days_ago = batch_int "device_first_seen_days_ago"
declared device_distinct_payment_methods_lifetime =
    batch_int "device_distinct_payment_methods_lifetime"
declared payment_orders_1h = streaming_int "payment_orders_1h"
declared payment_orders_24h = streaming_int "payment_orders_24h"
declared payment_unique_users_24h = streaming_int "payment_unique_users_24h"
declared payment_decline_count_24h = streaming_int "payment_decline_count_24h"
declared payment_lifetime_order_count = batch_int "payment_lifetime_order_count"
declared payment_lifetime_chargeback_count = batch_int "payment_lifetime_chargeback_count"
declared payment_lifetime_chargeback_rate = batch_float "payment_lifetime_chargeback_rate"
declared payment_unique_users_lifetime = batch_int "payment_unique_users_lifetime"
declared payment_distinct_delivery_addresses_lifetime =
    batch_int "payment_distinct_delivery_addresses_lifetime"
declared ip_orders_1h = streaming_int "ip_orders_1h"
declared ip_orders_24h = streaming_int "ip_orders_24h"
declared ip_unique_users_24h = streaming_int "ip_unique_users_24h"
declared ip_unique_devices_24h = streaming_int "ip_unique_devices_24h"
declared ip_lifetime_order_count = batch_int "ip_lifetime_order_count"
declared ip_unique_users_lifetime = batch_int "ip_unique_users_lifetime"
declared ip_chargeback_rate = batch_float "ip_chargeback_rate"
declared ip_first_seen_days_ago = batch_int "ip_first_seen_days_ago"
declared store_orders_1h = streaming_int "store_orders_1h"
declared store_orders_24h = streaming_int "store_orders_24h"
declared store_unique_users_24h = streaming_int "store_unique_users_24h"
declared store_unique_cards_1h = streaming_int "store_unique_cards_1h"
declared store_avg_order_value_pence = batch_int "store_avg_order_value_pence"
declared store_chargeback_rate = batch_float "store_chargeback_rate"
declared store_unique_cards_30d = batch_int "store_unique_cards_30d"
declared store_total_orders_30d = batch_int "store_total_orders_30d"
declared merchant_chargeback_rate = batch_float "merchant_chargeback_rate"
declared merchant_total_stores = batch_int "merchant_total_stores"
declared email_domain_chargeback_rate = batch_float "email_domain_chargeback_rate"
declared email_domain_total_orders = batch_int "email_domain_total_orders"
declared address_orders_24h = streaming_int "address_orders_24h"
declared address_unique_users_24h = streaming_int "address_unique_users_24h"
