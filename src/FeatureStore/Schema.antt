-- ===== src/FeatureStore/Schema.antt =====
-- feature_store/schema.py: the fields of `FeatureSet`, and where `_build_feature_set` of
-- feature_store/client.py takes each from.
use fraud_forecast.Base.{String, List, [], ◌∷◌}
use fraud_forecast.FeatureStore.Keys.{
  Source, user_stream, user_batch, device_stream, device_batch, payment_stream, payment_batch,
  ip_stream, ip_batch, store_stream, store_batch, merchant_batch, email_domain_batch,
  address_stream,
}

pub data Feature : Type 0 where
  user_orders_1h user_orders_24h user_spend_1h_pence user_spend_24h_pence user_unique_stores_24h
        user_unique_payment_methods_24h user_last_order_age_minutes user_lifetime_order_count
        user_lifetime_spend_pence user_avg_order_value_pence user_lifetime_chargeback_count
        user_lifetime_refund_count user_lifetime_chargeback_rate user_unique_devices_used
        user_unique_payment_methods_used user_unique_delivery_addresses user_account_age_days
        user_days_since_last_order user_distinct_cities_ordered_from device_orders_1h
        device_orders_24h device_unique_users_24h device_unique_payment_methods_24h
        device_lifetime_order_count device_lifetime_chargeback_rate device_unique_users_lifetime
        device_first_seen_days_ago device_distinct_payment_methods_lifetime payment_orders_1h
        payment_orders_24h payment_unique_users_24h payment_decline_count_24h
        payment_lifetime_order_count payment_lifetime_chargeback_count
        payment_lifetime_chargeback_rate payment_unique_users_lifetime
        payment_distinct_delivery_addresses_lifetime ip_orders_1h ip_orders_24h ip_unique_users_24h
        ip_unique_devices_24h ip_lifetime_order_count ip_unique_users_lifetime ip_chargeback_rate
        ip_first_seen_days_ago store_orders_1h store_orders_24h store_unique_users_24h
        store_unique_cards_1h store_avg_order_value_pence store_chargeback_rate
        store_unique_cards_30d store_total_orders_30d merchant_chargeback_rate merchant_total_stores
        email_domain_chargeback_rate email_domain_total_orders address_orders_24h
        address_unique_users_24h :
      Feature

-- The hash variable in the call that fills the field.
unfoldable pub source_of : Feature → Source
source_of user_orders_1h = user_stream
source_of user_orders_24h = user_stream
source_of user_spend_1h_pence = user_stream
source_of user_spend_24h_pence = user_stream
source_of user_unique_stores_24h = user_stream
source_of user_unique_payment_methods_24h = user_stream
source_of user_last_order_age_minutes = user_stream
source_of user_lifetime_order_count = user_batch
source_of user_lifetime_spend_pence = user_batch
source_of user_avg_order_value_pence = user_batch
source_of user_lifetime_chargeback_count = user_batch
source_of user_lifetime_refund_count = user_batch
source_of user_lifetime_chargeback_rate = user_batch
source_of user_unique_devices_used = user_batch
source_of user_unique_payment_methods_used = user_batch
source_of user_unique_delivery_addresses = user_batch
source_of user_account_age_days = user_batch
source_of user_days_since_last_order = user_batch
source_of user_distinct_cities_ordered_from = user_batch
source_of device_orders_1h = device_stream
source_of device_orders_24h = device_stream
source_of device_unique_users_24h = device_stream
source_of device_unique_payment_methods_24h = device_stream
source_of device_lifetime_order_count = device_batch
source_of device_lifetime_chargeback_rate = device_batch
source_of device_unique_users_lifetime = device_batch
source_of device_first_seen_days_ago = device_batch
source_of device_distinct_payment_methods_lifetime = device_batch
source_of payment_orders_1h = payment_stream
source_of payment_orders_24h = payment_stream
source_of payment_unique_users_24h = payment_stream
source_of payment_decline_count_24h = payment_stream
source_of payment_lifetime_order_count = payment_batch
source_of payment_lifetime_chargeback_count = payment_batch
source_of payment_lifetime_chargeback_rate = payment_batch
source_of payment_unique_users_lifetime = payment_batch
source_of payment_distinct_delivery_addresses_lifetime = payment_batch
source_of ip_orders_1h = ip_stream
source_of ip_orders_24h = ip_stream
source_of ip_unique_users_24h = ip_stream
source_of ip_unique_devices_24h = ip_stream
source_of ip_lifetime_order_count = ip_batch
source_of ip_unique_users_lifetime = ip_batch
source_of ip_chargeback_rate = ip_batch
source_of ip_first_seen_days_ago = ip_batch
source_of store_orders_1h = store_stream
source_of store_orders_24h = store_stream
source_of store_unique_users_24h = store_stream
source_of store_unique_cards_1h = store_stream
source_of store_avg_order_value_pence = store_batch
source_of store_chargeback_rate = store_batch
source_of store_unique_cards_30d = store_batch
source_of store_total_orders_30d = store_batch
source_of merchant_chargeback_rate = merchant_batch
source_of merchant_total_stores = merchant_batch
source_of email_domain_chargeback_rate = email_domain_batch
source_of email_domain_total_orders = email_domain_batch
source_of address_orders_24h = address_stream
source_of address_unique_users_24h = address_stream

-- The name that it gives to `get`.
unfoldable pub field_of : Feature → String
field_of user_orders_1h = "orders_1h"
field_of user_orders_24h = "orders_24h"
field_of user_spend_1h_pence = "spend_1h_pence"
field_of user_spend_24h_pence = "spend_24h_pence"
field_of user_unique_stores_24h = "unique_stores_24h"
field_of user_unique_payment_methods_24h = "unique_payment_methods_24h"
field_of user_last_order_age_minutes = "last_order_age_minutes"
field_of user_lifetime_order_count = "lifetime_order_count"
field_of user_lifetime_spend_pence = "lifetime_spend_pence"
field_of user_avg_order_value_pence = "avg_order_value_pence"
field_of user_lifetime_chargeback_count = "lifetime_chargeback_count"
field_of user_lifetime_refund_count = "lifetime_refund_count"
field_of user_lifetime_chargeback_rate = "lifetime_chargeback_rate"
field_of user_unique_devices_used = "unique_devices_used"
field_of user_unique_payment_methods_used = "unique_payment_methods_used"
field_of user_unique_delivery_addresses = "unique_delivery_addresses"
field_of user_account_age_days = "account_age_days"
field_of user_days_since_last_order = "days_since_last_order"
field_of user_distinct_cities_ordered_from = "distinct_cities_ordered_from"
field_of device_orders_1h = "orders_1h"
field_of device_orders_24h = "orders_24h"
field_of device_unique_users_24h = "unique_users_24h"
field_of device_unique_payment_methods_24h = "unique_payment_methods_24h"
field_of device_lifetime_order_count = "lifetime_order_count"
field_of device_lifetime_chargeback_rate = "lifetime_chargeback_rate"
field_of device_unique_users_lifetime = "unique_users_lifetime"
field_of device_first_seen_days_ago = "first_seen_days_ago"
field_of device_distinct_payment_methods_lifetime = "distinct_payment_methods_lifetime"
field_of payment_orders_1h = "orders_1h"
field_of payment_orders_24h = "orders_24h"
field_of payment_unique_users_24h = "unique_users_24h"
field_of payment_decline_count_24h = "decline_count_24h"
field_of payment_lifetime_order_count = "lifetime_order_count"
field_of payment_lifetime_chargeback_count = "lifetime_chargeback_count"
field_of payment_lifetime_chargeback_rate = "lifetime_chargeback_rate"
field_of payment_unique_users_lifetime = "unique_users_lifetime"
field_of payment_distinct_delivery_addresses_lifetime = "distinct_delivery_addresses_lifetime"
field_of ip_orders_1h = "orders_1h"
field_of ip_orders_24h = "orders_24h"
field_of ip_unique_users_24h = "unique_users_24h"
field_of ip_unique_devices_24h = "unique_devices_24h"
field_of ip_lifetime_order_count = "lifetime_order_count"
field_of ip_unique_users_lifetime = "unique_users_lifetime"
field_of ip_chargeback_rate = "chargeback_rate"
field_of ip_first_seen_days_ago = "first_seen_days_ago"
field_of store_orders_1h = "orders_1h"
field_of store_orders_24h = "orders_24h"
field_of store_unique_users_24h = "unique_users_24h"
field_of store_unique_cards_1h = "unique_cards_1h"
field_of store_avg_order_value_pence = "avg_order_value_pence"
field_of store_chargeback_rate = "chargeback_rate"
field_of store_unique_cards_30d = "unique_cards_30d"
field_of store_total_orders_30d = "total_orders_30d"
field_of merchant_chargeback_rate = "chargeback_rate"
field_of merchant_total_stores = "total_stores"
field_of email_domain_chargeback_rate = "chargeback_rate"
field_of email_domain_total_orders = "total_orders"
field_of address_orders_24h = "orders_24h"
field_of address_unique_users_24h = "unique_users_24h"

-- `_to_int` or `_to_float`.
pub data Kind : Type 0 where
  int float : Kind

unfoldable pub kind_of : Feature → Kind
kind_of user_lifetime_chargeback_rate = float
kind_of device_lifetime_chargeback_rate = float
kind_of payment_lifetime_chargeback_rate = float
kind_of ip_chargeback_rate = float
kind_of store_chargeback_rate = float
kind_of merchant_chargeback_rate = float
kind_of email_domain_chargeback_rate = float
kind_of _ = int

-- `expected_field_presence`
unfoldable pub expected_fields : Source → List String
expected_fields user_stream =
    "orders_1h" ∷ "orders_24h" ∷ "spend_1h_pence" ∷ "spend_24h_pence" ∷ "unique_stores_24h"
    ∷ "unique_payment_methods_24h" ∷ "last_order_age_minutes" ∷ []
expected_fields user_batch =
    "lifetime_order_count" ∷ "lifetime_spend_pence" ∷ "avg_order_value_pence"
    ∷ "lifetime_chargeback_count" ∷ "lifetime_refund_count" ∷ "lifetime_chargeback_rate"
    ∷ "unique_devices_used" ∷ "unique_payment_methods_used" ∷ "unique_delivery_addresses"
    ∷ "account_age_days" ∷ "days_since_last_order" ∷ "distinct_cities_ordered_from" ∷ []
expected_fields device_stream =
    "orders_1h" ∷ "orders_24h" ∷ "unique_users_24h" ∷ "unique_payment_methods_24h" ∷ []
expected_fields device_batch =
    "lifetime_order_count" ∷ "lifetime_chargeback_rate" ∷ "unique_users_lifetime"
    ∷ "first_seen_days_ago" ∷ "distinct_payment_methods_lifetime" ∷ []
expected_fields payment_stream =
    "orders_1h" ∷ "orders_24h" ∷ "unique_users_24h" ∷ "decline_count_24h" ∷ []
expected_fields payment_batch =
    "lifetime_order_count" ∷ "lifetime_chargeback_count" ∷ "lifetime_chargeback_rate"
    ∷ "unique_users_lifetime" ∷ "distinct_delivery_addresses_lifetime" ∷ []
expected_fields ip_stream =
    "orders_1h" ∷ "orders_24h" ∷ "unique_users_24h" ∷ "unique_devices_24h" ∷ []
expected_fields ip_batch =
    "lifetime_order_count" ∷ "unique_users_lifetime" ∷ "chargeback_rate" ∷ "first_seen_days_ago"
    ∷ []
expected_fields store_stream =
    "orders_1h" ∷ "orders_24h" ∷ "unique_users_24h" ∷ "unique_cards_1h" ∷ []
expected_fields store_batch =
    "avg_order_value_pence" ∷ "chargeback_rate" ∷ "unique_cards_30d" ∷ "total_orders_30d" ∷ []
expected_fields merchant_batch = "chargeback_rate" ∷ "total_stores" ∷ []
expected_fields email_domain_batch = "chargeback_rate" ∷ "total_orders" ∷ []
expected_fields address_stream = "orders_24h" ∷ "unique_users_24h" ∷ []

-- Every field, in the order of the call.
abbrev pub features : List Feature
features =
    user_orders_1h ∷ user_orders_24h ∷ user_spend_1h_pence ∷ user_spend_24h_pence
    ∷ user_unique_stores_24h ∷ user_unique_payment_methods_24h ∷ user_last_order_age_minutes
    ∷ user_lifetime_order_count ∷ user_lifetime_spend_pence ∷ user_avg_order_value_pence
    ∷ user_lifetime_chargeback_count ∷ user_lifetime_refund_count ∷ user_lifetime_chargeback_rate
    ∷ user_unique_devices_used ∷ user_unique_payment_methods_used ∷ user_unique_delivery_addresses
    ∷ user_account_age_days ∷ user_days_since_last_order ∷ user_distinct_cities_ordered_from
    ∷ device_orders_1h ∷ device_orders_24h ∷ device_unique_users_24h
    ∷ device_unique_payment_methods_24h ∷ device_lifetime_order_count
    ∷ device_lifetime_chargeback_rate ∷ device_unique_users_lifetime ∷ device_first_seen_days_ago
    ∷ device_distinct_payment_methods_lifetime ∷ payment_orders_1h ∷ payment_orders_24h
    ∷ payment_unique_users_24h ∷ payment_decline_count_24h ∷ payment_lifetime_order_count
    ∷ payment_lifetime_chargeback_count ∷ payment_lifetime_chargeback_rate
    ∷ payment_unique_users_lifetime ∷ payment_distinct_delivery_addresses_lifetime ∷ ip_orders_1h
    ∷ ip_orders_24h ∷ ip_unique_users_24h ∷ ip_unique_devices_24h ∷ ip_lifetime_order_count
    ∷ ip_unique_users_lifetime ∷ ip_chargeback_rate ∷ ip_first_seen_days_ago ∷ store_orders_1h
    ∷ store_orders_24h ∷ store_unique_users_24h ∷ store_unique_cards_1h
    ∷ store_avg_order_value_pence ∷ store_chargeback_rate ∷ store_unique_cards_30d
    ∷ store_total_orders_30d ∷ merchant_chargeback_rate ∷ merchant_total_stores
    ∷ email_domain_chargeback_rate ∷ email_domain_total_orders ∷ address_orders_24h
    ∷ address_unique_users_24h ∷ []
