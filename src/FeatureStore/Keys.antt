-- ===== src/FeatureStore/Keys.antt =====
-- The Redis keys that feature_store/aggregator.py, batch_compute.py and client.py share. A key is the
-- parts that its f-string joins; an id is the text of the entity's id.
use fraud_forecast.Base.{String, Option}

pub data Entity : Type 0 where
  user device payment ip store merchant email_domain address : Entity

-- "fs:{entity}:{id}:stream" and "fs:{entity}:{id}:batch"
pub data Part : Type 0 where
  stream batch : Part

pub record HashKey : Type 0 where
  pub entity : Entity
  pub id : String
  pub part : Part

-- The ids of an order that a client is asked about; three of them may be None.
pub record Context : Type 0 where
  pub user_id : String
  pub device_id : Option String
  pub payment_method_id : Option String
  pub ip_address : String
  pub store_id : String
  pub merchant_id : String
  pub delivery_address_id : Option String
  pub email_domain : String

-- The hashes that a client reads for an order.
pub data Source : Type 0 where
  user_stream user_batch device_stream device_batch payment_stream payment_batch ip_stream ip_batch
        store_stream store_batch merchant_batch email_domain_batch address_stream :
      Source
