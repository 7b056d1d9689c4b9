-- ===== src/FeatureStore/Client.antt =====
-- feature_store/client.py: one round trip for the hashes of an order, and the `FeatureSet` built from
-- the replies by position. A hash is its fields with their texts. `int(text)` and `float(text)` are
-- arguments; `none` is their ValueError.
use fraud_forecast.Base.{
  ℕ, suc, Option, none, some, List, [], ◌∷◌, ◌++◌, get_elem?, String, if◌then◌else◌,
}
use fraud_forecast.FeatureStore.Keys.{
  Entity, user, device, payment, ip, store, merchant, email_domain, address, stream, batch, HashKey,
  Context, Source, user_stream, user_batch, device_stream, device_batch, payment_stream,
  payment_batch, ip_stream, ip_batch, store_stream, store_batch, merchant_batch, email_domain_batch,
  address_stream,
}
use text.Mathlib.Text.{◌==◌ as str_eq}

abbrev pub Hash : Type 0
Hash = List (String × String)

-- `payload.get(name)`
abbrev pub get : String → Hash → Option String
get name [] = none
get name ((n, v) ∷ h) = if str_eq n name then some v else get name h

-- What a pipeline gives for one command: a dict, or something else.
pub data Reply : Type 0 where
  hash : Hash → Reply
  other : Reply

abbrev pub key : Entity → String → HashKey
key e i = record { entity = e; id = i; part = stream }

abbrev pub batch_key : Entity → String → HashKey
batch_key e i = record { entity = e; id = i; part = batch }

-- The commands that two hashes of an optional entity add to the pipeline.
abbrev both : Entity → Option String → List HashKey
both e none = []
both e (some i) = key e i ∷ batch_key e i ∷ []

abbrev only_stream : Entity → Option String → List HashKey
only_stream e none = []
only_stream e (some i) = key e i ∷ []

-- The `hgetall` calls of `get_features`, in order.
unfoldable pub pipeline_keys : Context → List HashKey
pipeline_keys c =
    (key user c.user_id ∷ batch_key user c.user_id ∷ [])
    ++ (both device c.device_id
        ++ (both payment c.payment_method_id
            ++ (key ip c.ip_address
                ∷ batch_key ip c.ip_address
                ∷ key store c.store_id
                ∷ batch_key store c.store_id
                ∷ batch_key merchant c.merchant_id
                ∷ batch_key email_domain c.email_domain
                ∷ only_stream address c.delivery_address_id)))

-- `raw if isinstance(raw, dict) else {}`
abbrev pub dict_of : Reply → Hash
dict_of (hash h) = h
dict_of other = []

-- `_result_hash(index)`; `none` is an IndexError.
unfoldable pub result_hash : List Reply → ℕ → Option Hash
result_hash results index = elim (get_elem? results index) [
  | none ↦ none
  | some raw ↦ some (dict_of raw)
]

-- The statements between `idx = 0` and the last read: each takes a hash at the index and moves it on.
abbrev pub Reading : Type 0 → Type 0
Reading A = List Reply → ℕ → Option (A × ℕ)

infixl 5 ◌>>=◌
abbrev pub ◌>>=◌ : {A B : Type 0} → Reading A → (A → Reading B) → Reading B
◌>>=◌ m f results idx = elim (m results idx) [ none ↦ none | some (a, idx') ↦ f a results idx' ]

abbrev next_hash : Reading Hash
unfolding result_hash
next_hash results idx = elim (result_hash results idx) [ none ↦ none | some h ↦ some (h, suc idx) ]

-- `{}` with the index left alone, where the id is None.
abbrev next_if : Option String → Reading Hash
next_if none results idx = some ([], idx)
next_if (some _) results idx = next_hash results idx

abbrev give : {A : Type 0} → A → Reading A
give a results idx = some (a, idx)

abbrev pub Hashes : Type 0
Hashes = Source → Hash

abbrev pub hashes :
    Hash
    → Hash
    → Hash
    → Hash
    → Hash
    → Hash
    → Hash
    → Hash
    → Hash
    → Hash
    → Hash
    → Hash
    → Hash
    → Hashes
hashes us ub ds db ps pb is ib ss sb mb eb as' user_stream = us
hashes us ub ds db ps pb is ib ss sb mb eb as' user_batch = ub
hashes us ub ds db ps pb is ib ss sb mb eb as' device_stream = ds
hashes us ub ds db ps pb is ib ss sb mb eb as' device_batch = db
hashes us ub ds db ps pb is ib ss sb mb eb as' payment_stream = ps
hashes us ub ds db ps pb is ib ss sb mb eb as' payment_batch = pb
hashes us ub ds db ps pb is ib ss sb mb eb as' ip_stream = is
hashes us ub ds db ps pb is ib ss sb mb eb as' ip_batch = ib
hashes us ub ds db ps pb is ib ss sb mb eb as' store_stream = ss
hashes us ub ds db ps pb is ib ss sb mb eb as' store_batch = sb
hashes us ub ds db ps pb is ib ss sb mb eb as' merchant_batch = mb
hashes us ub ds db ps pb is ib ss sb mb eb as' email_domain_batch = eb
hashes us ub ds db ps pb is ib ss sb mb eb as' address_stream = as'

read_hashes : Context → Reading Hashes
unfolding result_hash
read_hashes c = do
  us ← next_hash
  ub ← next_hash
  ds ← next_if c.device_id
  db ← next_if c.device_id
  ps ← next_if c.payment_method_id
  pb ← next_if c.payment_method_id
  is ← next_hash
  ib ← next_hash
  ss ← next_hash
  sb ← next_hash
  mb ← next_hash
  eb ← next_hash
  as' ← next_if c.delivery_address_id
  give (hashes us ub ds db ps pb is ib ss sb mb eb as')

-- The hashes by position, from the first index.
unfoldable pub hashes_of_results : Context → List Reply → Option Hashes
unfolding read_hashes
hashes_of_results c results = elim (read_hashes c results 0) [ none ↦ none | some (h, _) ↦ some h ]
