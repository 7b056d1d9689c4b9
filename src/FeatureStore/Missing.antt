-- ===== src/FeatureStore/Missing.antt =====
-- What a `FeatureSet` of feature_store/client.py says of the hashes that it was read from.
use fraud_forecast.Base.{
  ◌≡◌, refl, sym, subst, ap, Bool, true, false, ◌⊎◌, inl, inr, Option, none, some, List, [], ◌∷◌,
  String, mem_by, mem_by-Among, Among, flat_map, Among-flat_map, flat_map-Among, Among-append,
  Among-append_left, Among-append_right, if◌then◌else◌, Bool-cases,
}
use fraud_forecast.FeatureStore.Keys.{HashKey, Context, Source, user_stream}
use fraud_forecast.FeatureStore.Schema.{
  Feature, features, user_orders_1h, source_of, field_of, expected_fields,
}
use fraud_forecast.FeatureStore.Client.{Hash, Hashes, get}
use fraud_forecast.FeatureStore.Build.{
  key_of, sources, Missing, missing_key, missing_field, is_empty, is_blank, blank_fields,
  missing_keys_of, missing_fields_of, missing_features,
}
use text.Mathlib.Text.{◌==◌ as str_eq}
use text.Mathlib.TextEquality.{eq_iff}

pub Feature-discrete : Discrete Feature
Feature-discrete = hlevel

Source-discrete : Discrete Source
Source-discrete = hlevel

pub listed : (f : Feature) → mem_by Feature-discrete f features ≡ true
unfolding Feature-discrete
listed user_orders_1h = refl
listed _ = refl

source_listed : (s : Source) → mem_by Source-discrete s sources ≡ true
unfolding Source-discrete
source_listed user_stream = refl
source_listed _ = refl

abbrev str_elem : String → List String → Bool
str_elem a [] = false
str_elem a (x ∷ xs) = if str_eq x a then true else str_elem a xs

-- Each field that the call reads is one of those that the second table watches.
watched : (f : Feature) → str_elem (field_of f) (expected_fields (source_of f)) ≡ true
unfolding field_of source_of expected_fields
watched user_orders_1h = refl
watched _ = refl

str_elem-Among : (a : String) (xs : List String) → str_elem a xs ≡ true → Among a xs
str_elem-Among a [] h = absurd (cc h)
str_elem-Among a (x ∷ xs) h = elim (Bool-cases (str_eq x a)) [
  | inl e ↦ inl ((eq_iff x a).0 e)
  | inr e ↦ inr (str_elem-Among a xs (rw e at h))
]

blank_fields-Among :
    (k : HashKey) (h : Hash) (fs : List String) (f : String)
    → Among f fs
    → is_blank (get f h) ≡ true
    → Among (missing_field k f) (blank_fields k h fs)
blank_fields-Among k h [] f m b = absurd m
blank_fields-Among k h (g ∷ fs) f (inl e) b =
    let blank : is_blank (get g h) ≡ true = subst (λ x. is_blank (get x h) ≡ true) (sym e) b in
    rw blank (inl (ap (missing_field k) e))
blank_fields-Among k h (g ∷ fs) f (inr m) b = elim (Bool-cases (is_blank (get g h))) [
  | inl t ↦ rw t (inr (blank_fields-Among k h fs f m b))
  | inr t ↦ rw t (blank_fields-Among k h fs f m b)
]

Among-blank_fields :
    (k : HashKey) (h : Hash) (fs : List String) (x : Missing)
    → Among x (blank_fields k h fs)
    → (f : String) × (missing_field k f ≡ x) × (is_blank (get f h) ≡ true)
Among-blank_fields k h [] x m = absurd m
Among-blank_fields k h (g ∷ fs) x m =
    split (is_blank (get g h)) refl (Among-blank_fields k h fs x) m
  where
    split :
        (b : Bool)
        → is_blank (get g h) ≡ b
        → (Among x (blank_fields k h fs)
            → (f : String) × (missing_field k f ≡ x) × (is_blank (get f h) ≡ true))
        → Among x (if b then missing_field k g ∷ blank_fields k h fs else blank_fields k h fs)
        → (f : String) × (missing_field k f ≡ x) × (is_blank (get f h) ≡ true)
    split true e later (inl p) = (g, p, e)
    split true e later (inr m') = later m'
    split false e later m' = later m'

module _ (c : Context) (h : Hashes) where
  -- Why an entry stands in the list.
  pub data Explains : Missing → Type 0 where
    empty_hash :
        {k : HashKey} (s : Source)
        → key_of c s ≡ some k
        → is_empty (h s) ≡ true
        → Explains (missing_key k)
    blank_field :
        {k : HashKey} {f : String} (s : Source)
        → key_of c s ≡ some k
        → is_empty (h s) ≡ false
        → is_blank (get f (h s)) ≡ true
        → Explains (missing_field k f)

  missing_keys_of_given :
      (s : Source) {k : HashKey}
      → key_of c s ≡ some k
      → missing_keys_of c h s ≡ (if is_empty (h s) then missing_key k ∷ [] else [])
  unfolding missing_keys_of
  missing_keys_of_given s e = rw (e, missing_keys_of)

  missing_fields_of_given :
      (s : Source) {k : HashKey}
      → key_of c s ≡ some k
      → missing_fields_of c h s
        ≡ (if is_empty (h s) then [] else blank_fields k (h s) (expected_fields s))
  unfolding missing_fields_of
  missing_fields_of_given s e = rw (e, missing_fields_of)

  -- A default is never silent: where a feature's source has a key and its text is absent or blank, the
  -- list names the whole key, if the hash is empty, or else the key with the field.
  pub missing_features_complete :
      (f : Feature) {k : HashKey}
      → key_of c (source_of f) ≡ some k
      → is_blank (get (field_of f) (h (source_of f))) ≡ true
      → (Among (missing_key k) (missing_features c h) × (is_empty (h (source_of f)) ≡ true))
        ⊎ (Among (missing_field k (field_of f)) (missing_features c h)
            × (is_empty (h (source_of f)) ≡ false))
  unfolding missing_features
  missing_features_complete f {k} e b = elim (Bool-cases (is_empty (h s))) [
    | inl t ↦ inl (
      (Among-append_left _ (flat_map (missing_keys_of c h) sources) _ (
          Among-flat_map (missing_keys_of c h) sources _ s at_source
            (rw (missing_keys_of_given s e, t) (inl refl)))),
      t,
    )
    | inr t ↦ inr (
      (Among-append_right _ (flat_map (missing_keys_of c h) sources) _ (
          Among-flat_map (missing_fields_of c h) sources _ s at_source (
            rw (missing_fields_of_given s e, t)
              (blank_fields-Among k (h s) (expected_fields s) (field_of f) field_watched b)))),
      t,
    )
  ]
    where
      s : Source
      s = source_of f

      at_source : Among s sources
      at_source = mem_by-Among Source-discrete s sources (source_listed s)

      field_watched : Among (field_of f) (expected_fields s)
      field_watched = str_elem-Among (field_of f) (expected_fields s) (watched f)

  missing_keys_of-Explains :
      (s : Source) (x : Missing) → Among x (missing_keys_of c h s) → Explains x
  unfolding missing_keys_of
  missing_keys_of-Explains s x m = by_key (key_of c s) refl (is_empty (h s)) refl m
    where
      by_key :
          (o : Option HashKey)
          → key_of c s ≡ o
          → (b : Bool) → is_empty (h s) ≡ b
          → Among x (elim o [ none ↦ [] | some k ↦ if b then missing_key k ∷ [] else [] ])
          → Explains x
      by_key none e b t m' = absurd m'
      by_key (some k) e true t (inl p) = subst Explains p (empty_hash s e t)
      by_key (some k) e true t (inr m') = absurd m'
      by_key (some k) e false t m' = absurd m'

  missing_fields_of-Explains :
      (s : Source) (x : Missing) → Among x (missing_fields_of c h s) → Explains x
  unfolding missing_fields_of
  missing_fields_of-Explains s x m = by_key (key_of c s) refl (is_empty (h s)) refl m
    where
      by_key :
          (o : Option HashKey)
          → key_of c s ≡ o
          → (b : Bool) → is_empty (h s) ≡ b
          → Among x (elim o [
            | none ↦ []
            | some k ↦ if b then [] else blank_fields k (h s) (expected_fields s)
          ])
          → Explains x
      by_key none e b t m' = absurd m'
      by_key (some k) e true t m' = absurd m'
      by_key (some k) e false t m' =
          let (f, p, blank) = Among-blank_fields k (h s) (expected_fields s) x m' in
          subst Explains p (blank_field s e t blank)

  -- Nothing else is listed: an entry names a key that was asked for and whose hash is empty, or a field
  -- that is absent or blank in a hash that is not.
  pub missing_features-Explains : (x : Missing) → Among x (missing_features c h) → Explains x
  unfolding missing_features
  missing_features-Explains x m =
      elim (Among-append x (flat_map (missing_keys_of c h) sources)
        (flat_map (missing_fields_of c h) sources) m) [
          | inl l ↦
              let (s, _, at) = flat_map-Among (missing_keys_of c h) sources x l in
              missing_keys_of-Explains s x at
          | inr r ↦
              let (s, _, at) = flat_map-Among (missing_fields_of c h) sources x r in
              missing_fields_of-Explains s x at
        ]
