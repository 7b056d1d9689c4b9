-- ===== src/FeatureStore/Aggregator/TrimTests.antt =====
-- A run of the cleanup of feature_store/aggregator.py on two sorted sets in memory.
use fraud_forecast.Base.{
  ℕ, ◌-◌, ◌≡◌, refl, ◌∙◌, Option, none, List, [], ◌∷◌, String, inl, inr, ◌⊎◌, filter_by, length,
  leb, ltb, arith, Bool-cases,
}
use fraud_forecast.Base.Int.{ℤ}
use fraud_forecast.FeatureStore.Keys.{user, store}
use fraud_forecast.FeatureStore.Aggregator.Redis.{Kind, orders, ZsetKey, Member, plain}
use fraud_forecast.FeatureStore.Aggregator.Streams.{zset}
use fraud_forecast.FeatureStore.Aggregator.Window.{twenty_four_hours_seconds}
use fraud_forecast.FeatureStore.Aggregator.Memory.{
  Store, memory, memory_laws, at_key, at_key_here, at_key_there, ZsetKey-discrete,
}
use fraud_forecast.FeatureStore.Aggregator.Trim.{Named, Remover, RemoverLaws, trim_order_zsets_once}
use fraud_forecast.FeatureStore.Aggregator.Refreshes.{Holds}
use fraud_forecast.FeatureStore.Aggregator.Trimmed.{trim_order_zsets_once-Holds}
use fraud_forecast.FeatureStore.Aggregator.Trims.{newer}

abbrev kept : ℕ → List (Member × ℕ) → List (Member × ℕ)
kept cutoff = filter_by (λ (e : Member × ℕ). ltb cutoff e.1)

abbrev dropped : ℕ → List (Member × ℕ) → ℕ
dropped cutoff es = length (filter_by (λ (e : Member × ℕ). leb e.1 cutoff) es)

none-dropped : (cutoff : ℕ) (es : List (Member × ℕ)) → dropped cutoff es ≡ 0 → kept cutoff es ≡ es
none-dropped cutoff [] h = refl
none-dropped cutoff ((m, score) ∷ es) h =
    let ih = none-dropped cutoff es in
    elim (Bool-cases (ltb cutoff score)) [ inl new ↦ ground arith | inr old ↦ ground arith ]

abbrev memory_remover : Remover memory
memory_remover = record {
  zremrangebyscore = λ z cutoff db. (
    dropped cutoff (db.zsets z),
    record db { zsets = at_key ZsetKey-discrete z (kept cutoff (db.zsets z)) db.zsets },
  );
}

memory_remover-RemoverLaws : RemoverLaws memory memory_laws memory_remover
unfolding memory_laws
memory_remover-RemoverLaws = record {
  removes = λ z cutoff db. at_key_here ZsetKey-discrete z _ db.zsets;
  removes_other = λ z w cutoff db ne. at_key_there ZsetKey-discrete z w _ db.zsets ne;
  removes_none = λ z cutoff db h.
      at_key_here ZsetKey-discrete z _ db.zsets ∙ none-dropped cutoff (db.zsets z) h;
}

abbrev orders_of : ZsetKey → List (Member × ℕ)
orders_of z = (plain "a", 100) ∷ (plain "b", 200_000) ∷ []

abbrev before_trim : Store
before_trim = record {
  zsets = orders_of;
  hashes = λ k f. none;
  buckets = λ b. record { holds = []; deadline = none };
}

abbrev one_page : Kind → List (List Named)
one_page k = ((user, "u") ∷ (store, "s") ∷ []) ∷ []

abbrev no_number : String → Option ℤ
no_number text = none

abbrev in_order : List String → List String
in_order ids = ids

trim_order_zsets_once-Holds_example :
    let after =
      trim_order_zsets_once memory memory_remover no_number in_order one_page 200_100 before_trim in
    (after.zsets (zset store "s" orders)
      ≡ newer memory memory_laws memory_remover memory_remover-RemoverLaws
          (200_100 - twenty_four_hours_seconds)
          (zset store "s" orders)
          before_trim)
    × ((after.zsets (zset store "s" orders) ≡ before_trim.zsets (zset store "s" orders))
        ⊎ Holds memory memory_laws no_number 200_100 store "s" after)
unfolding memory_laws
trim_order_zsets_once-Holds_example =
    trim_order_zsets_once-Holds memory memory_laws memory_remover memory_remover-RemoverLaws
      no_number in_order (λ ids i m. m) one_page 200_100 before_trim (zset store "s" orders)
      ((user, "u") ∷ (store, "s") ∷ []) (inl refl) (inr (inl refl)) refl
