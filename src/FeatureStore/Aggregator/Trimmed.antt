-- ===== src/FeatureStore/Aggregator/Trimmed.antt =====
-- What trim_order_zsets_once of feature_store/aggregator.py leaves behind.
use fraud_forecast.Base.{
  ℕ, ◌-◌, ◌≡◌, refl, sym, ◌∙◌, subst, false, not, ◌||◌, Option, List, [], ◌∷◌, String, Among, inl,
  inr, ◌⊎◌, ltb,
}
use fraud_forecast.Base.Int.{ℤ}
use fraud_forecast.FeatureStore.Aggregator.Redis.{
  Kind, orders, spend, stores, payments, users, devices, cards_1h, ZsetKey, Member, Redis, Laws,
}
use fraud_forecast.FeatureStore.Aggregator.Streams.{zset}
use fraud_forecast.FeatureStore.Aggregator.Window.{twenty_four_hours_seconds}
use fraud_forecast.FeatureStore.Aggregator.Trim.{
  Named, Remover, RemoverLaws, is_streamed, execute, trim_pages, trim_kinds, cleanup_kinds,
  trim_order_zsets_once,
}
use fraud_forecast.FeatureStore.Aggregator.Refreshes.{
  Holds, refresh_required_members, refresh_required-Holds,
}
use text.Mathlib.Text.{◌==◌ as str_eq}
use fraud_forecast.FeatureStore.Aggregator.Trims.{
  filter_by_id, Clean, remove-Clean, newer, Trims, page-Trims, pages-Trims, kinds-Trims,
}

module _ (R : Redis) (L : Laws R) (M : Remover R) (N : RemoverLaws R L M) (cutoff : ℕ) where
  open R use {Db}
  open M use {zremrangebyscore}

  -- The sets of the keys that were scanned.
  execute-Clean :
      (k : Kind) (keys : List Named) (db : Db) (n : Named)
      → Among n keys
      → Clean R L M N cutoff (zset n.0 n.1 k) (execute R M k cutoff keys db).1
  unfolding execute
  execute-Clean k [] db n m = absurd m
  execute-Clean k ((e, i) ∷ keys) db n (inr m) = execute-Clean k keys _ n m
  execute-Clean k ((e, i) ∷ keys) db n (inl p) =
      Trims.kept (page-Trims R L M N cutoff k keys [] _) (zset n.0 n.1 k) (
        subst
          (λ (y : Named).
            Clean R L M N cutoff (zset y.0 y.1 k) (zremrangebyscore (zset e i k) cutoff db).1)
          p (remove-Clean R L M N cutoff (zset e i k) db))

  trim_pages-Clean :
      (k : Kind) (pages : List (List Named)) (s : List Named × Db) (page : List Named) (n : Named)
      → Among page pages
      → Among n page
      → Clean R L M N cutoff (zset n.0 n.1 k) (trim_pages R M k cutoff pages s).1
  unfolding trim_pages
  trim_pages-Clean k [] s page n m there = absurd m
  trim_pages-Clean k (keys ∷ pages) (required, db) page n (inr m) there =
      trim_pages-Clean k pages _ page n m there
  trim_pages-Clean k (keys ∷ pages) (required, db) page n (inl p) there =
      Trims.kept (pages-Trims R L M N cutoff k pages _) (zset n.0 n.1 k)
        (execute-Clean k keys db n (subst (Among n) (sym p) there))

  trim_kinds-Clean :
      (kinds : List Kind) (scan : Kind → List (List Named)) (s : List Named × Db) (k : Kind)
      (page : List Named) (n : Named)
      → Among k kinds
      → Among page (scan k)
      → Among n page
      → Clean R L M N cutoff (zset n.0 n.1 k) (trim_kinds R M kinds cutoff scan s).1
  unfolding trim_kinds
  trim_kinds-Clean [] scan s k page n mk m there = absurd mk
  trim_kinds-Clean (j ∷ kinds) scan s k page n (inr mk) m there =
      trim_kinds-Clean kinds scan _ k page n mk m there
  trim_kinds-Clean (j ∷ kinds) scan s k page n (inl p) m there =
      Trims.kept (kinds-Trims R L M N cutoff kinds scan _) (zset n.0 n.1 k) (
        subst
          (λ (q : Kind).
            Clean R L M N cutoff (zset n.0 n.1 q) (trim_pages R M j cutoff (scan j) s).1)
          p
          (trim_pages-Clean j (scan j) s page n
            (subst (λ (q : Kind). Among page (scan q)) (sym p) m) there))

every_kind : (k : Kind) → Among k cleanup_kinds
every_kind orders = inl refl
every_kind spend = inr (inl refl)
every_kind stores = inr (inr (inl refl))
every_kind payments = inr (inr (inr (inl refl)))
every_kind users = inr (inr (inr (inr (inl refl))))
every_kind devices = inr (inr (inr (inr (inr (inl refl)))))
every_kind cards_1h = inr (inr (inr (inr (inr (inr (inl refl))))))

module _ (R : Redis) (L : Laws R) (M : Remover R) (N : RemoverLaws R L M)
    (parse_int : String → Option ℤ) (iterate : List String → List String)
    (iterate_all : (ids : List String) (i : String) → Among i ids → Among i (iterate ids)) where
  -- Where a page of the scan shows a sorted set of one of the six types of entity, with an id: after the trim,
  -- the set has exactly its members that are newer than a day, and either this is what it had, or the
  -- entity's hash holds what its sorted sets give at the trim's time.
  pub trim_order_zsets_once-Holds :
      (scan : Kind → List (List Named)) (now_ts : ℕ) (db : R.Db) (z : ZsetKey) (page : List Named)
      → Among page (scan z.kind)
      → Among (z.entity, z.id) page
      → (str_eq z.id "" || not (is_streamed z.entity)) ≡ false
      → let after = trim_order_zsets_once R M parse_int iterate scan now_ts db in
        (L.members z after ≡ newer R L M N (now_ts - twenty_four_hours_seconds) z db)
        × ((L.members z after ≡ L.members z db) ⊎ Holds R L parse_int now_ts z.entity z.id after)
  unfolding trim_order_zsets_once
  trim_order_zsets_once-Holds scan now_ts db z page shown named plain_key =
      let cutoff = now_ts - twenty_four_hours_seconds in
      let s : List Named × R.Db = trim_kinds R M cleanup_kinds cutoff scan ([], db) in
      let trims = kinds-Trims R L M N cutoff cleanup_kinds scan ([], db) in
      let clean =
        trim_kinds-Clean R L M N cutoff cleanup_kinds scan ([], db) z.kind page (z.entity, z.id)
          (every_kind z.kind) shown named in
      let same = refresh_required_members R L parse_int iterate iterate_all s.0 now_ts s.1 z in
      (
        same
            ∙ sym (filter_by_id (λ (e : Member × ℕ). ltb cutoff e.1) (L.members z s.1) clean)
            ∙ Trims.same_newer trims z,
        elim (Trims.changed trims z) [
          | inl e ↦ inl (same ∙ e)
          | inr (inl m) ↦ inr (
              refresh_required-Holds R L parse_int iterate iterate_all s.0 now_ts s.1 z.entity z.id
                m)
          | inr (inr none_needed) ↦ absurd (cc (plain_key, none_needed))
        ],
      )
