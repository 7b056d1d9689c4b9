-- ===== src/FeatureStore/Aggregator/Trims.antt =====
-- How the trimming of trim_order_zsets_once of feature_store/aggregator.py goes on from set to set.
use fraud_forecast.Base.{
  ℕ, ◌≡◌, refl, sym, ap, ◌∙◌, subst, Bool, true, false, not, ◌||◌, List, [], ◌∷◌, String, All,
  Among, mem_by, mem_by-Among, inl, inr, ◌⊎◌, filter_by, ltb, arith, if◌then◌else◌, Bool-cases,
  if_ind,
}
use fraud_forecast.FeatureStore.Keys.{Entity}
use fraud_forecast.FeatureStore.Aggregator.Redis.{Kind, ZsetKey, Member, Redis, Laws}
use fraud_forecast.FeatureStore.Aggregator.Streams.{zset}
use fraud_forecast.FeatureStore.Aggregator.Memory.{ZsetKey-discrete}
use fraud_forecast.FeatureStore.Aggregator.Trim.{
  Named, Remover, RemoverLaws, Named-discrete, is_streamed, require, note, execute, trim_pages,
  trim_kinds,
}
use text.Mathlib.Text.{◌==◌ as str_eq}

-- The refresh of an entity is required, or its key names none that has one.
abbrev pub Noted : Entity → String → List Named → Type 0
Noted e i required = Among (e, i) required ⊎ ((str_eq i "" || not (is_streamed e)) ≡ true)

require-Noted :
    (e : Entity) (i : String) (required : List Named) → Noted e i (require (e, i) required)
unfolding require
require-Noted e i required =
    split (str_eq i "" || not (is_streamed e)) refl (mem_by Named-discrete (e, i) required) refl
  where
    split :
        (a : Bool)
        → (str_eq i "" || not (is_streamed e)) ≡ a
        → (b : Bool) → mem_by Named-discrete (e, i) required ≡ b
        → Among (e, i) (if a || b then required else (e, i) ∷ required)
          ⊎ ((str_eq i "" || not (is_streamed e)) ≡ true)
    split true ea b eb = inr ea
    split false ea true eb = inl (mem_by-Among Named-discrete (e, i) required eb)
    split false ea false eb = inl (inl refl)

require_grows :
    (n m : Named) (required : List Named) → Among m required → Among m (require n required)
unfolding require
require_grows (e, i) m required h =
    if_ind (Among m) (str_eq i "" || not (is_streamed e) || mem_by Named-discrete (e, i) required)
      required ((e, i) ∷ required) h (inr h)

note_grows :
    (keys : List Named) (counts : List ℕ) (required : List Named) (m : Named)
    → Among m required
    → Among m (note keys counts required)
unfolding note
note_grows [] counts required m h = h
note_grows (n ∷ keys) [] required m h = h
note_grows (n ∷ keys) (count ∷ counts) required m h =
    note_grows keys counts _ m (if_ind (Among m) (ltb 0 count) _ _ (require_grows n m required h) h)

pub Noted-grows :
    (e : Entity) (i : String) (before after : List Named)
    → ((m : Named) → Among m before → Among m after)
    → Noted e i before
    → Noted e i after
Noted-grows e i before after h (inl m) = inl (h (e, i) m)
Noted-grows e i before after h (inr none_needed) = inr none_needed

pub filtered-All :
    {A : Type 0} (p : A → Bool) (xs : List A) → All (λ x. p x ≡ true) (filter_by p xs)
filtered-All p [] = tt
filtered-All {A} p (x ∷ xs) = split (p x) refl (filtered-All p xs)
  where
    split :
        (b : Bool)
        → p x ≡ b
        → All (λ (y : A). p y ≡ true) (filter_by p xs)
        → All (λ (y : A). p y ≡ true) (if b then x ∷ filter_by p xs else filter_by p xs)
    split true e rest = (e, rest)
    split false e rest = rest

pub filter_by_id :
    {A : Type 0} (p : A → Bool) (xs : List A) → All (λ x. p x ≡ true) xs → filter_by p xs ≡ xs
filter_by_id p [] h = refl
filter_by_id p (x ∷ xs) (here, rest) = rw here (ap (λ ys. x ∷ ys) (filter_by_id p xs rest))

module _ (R : Redis) (L : Laws R) (M : Remover R) (N : RemoverLaws R L M) (cutoff : ℕ) where
  open R use {Db}
  open M use {zremrangebyscore}

  -- No member of the set is as old as the cutoff.
  abbrev pub Clean : ZsetKey → Db → Type 0
  Clean z db = All (λ (e : Member × ℕ). ltb cutoff e.1 ≡ true) (L.members z db)

  pub remove-Clean : (z : ZsetKey) (db : Db) → Clean z (zremrangebyscore z cutoff db).1
  remove-Clean z db =
      subst (All (λ (e : Member × ℕ). ltb cutoff e.1 ≡ true)) (sym (N.removes z cutoff db))
        (filtered-All (λ (e : Member × ℕ). ltb cutoff e.1) (L.members z db))

  remove_keeps-Clean :
      (z w : ZsetKey) (db : Db) → Clean w db → Clean w (zremrangebyscore z cutoff db).1
  remove_keeps-Clean z w db h = split (ZsetKey-discrete w z)
    where
      split : Dec (w ≡ z) → Clean w (zremrangebyscore z cutoff db).1
      split (yes p) =
          subst (λ y. Clean y (zremrangebyscore z cutoff db).1) (sym p) (remove-Clean z db)
      split (no q) =
          subst (All (λ (e : Member × ℕ). ltb cutoff e.1 ≡ true))
            (sym (N.removes_other z w cutoff db q)) h

  -- The members of a set that are newer than the cutoff.
  abbrev pub newer : ZsetKey → Db → List (Member × ℕ)
  newer z db = filter_by (λ (e : Member × ℕ). ltb cutoff e.1) (L.members z db)

  remove-newer : (z w : ZsetKey) (db : Db) → newer w (zremrangebyscore z cutoff db).1 ≡ newer w db
  remove-newer z w db = split (ZsetKey-discrete w z)
    where
      split : Dec (w ≡ z) → newer w (zremrangebyscore z cutoff db).1 ≡ newer w db
      split (yes p) =
          subst (λ y. newer y (zremrangebyscore z cutoff db).1 ≡ newer y db) (sym p)
            (ap (filter_by (λ (e : Member × ℕ). ltb cutoff e.1)) (N.removes z cutoff db)
              ∙ filter_by_id (λ (e : Member × ℕ). ltb cutoff e.1) (newer z db)
                  (filtered-All (λ (e : Member × ℕ). ltb cutoff e.1) (L.members z db)))
      split (no q) =
          ap (filter_by (λ (e : Member × ℕ). ltb cutoff e.1)) (N.removes_other z w cutoff db q)

  -- What trimming does on its way: a set that changes is noted, and none gets old members again.
  pub record Trims (before after : List Named × Db) : Type 0 where
    pub grows : (m : Named) → Among m before.0 → Among m after.0
    pub changed :
        (z : ZsetKey) → (L.members z after.1 ≡ L.members z before.1) ⊎ Noted z.entity z.id after.0
    pub kept : (z : ZsetKey) → Clean z before.1 → Clean z after.1
    pub same_newer : (z : ZsetKey) → newer z after.1 ≡ newer z before.1

  none_Trims : (s : List Named × Db) → Trims s s
  none_Trims s = record {
    grows = λ m h. h;
    changed = λ z. inl refl;
    kept = λ z h. h;
    same_newer = λ z. refl;
  }

  then_Trims : {a b c : List Named × Db} → Trims a b → Trims b c → Trims a c
  then_Trims {a} {b} {c} p q = record {
    grows = λ m h. q.grows m (p.grows m h);
    changed = λ z. elim (q.changed z) [
      | inr n ↦ inr n
      | inl e ↦ elim (p.changed z) [
        | inl e' ↦ inl (e ∙ e')
        | inr n ↦ inr (Noted-grows z.entity z.id _ _ q.grows n)
      ]
    ];
    kept = λ z h. q.kept z (p.kept z h);
    same_newer = λ z. q.same_newer z ∙ p.same_newer z;
  }

  remove-Trims :
      (k : Kind) (e : Entity) (i : String) (required : List Named) (db : Db)
      → Trims
          (required, db)
          (
            if ltb 0 (zremrangebyscore (zset e i k) cutoff db).0
                then require (e, i) required
                else required,
            (zremrangebyscore (zset e i k) cutoff db).1,
          )
  remove-Trims k e i required db = record {
    grows = λ m h. if_ind (Among m) (ltb 0 count) _ _ (require_grows (e, i) m required h) h;
    changed = λ z. split z (ZsetKey-discrete z (zset e i k)) (Bool-cases (ltb 0 count));
    kept = λ z h. remove_keeps-Clean (zset e i k) z db h;
    same_newer = λ z. remove-newer (zset e i k) z db;
  }
    where
      count : ℕ
      count = (zremrangebyscore (zset e i k) cutoff db).0

      split :
          (z : ZsetKey)
          → Dec (z ≡ zset e i k)
          → (ltb 0 count ≡ true) ⊎ (ltb 0 count ≡ false)
          → (L.members z (zremrangebyscore (zset e i k) cutoff db).1 ≡ L.members z db)
            ⊎ Noted z.entity z.id (if ltb 0 count then require (e, i) required else required)
      split z (no q) c = inl (N.removes_other (zset e i k) z cutoff db q)
      split z (yes p) (inl c) = inr (
          subst
            (λ (y : ZsetKey).
              Noted y.entity y.id (if ltb 0 count then require (e, i) required else required))
            (sym p) (rw c (require-Noted e i required)))
      split z (yes p) (inr c) =
          let zero_count : count ≡ 0 = ground arith in
          inl (
            subst
              (λ (y : ZsetKey).
                L.members y (zremrangebyscore (zset e i k) cutoff db).1 ≡ L.members y db)
              (sym p) (N.removes_none (zset e i k) cutoff db zero_count))

  pub page-Trims :
      (k : Kind) (keys : List Named) (required : List Named) (db : Db)
      → Trims
          (required, db)
          (note keys (execute R M k cutoff keys db).0 required, (execute R M k cutoff keys db).1)
  unfolding execute note
  page-Trims k [] required db = none_Trims (required, db)
  page-Trims k ((e, i) ∷ keys) required db =
      then_Trims (remove-Trims k e i required db) (page-Trims k keys _ _)

  pub pages-Trims :
      (k : Kind) (pages : List (List Named)) (s : List Named × Db)
      → Trims s (trim_pages R M k cutoff pages s)
  unfolding trim_pages
  pages-Trims k [] s = none_Trims s
  pages-Trims k (keys ∷ pages) (required, db) =
      then_Trims (page-Trims k keys required db) (pages-Trims k pages _)

  pub kinds-Trims :
      (kinds : List Kind) (scan : Kind → List (List Named)) (s : List Named × Db)
      → Trims s (trim_kinds R M kinds cutoff scan s)
  unfolding trim_kinds
  kinds-Trims [] scan s = none_Trims s
  kinds-Trims (k ∷ kinds) scan s = then_Trims (pages-Trims k (scan k) s) (kinds-Trims kinds scan _)
