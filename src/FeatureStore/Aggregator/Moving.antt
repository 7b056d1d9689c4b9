-- ===== src/FeatureStore/Aggregator/Moving.antt =====
-- What `zadd` does to a window of a sorted set, for feature_store/aggregator.py: the member's own entry
-- is replaced, the others stay.
use fraud_forecast.Base.{
  ℕ, ◌+◌, ◌≡◌, refl, Bool, true, not, ◌&&◌, none, some, Option, List, [], ◌∷◌, String, length,
  sum_by, filter_by, map, if◌then◌else◌, arith, inl, inr, Bool-cases,
}
use fraud_forecast.Base.Int.{ℤ, pos_part, neg_part, ◌+ℤ◌, int_laws, +ℤ_parts, eq_of_parts}
use fraud_forecast.FeatureStore.Aggregator.Redis.{
  ZsetKey, Member, plain, priced, same, between, Redis, Laws,
}
use fraud_forecast.FeatureStore.Aggregator.Window.{member_pence, add_pence, sum_spend_from_members}
use text.Mathlib.TextPositions.{eq_refl}

same_refl : (m : Member) → same m m ≡ true
same_refl (plain s) = eq_refl s
same_refl (priced s p) = let e = eq_refl s in ground arith

-- The entries of a window other than the member's.
abbrev pub others : Member → (low high : ℕ) → List (Member × ℕ) → List (Member × ℕ)
others m low high = filter_by (λ e. between low high e && not (same e.0 m))

sum_by-filter_by :
    (g : Member × ℕ → ℕ) (p : Member × ℕ → Bool) (es : List (Member × ℕ))
    → sum_by g (filter_by p es) ≡ sum_by (λ e. if p e then g e else 0) es
sum_by-filter_by g p [] = refl
sum_by-filter_by g p (e ∷ es) =
    let ih = sum_by-filter_by g p es in
    elim (Bool-cases (p e)) [ inl h ↦ ground arith | inr h ↦ ground arith ]

sum_split :
    (g : Member × ℕ → ℕ) (m : Member) (low high : ℕ) (es : List (Member × ℕ))
    → sum_by (λ e. if same e.0 m then (if between low high e then g e else 0) else 0) es
        + sum_by g (others m low high es)
      ≡ sum_by (λ e. if between low high e then g e else 0) es
sum_split g m low high [] = refl
sum_split g m low high (e ∷ es) =
    let ih = sum_split g m low high es in
    elim (Bool-cases (between low high e)) [
      | inl h ↦ elim (Bool-cases (same e.0 m)) [ inl k ↦ ground arith | inr k ↦ ground arith ]
      | inr h ↦ elim (Bool-cases (same e.0 m)) [ inl k ↦ ground arith | inr k ↦ ground arith ]
    ]

own_sum :
    (g : Member × ℕ → ℕ) (m : Member) (low high : ℕ) (es : List (Member × ℕ))
    → sum_by
        (λ e. if same e.0 m then (if between low high e && not (same e.0 m) then g e else 0) else 0)
        es
      ≡ 0
own_sum g m low high [] = refl
own_sum g m low high (e ∷ es) =
    let ih = own_sum g m low high es in
    elim (Bool-cases (same e.0 m)) [
      | inl k ↦ elim (Bool-cases (between low high e)) [
        | inl h ↦ ground arith
        | inr h ↦ ground arith
      ]
      | inr k ↦ ground arith
    ]

-- The two parts of an entry's pence.
abbrev part : (ℤ → ℕ) → Option ℤ → ℕ
part f none = 0
part f (some pence) = f pence

sum_spend_parts :
    (parse_int : String → Option ℤ) (es : List (Member × ℕ))
    → pos_part (sum_spend_from_members parse_int (map (λ e. e.0) es))
        + sum_by (λ e. part neg_part (member_pence parse_int e.0)) es
      ≡ neg_part (sum_spend_from_members parse_int (map (λ e. e.0) es))
        + sum_by (λ e. part pos_part (member_pence parse_int e.0)) es
sum_spend_parts parse_int [] = refl
sum_spend_parts parse_int ((m, s) ∷ es) =
    step _ _ (member_pence parse_int m) (sum_spend_from_members parse_int (map (λ e. e.0) es))
      (sum_spend_parts parse_int es)
  where
    step :
        (p n : ℕ) (o : Option ℤ) (total : ℤ)
        → pos_part total + n ≡ neg_part total + p
        → pos_part (add_pence o total) + (part neg_part o + n)
          ≡ neg_part (add_pence o total) + (part pos_part o + p)
    step p n none total h = omega arith
    step p n (some pence) total h = omega (int_laws)

length_sum : (es : List (Member × ℕ)) → length es ≡ sum_by (λ e. 1) es
length_sum [] = refl
length_sum (e ∷ es) = omega (arith, length_sum es)

module _ (R : Redis) (L : Laws R) where
  open R use {Db, zadd, zcount, zrangebyscore}

  -- A sum over a window after `zadd`, from the entries that were there.
  pub window_sum :
      (g : Member × ℕ → ℕ) (z : ZsetKey) (m : Member) (score low high : ℕ) (db : Db)
      → between low high (m, score) ≡ true
      → sum_by g (filter_by (between low high) (L.members z (zadd z m score db)))
        ≡ g (m, score) + sum_by g (others m low high (L.members z db))
  window_sum g z m score low high db h =
      let moved = L.zadd_moves z m score db (λ e. if between low high e then g e else 0) in
      let split = sum_split g m low high (L.members z db) in
      let filtered = sum_by-filter_by g (between low high) (L.members z (zadd z m score db)) in
      ground arith

  -- The other entries are summed as before.
  pub others_sum :
      (g : Member × ℕ → ℕ) (z : ZsetKey) (m : Member) (score low high : ℕ) (db : Db)
      → sum_by g (others m low high (L.members z (zadd z m score db)))
        ≡ sum_by g (others m low high (L.members z db))
  others_sum g z m score low high db =
      let moved =
        L.zadd_moves z m score db
          (λ e. if between low high e && not (same e.0 m) then g e else 0) in
      let gone = own_sum g m low high (L.members z db) in
      let self = same_refl m in
      let fb = sum_by-filter_by g (λ e. between low high e && not (same e.0 m)) (L.members z db) in
      let fa =
        sum_by-filter_by g (λ e. between low high e && not (same e.0 m))
          (L.members z (zadd z m score db)) in
      ground arith

  pub window_count :
      (z : ZsetKey) (m : Member) (score low high : ℕ) (db : Db)
      → between low high (m, score) ≡ true
      → zcount z low high (zadd z m score db) ≡ 1 + length (others m low high (L.members z db))
  window_count z m score low high db h =
      let counted = L.zcount_counts z low high (zadd z m score db) in
      let summed = window_sum (λ e. 1) z m score low high db h in
      let left = length_sum (filter_by (between low high) (L.members z (zadd z m score db))) in
      let right = length_sum (others m low high (L.members z db)) in omega arith

  -- Spend is the member's pence and what the other entries sum to.
  pub window_spend :
      (parse_int : String → Option ℤ) (z : ZsetKey) (order_id : String) (pence : ℤ)
      (score low high : ℕ) (db : Db)
      → between low high (priced order_id pence, score) ≡ true
      → sum_spend_from_members parse_int
          (zrangebyscore z low high (zadd z (priced order_id pence) score db))
        ≡ pence
          +ℤ sum_spend_from_members parse_int
              (map (λ e. e.0) (others (priced order_id pence) low high (L.members z db)))
  window_spend parse_int z order_id pence score low high db h =
      let m = priced order_id pence in
      let after = filter_by (between low high) (L.members z (zadd z m score db)) in
      let before = others m low high (L.members z db) in
      let p =
        window_sum (λ e. part pos_part (member_pence parse_int e.0)) z m score low high db h in
      let n =
        window_sum (λ e. part neg_part (member_pence parse_int e.0)) z m score low high db h in
      let a = sum_spend_parts parse_int after in
      let b = sum_spend_parts parse_int before in
      let c = +ℤ_parts pence (sum_spend_from_members parse_int (map (λ e. e.0) before)) in
      rw (L.zrangebyscore_lists z low high (zadd z m score db)) (eq_of_parts _ _ (omega arith))

  -- The other entries' spend is as before.
  pub others_spend :
      (parse_int : String → Option ℤ) (z : ZsetKey) (m : Member) (score low high : ℕ) (db : Db)
      → sum_spend_from_members parse_int
          (map (λ e. e.0) (others m low high (L.members z (zadd z m score db))))
        ≡ sum_spend_from_members parse_int (map (λ e. e.0) (others m low high (L.members z db)))
  others_spend parse_int z m score low high db =
      let p = others_sum (λ e. part pos_part (member_pence parse_int e.0)) z m score low high db in
      let n = others_sum (λ e. part neg_part (member_pence parse_int e.0)) z m score low high db in
      let a = sum_spend_parts parse_int (others m low high (L.members z (zadd z m score db))) in
      let b = sum_spend_parts parse_int (others m low high (L.members z db)) in
      eq_of_parts _ _ (omega arith)

  pub others_count :
      (z : ZsetKey) (m : Member) (score low high : ℕ) (db : Db)
      → length (others m low high (L.members z (zadd z m score db)))
        ≡ length (others m low high (L.members z db))
  others_count z m score low high db =
      let summed = others_sum (λ e. 1) z m score low high db in
      let left = length_sum (others m low high (L.members z (zadd z m score db))) in
      let right = length_sum (others m low high (L.members z db)) in omega arith
