-- ===== src/Tables/Keys.antt =====
-- Primary keys in the tables of archival/archiver.py and simulator/chargebacks.py.
use fraud_forecast.Base.{
  ◌≡◌, ◌≢◌, refl, sym, ap, ◌∙◌, Bool, true, false, not, ◌||◌, List, [], ◌∷◌, ◌++◌, map, filter_by,
  arith, Bool-cases, inl, inr,
}
use fraud_forecast.Tables.{OrderRow, Key, row_key, key_eq, has_key}

pub key_eq_self : (k : Key) → key_eq k k ≡ true
key_eq_self k = ground arith

pub key_eq→eq : (a b : Key) → key_eq a b ≡ true → a ≡ b
key_eq→eq a b h = ground arith

pub has_key-append :
    (k : Key) (xs ys : List Key) → has_key k (xs ++ ys) ≡ (has_key k xs || has_key k ys)
has_key-append k [] ys = refl
has_key-append k (x ∷ xs) ys = let ih = has_key-append k xs ys in ground arith

-- Two keys differ if one is in a list where the other is not.
pub key_eq_apart : (a b : Key) (ks : List Key) → has_key a ks ≢ has_key b ks → key_eq a b ≡ false
key_eq_apart a b ks ne = elim (Bool-cases (key_eq a b)) [
  | inl h ↦ absurd (ne (ap (λ k. has_key k ks) (key_eq→eq a b h)))
  | inr h ↦ h
]

-- Rows that a filter takes by their keys do not hold a key that is on the filter's other side.
module _ (ks : List Key) (k : Key) where
  pub has_key-archived :
      (rows : List OrderRow)
      → has_key k ks ≡ false
      → has_key k (map row_key (filter_by (λ r. has_key (row_key r) ks) rows)) ≡ false
  has_key-archived [] h = refl
  has_key-archived (r ∷ rows) h =
      let ih = has_key-archived rows h in
      elim (Bool-cases (has_key (row_key r) ks)) [
        | inl e ↦
            let apart = key_eq_apart (row_key r) k ks (λ p. let q = sym e ∙ p ∙ h in cc) in
            ground arith
        | inr e ↦ ground arith
      ]

  pub has_key-left :
      (rows : List OrderRow)
      → has_key k ks ≡ true
      → has_key k (map row_key (filter_by (λ r. not (has_key (row_key r) ks)) rows)) ≡ false
  has_key-left [] h = refl
  has_key-left (r ∷ rows) h =
      let ih = has_key-left rows h in
      elim (Bool-cases (has_key (row_key r) ks)) [
        | inl e ↦ ground arith
        | inr e ↦
            let apart = key_eq_apart (row_key r) k ks (λ p. let q = sym e ∙ p ∙ h in cc) in
            ground arith
      ]

-- A key that is not in the table is not in what a filter leaves of it.
pub has_key-filter_by :
    (k : Key) (p : OrderRow → Bool) (rows : List OrderRow)
    → has_key k (map row_key rows) ≡ false
    → has_key k (map row_key (filter_by p rows)) ≡ false
has_key-filter_by k p [] h = refl
has_key-filter_by k p (r ∷ rows) h =
    let ih = has_key-filter_by k p rows (ground arith) in
    elim (Bool-cases (p r)) [ inl e ↦ ground arith | inr e ↦ ground arith ]

pub map-append {ℓ κ} :
    {A : Type ℓ} {B : Type κ} (f : A → B) (xs ys : List A) → map f (xs ++ ys) ≡ map f xs ++ map f ys
map-append f [] ys = refl
map-append f (x ∷ xs) ys = ap (λ zs. f x ∷ zs) (map-append f xs ys)
