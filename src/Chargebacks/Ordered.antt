-- ===== src/Chargebacks/Ordered.antt =====
-- The queries of simulator/chargebacks.py as lists: narrowing by a cursor, and their order.
use fraud_forecast.Base.{
  ℕ, ◌<◌, ◌≡◌, ◌⊎◌, ◌≢◌, refl, sym, Bool, true, false, ◌&&◌, Option, none, some, List, [], ◌∷◌, map,
  ltb, leb, elem, if◌then◌else◌, arith, filter_by, All, Bool-cases, inl, inr,
}
use fraud_forecast.Tables.{OrderRow}
use fraud_forecast.Chargebacks.{Truth}
use fraud_forecast.Chargebacks.Emit.{Candidate, candidate, join}
use fraud_forecast.Chargebacks.Daemon.{place, listed, select}
use fraud_forecast.Chargebacks.PagedAll.{Ascending}

abbrev pub ids : List OrderRow → List ℕ
ids rows = map (λ r. r.order_id) rows

-- No number stands twice.
abbrev pub Different : List ℕ → Type 0
Different [] = Unit
Different (x ∷ xs) = (elem x xs ≡ false) × Different xs

abbrev after : ℕ → Candidate → Bool
after later c = ltb later c.order_id

filter_by-place :
    (later : ℕ) (c : Candidate) (ds : List Candidate)
    → filter_by (after later) (place c ds)
      ≡ (if after later c then place c (filter_by (after later) ds) else filter_by (after later) ds)
filter_by-place later c [] = ground arith
filter_by-place later c (d ∷ ds) =
    let ih = filter_by-place later c ds in
    elim (Bool-cases (after later c)) [
      | inl h ↦ elim (Bool-cases (after later d)) [ inl k ↦ ground arith | inr k ↦ ground arith ]
      | inr h ↦ elim (Bool-cases (after later d)) [ inl k ↦ ground arith | inr k ↦ ground arith ]
    ]

filter_by-join :
    (later : ℕ) (r : OrderRow) (delivered_at : Option ℕ) (truth : Option Truth)
    (truths : ℕ → Option Truth) (ds : List Candidate)
    → filter_by (after later) (listed (join truths r delivered_at truth) ds) ≡ (
        if ltb later r.order_id
        then listed (join truths r delivered_at truth) (filter_by (after later) ds)
        else filter_by (after later) ds)
filter_by-join later r none truth truths ds = ground arith
filter_by-join later r (some at) none truths ds = ground arith
filter_by-join later r (some at) (some truth) truths ds = filter_by-place later _ ds

module _ (truths : ℕ → Option Truth) where
  -- A test that asks besides for an id behind the cursor takes the candidates behind it.
  pub select_narrows :
      (later : ℕ) (wide narrow : OrderRow → Bool) (rows : List OrderRow)
      → ((r : OrderRow) → narrow r ≡ (wide r && ltb later r.order_id))
      → select truths narrow rows ≡ filter_by (λ c. ltb later c.order_id) (select truths wide rows)
  unfolding select
  select_narrows later wide narrow [] h = refl
  select_narrows later wide narrow (r ∷ rows) h =
      let ih = select_narrows later wide narrow rows h in
      let joined =
        filter_by-join later r r.delivered_at (truths r.order_id) truths
          (select truths wide rows) in
      split (wide r) (ltb later r.order_id) (h r) ih joined
    where
      found : Option Candidate
      found = candidate truths r

      split :
          (w a : Bool)
          → narrow r ≡ (w && a)
          → select truths narrow rows ≡ filter_by (after later) (select truths wide rows)
          → filter_by (after later) (listed found (select truths wide rows)) ≡ (
              if a
              then listed found (filter_by (after later) (select truths wide rows))
              else filter_by (after later) (select truths wide rows))
          → (if narrow r
              then listed found (select truths narrow rows)
              else select truths narrow rows)
            ≡ filter_by
                (after later)
                (if w then listed found (select truths wide rows) else select truths wide rows)
      split true true e ih joined = rw (e, ih) (sym joined)
      split true false e ih joined = rw (e, ih) (sym joined)
      split false a e ih joined = rw e ih

  -- Two tests that agree on the rows give the same candidates.
  pub select_same :
      (test other : OrderRow → Bool) (rows : List OrderRow)
      → ((r : OrderRow) → test r ≡ other r)
      → select truths test rows ≡ select truths other rows
  unfolding select
  select_same test other [] h = refl
  select_same test other (r ∷ rows) h = rw (h r, select_same test other rows h) refl

  -- Rows that are changed only where the test fails before and after.
  pub select_changed :
      (test : OrderRow → Bool) (change : OrderRow → OrderRow) (rows : List OrderRow)
      → ((r : OrderRow) → (change r ≡ r) ⊎ ((test r ≡ false) × (test (change r) ≡ false)))
      → select truths test (map change rows) ≡ select truths test rows
  unfolding select
  select_changed test change [] h = refl
  select_changed test change (r ∷ rows) h =
      let ih = select_changed test change rows h in
      elim (h r) [ inl same ↦ rw (same, ih) refl | inr (before, now) ↦ rw (before, now) ih ]

  abbrev Elsewhere : ℕ → List Candidate → Type 0
  Elsewhere k = All (λ c. c.order_id ≢ k)

  place-Elsewhere :
      (k : ℕ) (c : Candidate) (ds : List Candidate)
      → c.order_id ≢ k
      → Elsewhere k ds
      → Elsewhere k (place c ds)
  place-Elsewhere k c [] h hs = (h, tt)
  place-Elsewhere k c (d ∷ ds) h (here, rest) =
      split (leb c.order_id d.order_id) (place-Elsewhere k c ds h rest)
    where
      split :
          (b : Bool)
          → Elsewhere k (place c ds)
          → Elsewhere k (if b then c ∷ d ∷ ds else d ∷ place c ds)
      split true ih = (h, (here, rest))
      split false ih = (here, ih)

  join-Elsewhere :
      (k : ℕ) (r : OrderRow) (delivered_at : Option ℕ) (truth : Option Truth) (ds : List Candidate)
      → r.order_id ≢ k
      → Elsewhere k ds
      → Elsewhere k (listed (join truths r delivered_at truth) ds)
  join-Elsewhere k r none truth ds h hs = hs
  join-Elsewhere k r (some at) none ds h hs = hs
  join-Elsewhere k r (some at) (some truth) ds h hs = place-Elsewhere k _ ds h hs

  select-Elsewhere :
      (k : ℕ) (test : OrderRow → Bool) (rows : List OrderRow)
      → elem k (ids rows) ≡ false
      → Elsewhere k (select truths test rows)
  unfolding select
  select-Elsewhere k test [] h = tt
  select-Elsewhere k test (r ∷ rows) h =
      split (test r) (select-Elsewhere k test rows (ground arith))
    where
      split :
          (b : Bool)
          → Elsewhere k (select truths test rows)
          → Elsewhere k (
              if b
              then listed (candidate truths r) (select truths test rows)
              else select truths test rows)
      split true ih = join-Elsewhere k r r.delivered_at (truths r.order_id) _ (λ e. ground arith) ih
      split false ih = ih

  abbrev InOrder : ℕ → List Candidate → Type 0
  InOrder = Ascending (λ c. c.order_id)

  place-InOrder :
      (cursor : ℕ) (c : Candidate) (ds : List Candidate)
      → cursor < c.order_id
      → Elsewhere c.order_id ds
      → InOrder cursor ds
      → InOrder cursor (place c ds)
  place-InOrder cursor c [] h apart asc = (h, tt)
  place-InOrder cursor c (d ∷ ds) h (apart, others) (above, asc) =
      split (leb c.order_id d.order_id) refl
        (λ (lt : d.order_id < c.order_id). place-InOrder d.order_id c ds lt others asc)
    where
      split :
          (b : Bool)
          → leb c.order_id d.order_id ≡ b
          → (d.order_id < c.order_id → InOrder d.order_id (place c ds))
          → InOrder cursor (if b then c ∷ d ∷ ds else d ∷ place c ds)
      split true e ih = (h, (ground arith, asc))
      split false e ih = (above, ih (ground arith))

  join-InOrder :
      (cursor : ℕ) (r : OrderRow) (delivered_at : Option ℕ) (truth : Option Truth)
      (ds : List Candidate)
      → cursor < r.order_id
      → Elsewhere r.order_id ds
      → InOrder cursor ds
      → InOrder cursor (listed (join truths r delivered_at truth) ds)
  join-InOrder cursor r none truth ds h apart asc = asc
  join-InOrder cursor r (some at) none ds h apart asc = asc
  join-InOrder cursor r (some at) (some truth) ds h apart asc =
      place-InOrder cursor _ ds h apart asc

  -- Rows with different ids, of which those behind the cursor are taken, come in strict order.
  pub select-InOrder :
      (cursor : ℕ) (test : OrderRow → Bool) (rows : List OrderRow)
      → ((r : OrderRow) → test r ≡ true → cursor < r.order_id)
      → Different (ids rows)
      → Ascending (λ c. c.order_id) cursor (select truths test rows)
  unfolding select
  select-InOrder cursor test [] h different = tt
  select-InOrder cursor test (r ∷ rows) h (here, rest) =
      split (test r) refl (select-InOrder cursor test rows h rest)
    where
      split :
          (b : Bool)
          → test r ≡ b
          → InOrder cursor (select truths test rows)
          → InOrder cursor (
              if b
              then listed (candidate truths r) (select truths test rows)
              else select truths test rows)
      split true e ih =
          join-InOrder cursor r r.delivered_at (truths r.order_id) _ (h r e)
            (select-Elsewhere r.order_id test rows here) ih
      split false e ih = ih
