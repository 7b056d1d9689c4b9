-- ===== src/Chargebacks/PagedAll.antt =====
-- The paged loop of simulator/chargebacks.py handles what one query without a limit would give.
use fraud_forecast.Base.{
  ℕ, zero, suc, ◌≤◌, ◌<◌, ◌≡◌, refl, sym, ap, ◌∙◌, subst, Bool, true, false, List, [], ◌∷◌, ltb,
  length, max, if◌then◌else◌, arith, filter_by, All, ltb→lt,
}
use fraud_forecast.Chargebacks.Paging.{take, handle_all, last_id, pages}

drop : {A : Type 0} → ℕ → List A → List A
drop zero xs = xs
drop (suc n) [] = []
drop (suc n) (x ∷ xs) = drop n xs

take_all : {A : Type 0} (n : ℕ) (xs : List A) → length (take n xs) < n → take n xs ≡ xs
take_all zero xs h = absurd (omega arith)
take_all (suc n) [] h = refl
take_all (suc n) (x ∷ xs) h = ap (λ ys. x ∷ ys) (take_all n xs (omega arith))

length-drop :
    {A : Type 0} (n : ℕ) (xs : List A)
    → 1 ≤ n
    → n ≤ length (take n xs)
    → length (drop n xs) < length xs
unfolding drop
length-drop zero xs h1 h2 = absurd (omega arith)
length-drop (suc n) [] h1 h2 = absurd (omega arith)
length-drop (suc zero) (x ∷ xs) h1 h2 = omega arith
length-drop (suc (suc n)) (x ∷ xs) h1 h2 =
    let ih = length-drop (suc n) xs (omega arith) (omega arith) in omega arith

-- The ids grow, and the first is above the cursor.
module _ {Row : Type 0} (id_of : Row → ℕ) where
  abbrev pub Ascending : ℕ → List Row → Type 0
  Ascending cursor [] = Unit
  Ascending cursor (r ∷ rows) = (cursor < id_of r) × Ascending (id_of r) rows

module _ {Row State : Type 0} (id_of : Row → ℕ) (handle : Row → State → State) where
  handle_all-take :
      (n : ℕ) (rows : List Row) (s : State)
      → handle_all id_of handle rows s
        ≡ handle_all id_of handle (drop n rows) (handle_all id_of handle (take n rows) s)
  unfolding drop
  handle_all-take zero rows s = refl
  handle_all-take (suc n) [] s = refl
  handle_all-take (suc n) (r ∷ rows) s = handle_all-take n rows (handle r s)

  last_id-le : (cursor : ℕ) (rows : List Row) → cursor ≤ last_id id_of handle cursor rows
  last_id-le cursor [] = omega arith
  last_id-le cursor (r ∷ rows) = omega (arith, last_id-le (max cursor (id_of r)) rows)

  below_last :
      (cursor : ℕ) (rows : List Row) → All (λ r. id_of r ≤ last_id id_of handle cursor rows) rows
  below_last cursor [] = tt
  below_last cursor (r ∷ rows) = (
    omega (arith, last_id-le (max cursor (id_of r)) rows),
    below_last (max cursor (id_of r)) rows,
  )

  filter_by-Ascending :
      (low cursor : ℕ) (rows : List Row)
      → low ≤ cursor
      → Ascending id_of cursor rows
      → filter_by (λ r. ltb low (id_of r)) rows ≡ rows
  filter_by-Ascending low cursor [] h asc = refl
  filter_by-Ascending low cursor (r ∷ rows) h (above, asc) =
      let ih = filter_by-Ascending low (id_of r) rows (omega arith) asc in
      let yes' : ltb low (id_of r) ≡ true = ground arith in rw (yes', ih) refl

  -- What lies behind the last row of a page is what the page leaves.
  filter_by-drop :
      (n cursor : ℕ) (rows : List Row)
      → Ascending id_of cursor rows
      → filter_by (λ r. ltb (last_id id_of handle cursor (take n rows)) (id_of r)) rows
        ≡ drop n rows
  unfolding drop
  filter_by-drop zero cursor rows asc = filter_by-Ascending cursor cursor rows (omega arith) asc
  filter_by-drop (suc n) cursor [] asc = refl
  filter_by-drop (suc n) cursor (r ∷ rows) (above, asc) =
      let ih = filter_by-drop n (id_of r) rows asc in
      let m : max cursor (id_of r) ≡ id_of r = omega arith in
      let low = last_id-le (id_of r) (take n rows) in
      let no' : ltb (last_id id_of handle (id_of r) (take n rows)) (id_of r) ≡ false =
        ground arith in
      subst
        (λ k.
          filter_by (λ q. ltb (last_id id_of handle k (take n rows)) (id_of q)) (r ∷ rows)
          ≡ drop n rows)
        (sym m) (rw no' ih)

  -- The queries of the loop: a later cursor narrows them, the rows come in order, and handling a row
  -- changes nothing behind it.
  module _ (fetch : ℕ → State → List Row) (Good : State → Type 0) where
    pub record Queries : Type 0 where
      pub narrows :
          (cursor later : ℕ) (s : State)
          → cursor ≤ later
          → fetch later s ≡ filter_by (λ r. ltb later (id_of r)) (fetch cursor s)
      pub stable :
          (cursor : ℕ) (r : Row) (s : State)
          → id_of r ≤ cursor
          → fetch cursor (handle r s) ≡ fetch cursor s
      pub in_order : (cursor : ℕ) (s : State) → Good s → Ascending id_of cursor (fetch cursor s)
      pub keeps : (r : Row) (s : State) → Good s → Good (handle r s)

    module _ (Q : Queries) where
      fetch_later :
          (cursor : ℕ) (rows : List Row) (s : State)
          → All (λ r. id_of r ≤ cursor) rows
          → fetch cursor (handle_all id_of handle rows s) ≡ fetch cursor s
      fetch_later cursor [] s h = refl
      fetch_later cursor (r ∷ rows) s (here, rest) =
          fetch_later cursor rows (handle r s) rest ∙ Q.stable cursor r s here

      Good-handle_all :
          (rows : List Row) (s : State) → Good s → Good (handle_all id_of handle rows s)
      Good-handle_all [] s h = h
      Good-handle_all (r ∷ rows) s h = Good-handle_all rows (handle r s) (Q.keeps r s h)

      -- With more pages than rows, the loop handles every row of the query, in order and once.
      pub pages_all :
          (batch_size bound cursor : ℕ) (s : State)
          → 1 ≤ batch_size
          → length (fetch cursor s) < bound
          → Good s
          → pages id_of handle fetch batch_size bound cursor s
            ≡ handle_all id_of handle (fetch cursor s) s
      unfolding pages
      pages_all n zero cursor s h1 h2 good = absurd (omega arith)
      pages_all n (suc bound) cursor s h1 h2 good =
          split (ltb (length (take n rows)) n) refl (pages_all n bound last after h1)
        where
          rows : List Row
          rows = fetch cursor s

          last : ℕ
          last = last_id id_of handle cursor (take n rows)

          after : State
          after = handle_all id_of handle (take n rows) s

          behind : fetch last after ≡ drop n rows
          behind =
              fetch_later last (take n rows) s (below_last cursor (take n rows))
              ∙ Q.narrows cursor last s (last_id-le cursor (take n rows))
              ∙ filter_by-drop n cursor rows (Q.in_order cursor s good)

          split :
              (b : Bool)
              → ltb (length (take n rows)) n ≡ b
              → (length (fetch last after) < bound
                  → Good after
                  → pages id_of handle fetch n bound last after
                    ≡ handle_all id_of handle (fetch last after) after)
              → (if b then after else pages id_of handle fetch n bound last after)
                ≡ handle_all id_of handle rows s
          split true e later =
              ap (λ rs. handle_all id_of handle rs s) (take_all n rows (ltb→lt _ _ e))
          split false e later =
              let short = length-drop n rows h1 (ground arith) in
              let fewer = ap length behind in
              later (omega arith) (Good-handle_all (take n rows) s good)
              ∙ ap (λ rs. handle_all id_of handle rs after) behind
              ∙ sym (handle_all-take n rows s)
