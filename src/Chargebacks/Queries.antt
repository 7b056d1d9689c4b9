-- ===== src/Chargebacks/Queries.antt =====
-- generate_chargebacks and generate_refunds of simulator/chargebacks.py: the pages together are the query
-- without its limit.
use fraud_forecast.Base.{
  ℕ, ◌≤◌, ◌<◌, ◌≡◌, refl, sym, ap, ◌∙◌, subst, Bool, true, false, ◌||◌, Option, List, [], ◌∷◌, ◌++◌,
  map, ltb, length, if◌then◌else◌, arith, Bool-cases, inl, inr,
}
use fraud_forecast.Base.Float.{Floats}
use fraud_forecast.Tables.{OrderRow, Refund, Database, row_key, key_eq}
use fraud_forecast.Tables.Keys.{map-append}
use fraud_forecast.Chargebacks.{Truth, Python, refund_due_at_hours}
use fraud_forecast.Chargebacks.Emit.{
  Candidate, candidate_key, charge, update_charged, outcome_of, emit, should_emit, has_refund,
  insert_refund,
}
use fraud_forecast.Chargebacks.Daemon.{
  select, chargeback_test, chargeback_candidates, refund_test, refund_candidates, handle_chargeback,
  generate_chargebacks, issue, refund_due, handle_refund, generate_refunds,
}
use fraud_forecast.Chargebacks.Paging.{handle_all}
use fraud_forecast.Chargebacks.PagedAll.{Queries, pages_all}
use fraud_forecast.Chargebacks.Ordered.{
  ids, Different, select_narrows, select_changed, select_same, select-InOrder,
}

-- The orders of both tables have different ids.
abbrev pub rows_of : Database → List OrderRow
rows_of db = db.orders ++ db.orders_archive

abbrev change : Candidate → ℕ → OrderRow → OrderRow
change c received_at r =
    if key_eq (row_key r) (candidate_key c)
    then charge received_at c.total_pence (outcome_of c.is_fraud) r
    else r

pub emit_rows :
    (c : Candidate) (received_at : ℕ) (db : Database)
    → rows_of (emit c received_at db) ≡ map (change c received_at) (rows_of db)
unfolding emit update_charged
emit_rows c received_at db = sym (map-append (change c received_at) db.orders db.orders_archive)

ids-change :
    (c : Candidate) (received_at : ℕ) (rows : List OrderRow)
    → ids (map (change c received_at) rows) ≡ ids rows
ids-change c received_at [] = refl
ids-change c received_at (r ∷ rows) = let ih = ids-change c received_at rows in ground arith

has_refund-append :
    (k : ℕ) (rs qs : List Refund) → has_refund k (rs ++ qs) ≡ (has_refund k rs || has_refund k qs)
has_refund-append k [] qs = refl
has_refund-append k (r ∷ rs) qs = let ih = has_refund-append k rs qs in ground arith

has_refund-insert_refund :
    (k : ℕ) (refund : Refund) (rs : List Refund)
    → refund.order_id < k
    → has_refund k (insert_refund refund rs) ≡ has_refund k rs
unfolding insert_refund
has_refund-insert_refund k refund rs h =
    let added = has_refund-append k rs (refund ∷ []) in
    elim (Bool-cases (has_refund refund.order_id rs)) [
      | inl e ↦ rw (e, insert_refund) refl
      | inr e ↦ rw (e, insert_refund) (ground arith)
    ]

module _ (truths : ℕ → Option Truth) (F : Floats) (py : Python F.Float) where
  -- What holds after a chargeback and without it.
  due_or_not :
      (P : Database → Type 0) (now : ℕ) (clock : ℕ → ℕ) (c : Candidate) (db : Database)
      → P db
      → P (emit c (clock c.order_id) db)
      → P (handle_chargeback truths F py now clock c db)
  due_or_not P now clock c db p q = split (should_emit truths F py now c)
    where
      split : (b : Bool) → P (if b then emit c (clock c.order_id) db else db)
      split true = q
      split false = p

  emit_behind :
      (sql_now cursor received_at : ℕ) (c : Candidate) (db : Database)
      → c.order_id ≤ cursor
      → select truths (chargeback_test truths sql_now cursor) (rows_of (emit c received_at db))
        ≡ select truths (chargeback_test truths sql_now cursor) (rows_of db)
  emit_behind sql_now cursor received_at c db h =
      ap (select truths (chargeback_test truths sql_now cursor)) (emit_rows c received_at db)
      ∙ select_changed truths (chargeback_test truths sql_now cursor) (change c received_at)
          (rows_of db)
          (λ r. elim (Bool-cases (key_eq (row_key r) (candidate_key c))) [
            | inl e ↦ inr (ground arith, ground arith)
            | inr e ↦ inl (rw e refl)
          ])

  emit-Different :
      (received_at : ℕ) (c : Candidate) (db : Database)
      → Different (ids (rows_of db))
      → Different (ids (rows_of (emit c received_at db)))
  emit-Different received_at c db =
      subst Different
        (sym (ap ids (emit_rows c received_at db) ∙ ids-change c received_at (rows_of db)))

  chargeback_queries :
      (now sql_now : ℕ) (clock : ℕ → ℕ)
      → Queries
          (λ c. c.order_id)
          (handle_chargeback truths F py now clock)
          (chargeback_candidates truths sql_now)
          (λ db. Different (ids (rows_of db)))
  unfolding chargeback_candidates
  chargeback_queries now sql_now clock = record {
    narrows = λ cursor later db h.
        select_narrows truths later (chargeback_test truths sql_now cursor)
          (chargeback_test truths sql_now later) (rows_of db) (λ r. ground arith);
    stable = λ cursor c db h.
        due_or_not
          (λ d.
            select truths (chargeback_test truths sql_now cursor) (rows_of d)
            ≡ select truths (chargeback_test truths sql_now cursor) (rows_of db))
          now clock c db refl (emit_behind sql_now cursor (clock c.order_id) c db h);
    in_order = λ cursor db good.
        select-InOrder truths cursor (chargeback_test truths sql_now cursor) (rows_of db)
          (λ r e. ground arith) good;
    keeps = λ c db good.
        due_or_not (λ d. Different (ids (rows_of d))) now clock c db good
          (emit-Different (clock c.order_id) c db good);
  }

  due_or_not_refund :
      (P : Database → Type 0) (now : ℕ) (c : Candidate) (db : Database)
      → P db
      → P (issue truths F py c db)
      → P (handle_refund truths F py now c db)
  unfolding handle_refund
  due_or_not_refund P now c db p q = split (refund_due truths F py now c)
    where
      split : (b : Bool) → P (if b then issue truths F py c db else db)
      split true = q
      split false = p

  refund_behind :
      (cursor sql_now : ℕ) (c : Candidate) (db : Database) (r : OrderRow)
      → c.order_id ≤ cursor
      → refund_test truths sql_now cursor (issue truths F py c db).refunds r
        ≡ refund_test truths sql_now cursor db.refunds r
  refund_behind cursor sql_now c db r h = elim (Bool-cases (ltb cursor r.order_id)) [
    | inl e ↦
        let kept =
          has_refund-insert_refund r.order_id
            (record {
              order_id = c.order_id;
              order_placed_at = c.order_placed_at;
              amount_pence = c.total_pence;
              issued_at = py.plus_hours c.delivered_at (refund_due_at_hours F py c.order_id);
            })
            db.refunds (ground arith) in
        rw kept refl
    | inr e ↦ ground arith
  ]

  refund_queries :
      (now sql_now : ℕ)
      → Queries
          (λ c. c.order_id)
          (handle_refund truths F py now)
          (refund_candidates truths sql_now)
          (λ db. Different (ids (rows_of db)))
  unfolding refund_candidates handle_refund
  refund_queries now sql_now = record {
    narrows = λ cursor later db h.
        select_narrows truths later (refund_test truths sql_now cursor db.refunds)
          (refund_test truths sql_now later db.refunds) (rows_of db) (λ r. ground arith);
    stable = λ cursor c db h.
        due_or_not_refund
          (λ d.
            select truths (refund_test truths sql_now cursor d.refunds) (rows_of d)
            ≡ select truths (refund_test truths sql_now cursor db.refunds) (rows_of db))
          now c db refl
          (select_same truths _ _ (rows_of db) (λ r. refund_behind cursor sql_now c db r h));
    in_order = λ cursor db good.
        select-InOrder truths cursor (refund_test truths sql_now cursor db.refunds) (rows_of db)
          (λ r e. ground arith) good;
    keeps = λ c db good. due_or_not_refund (λ d. Different (ids (rows_of d))) now c db good good;
  }

  -- Where the orders of both tables have different ids and there are more pages than candidates, the
  -- paged loop of generate_chargebacks handles exactly what one query without a limit gives, in order.
  pub generate_chargebacks_all :
      (bound batch_size now sql_now : ℕ) (clock : ℕ → ℕ) (db : Database)
      → 1 ≤ batch_size
      → length (chargeback_candidates truths sql_now 0 db) < bound
      → Different (ids (rows_of db))
      → generate_chargebacks truths F py bound batch_size now sql_now clock db
        ≡ handle_all
            (λ c. c.order_id)
            (handle_chargeback truths F py now clock)
            (chargeback_candidates truths sql_now 0 db)
            db
  unfolding generate_chargebacks
  generate_chargebacks_all bound batch_size now sql_now clock db h1 h2 different =
      pages_all (λ c. c.order_id) (handle_chargeback truths F py now clock)
        (chargeback_candidates truths sql_now) _ (chargeback_queries now sql_now clock) batch_size
        bound 0 db h1 h2 different

  -- The same of generate_refunds.
  pub generate_refunds_all :
      (bound batch_size now sql_now : ℕ) (db : Database)
      → 1 ≤ batch_size
      → length (refund_candidates truths sql_now 0 db) < bound
      → Different (ids (rows_of db))
      → generate_refunds truths F py bound batch_size now sql_now db
        ≡ handle_all
            (λ c. c.order_id)
            (handle_refund truths F py now)
            (refund_candidates truths sql_now 0 db)
            db
  unfolding generate_refunds
  generate_refunds_all bound batch_size now sql_now db h1 h2 different =
      pages_all (λ c. c.order_id) (handle_refund truths F py now) (refund_candidates truths sql_now)
        _ (refund_queries now sql_now) batch_size bound 0 db h1 h2 different
