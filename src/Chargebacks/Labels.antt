-- ===== src/Chargebacks/Labels.antt =====
-- What stays true of the labels that simulator/chargebacks.py writes while archival/archiver.py moves the
-- orders.
use fraud_forecast.Base.{
  ℕ, ◌≡◌, refl, sym, subst, Bool, true, false, ◌||◌, some, is_some, List, [], ◌∷◌, ◌++◌,
  if◌then◌else◌, arith, All, All-map,
}
use fraud_forecast.Tables.{
  chargeback, refund_abuse, OrderRow, Chargeback, Refund, Database, row_key, key_eq,
}
use fraud_forecast.Chargebacks.Emit.{
  Candidate, candidate_key, has_chargeback, has_refund, insert_chargeback, insert_refund, charge,
  update_charged, outcome_of, emit,
}

-- The fields of a row agree with each other and with the rows that explain them.
pub record Labelled (cbs : List Chargeback) (refunds : List Refund) (r : OrderRow) : Type 0 where
  pub amount : is_some r.chargeback_amount_pence ≡ is_some r.chargeback_received_at
  pub recorded : is_some r.chargeback_received_at ≡ true → has_chargeback r.order_id cbs ≡ true
  pub labelled : is_some r.chargeback_received_at ≡ true → is_some r.fraud_outcome ≡ true
  pub charged : r.fraud_outcome ≡ some chargeback → is_some r.chargeback_received_at ≡ true
  pub refunded : r.fraud_outcome ≡ some refund_abuse → has_refund r.order_id refunds ≡ true

abbrev pub AllLabelled : Database → Type 0
AllLabelled db =
    All (Labelled db.chargebacks db.refunds) db.orders
    × All (Labelled db.chargebacks db.refunds) db.orders_archive

has_chargeback-append :
    (k : ℕ) (xs ys : List Chargeback)
    → has_chargeback k (xs ++ ys) ≡ (has_chargeback k xs || has_chargeback k ys)
has_chargeback-append k [] ys = refl
has_chargeback-append k (x ∷ xs) ys = let ih = has_chargeback-append k xs ys in ground arith

has_refund-append :
    (k : ℕ) (xs ys : List Refund) → has_refund k (xs ++ ys) ≡ (has_refund k xs || has_refund k ys)
has_refund-append k [] ys = refl
has_refund-append k (x ∷ xs) ys = let ih = has_refund-append k xs ys in ground arith

-- An insertion keeps what was there, and its own row is there.
insert_chargeback_keeps :
    (k : ℕ) (cb : Chargeback) (cbs : List Chargeback)
    → has_chargeback k cbs ≡ true
    → has_chargeback k (insert_chargeback cb cbs) ≡ true
unfolding insert_chargeback
insert_chargeback_keeps k cb cbs h =
    let added = has_chargeback-append k cbs (cb ∷ []) in ground arith

insert_chargeback_there :
    (cb : Chargeback) (cbs : List Chargeback)
    → has_chargeback cb.order_id (insert_chargeback cb cbs) ≡ true
unfolding insert_chargeback
insert_chargeback_there cb cbs =
    let added = has_chargeback-append cb.order_id cbs (cb ∷ []) in ground arith

pub insert_refund_keeps :
    (k : ℕ) (r : Refund) (rs : List Refund)
    → has_refund k rs ≡ true
    → has_refund k (insert_refund r rs) ≡ true
unfolding insert_refund
insert_refund_keeps k r rs h = let added = has_refund-append k rs (r ∷ []) in ground arith

charge-Labelled :
    (c : Candidate) (received_at : ℕ) (cbs cbs' : List Chargeback) (refunds : List Refund)
    (r : OrderRow)
    → ((k : ℕ) → has_chargeback k cbs ≡ true → has_chargeback k cbs' ≡ true)
    → has_chargeback c.order_id cbs' ≡ true
    → Labelled cbs refunds r
    → Labelled cbs' refunds (
        if key_eq (row_key r) (candidate_key c)
        then charge received_at c.total_pence (outcome_of c.is_fraud) r
        else r)
charge-Labelled c received_at cbs cbs' refunds r keep there h =
    split (key_eq (row_key r) (candidate_key c)) refl
  where
    new :
        (b : Bool)
        → r.order_id ≡ c.order_id
        → Labelled cbs' refunds (charge received_at c.total_pence (outcome_of b) r)
    new true e = record {
      amount = refl;
      recorded = λ s. subst (λ k. has_chargeback k cbs' ≡ true) (sym e) there;
      labelled = λ s. refl;
      charged = λ s. refl;
      refunded = λ s. absurd (cc s);
    }
    new false e = record {
      amount = refl;
      recorded = λ s. subst (λ k. has_chargeback k cbs' ≡ true) (sym e) there;
      labelled = λ s. refl;
      charged = λ s. refl;
      refunded = λ s. absurd (cc s);
    }

    split :
        (b : Bool)
        → key_eq (row_key r) (candidate_key c) ≡ b
        → Labelled cbs' refunds
            (if b then charge received_at c.total_pence (outcome_of c.is_fraud) r else r)
    split true e = new c.is_fraud (ground arith)
    split false e = record {
      amount = h.amount;
      recorded = λ s. keep r.order_id (h.recorded s);
      labelled = h.labelled;
      charged = h.charged;
      refunded = h.refunded;
    }

pub emit-AllLabelled :
    (c : Candidate) (received_at : ℕ) (db : Database)
    → AllLabelled db
    → AllLabelled (emit c received_at db)
unfolding emit update_charged
emit-AllLabelled c received_at db (hot, archived) =
    let row = λ (r : OrderRow) (h : Labelled db.chargebacks db.refunds r).
      charge-Labelled c received_at db.chargebacks (emit c received_at db).chargebacks db.refunds r
        (λ k. insert_chargeback_keeps k _ db.chargebacks) (insert_chargeback_there _ db.chargebacks)
        h in
    (
      All-map (Labelled db.chargebacks db.refunds) _ _ db.orders row hot,
      All-map (Labelled db.chargebacks db.refunds) _ _ db.orders_archive row archived,
    )
