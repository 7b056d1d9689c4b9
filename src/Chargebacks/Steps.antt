-- ===== src/Chargebacks/Steps.antt =====
-- The daemon of simulator/chargebacks.py, the bulk generator's call of it and archival/archiver.py, in any
-- order.
use fraud_forecast.Base.{
  ℕ, suc, zero, ◌≡◌, refl, Bool, true, false, not, ◌&&◌, Option, none, some, is_some, List, [], ◌∷◌,
  ltb, length, if◌then◌else◌, arith, All, All-map, All-filter_by, All-append,
}
use fraud_forecast.Base.Float.{Floats}
use fraud_forecast.Tables.{
  FraudOutcome, chargeback, refund_abuse, legit, OrderRow, Chargeback, Refund, Database, Key,
}
use fraud_forecast.Archiver.{Sweep, move, run_once}
use fraud_forecast.Archiver.Moved.{run_once-Q}
use fraud_forecast.Chargebacks.{Truth, Python}
use fraud_forecast.Chargebacks.Emit.{
  Candidate, has_refund, emit, one_candidate, emit_found, bulk_emit_chargeback, should_emit,
  emit_found_due, maybe_emit_chargeback,
}
use fraud_forecast.Chargebacks.Paging.{take, handle_all, last_id, pages}
use fraud_forecast.Chargebacks.Daemon.{
  handle_chargeback, generate_chargebacks, issue, refund_due, handle_refund, generate_refunds,
  is_stale, label, finalize_legit, finalize_refund_abuse, finalize_stale_labels,
}
use fraud_forecast.Chargebacks.Labels.{Labelled, AllLabelled, emit-AllLabelled, insert_refund_keeps}

-- A property that every handled row keeps is kept by the paged loop.
module _ {Row State : Type 0} (id_of : Row → ℕ) (handle : Row → State → State) (P : State → Type 0)
    (keep : (r : Row) (s : State) → P s → P (handle r s)) where
  handle_all-P : (rows : List Row) (s : State) → P s → P (handle_all id_of handle rows s)
  handle_all-P [] s h = h
  handle_all-P (r ∷ rows) s h = handle_all-P rows (handle r s) (keep r s h)

  pub pages-P :
      (fetch : ℕ → State → List Row) (batch_size bound cursor : ℕ) (s : State)
      → P s
      → P (pages id_of handle fetch batch_size bound cursor s)
  unfolding pages
  pages-P fetch n zero cursor s h = h
  pages-P fetch n (suc bound) cursor s h =
      split (ltb (length (take n (fetch cursor s))) n) (handle_all-P (take n (fetch cursor s)) s h)
        (pages-P fetch n bound (last_id id_of handle cursor (take n (fetch cursor s)))
          (handle_all id_of handle (take n (fetch cursor s)) s))
    where
      after : State
      after = handle_all id_of handle (take n (fetch cursor s)) s

      split :
          (b : Bool)
          → P after
          → (P after
              → P (
                  pages id_of handle fetch n bound
                    (last_id id_of handle cursor (take n (fetch cursor s)))
                    after))
          → P (
              if b
              then after
              else pages id_of handle fetch n bound
                  (last_id id_of handle cursor (take n (fetch cursor s)))
                  after)
      split true h' later = h'
      split false h' later = later h'

more_refunds :
    (cbs : List Chargeback) (rs rs' : List Refund) (rows : List OrderRow)
    → ((k : ℕ) → has_refund k rs ≡ true → has_refund k rs' ≡ true)
    → All (Labelled cbs rs) rows
    → All (Labelled cbs rs') rows
more_refunds cbs rs rs' [] keep h = tt
more_refunds cbs rs rs' (r ∷ rows) keep (h, rest) = (
  record {
    amount = h.amount;
    recorded = h.recorded;
    labelled = h.labelled;
    charged = h.charged;
    refunded = λ e. keep r.order_id (h.refunded e);
  },
  more_refunds cbs rs rs' rows keep rest,
)

-- A label on a row that had none.
label-Labelled :
    (cbs : List Chargeback) (rs : List Refund) (r : OrderRow) (outcome : FraudOutcome)
    → is_some r.fraud_outcome ≡ false
    → (some outcome ≡ some chargeback → is_some r.chargeback_received_at ≡ true)
    → (some outcome ≡ some refund_abuse → has_refund r.order_id rs ≡ true)
    → Labelled cbs rs r
    → Labelled cbs rs (label outcome r)
label-Labelled cbs rs r outcome none_yet ch re h = record {
  amount = h.amount;
  recorded = h.recorded;
  labelled = λ e. refl;
  charged = ch;
  refunded = re;
}

legit-Labelled :
    (now : ℕ) (cbs : List Chargeback) (rs : List Refund) (r : OrderRow)
    → Labelled cbs rs r
    → Labelled cbs rs
        (if is_stale now r && not (has_refund r.order_id rs) then label legit r else r)
legit-Labelled now cbs rs r h = split (is_stale now r && not (has_refund r.order_id rs)) refl
  where
    split :
        (b : Bool)
        → (is_stale now r && not (has_refund r.order_id rs)) ≡ b
        → Labelled cbs rs (if b then label legit r else r)
    split true e = label-Labelled cbs rs r legit (ground arith) (λ p. cc) (λ p. cc) h
    split false e = h

abuse-Labelled :
    (now : ℕ) (cbs : List Chargeback) (rs : List Refund) (r : OrderRow)
    → Labelled cbs rs r
    → Labelled cbs rs
        (if is_stale now r && has_refund r.order_id rs then label refund_abuse r else r)
abuse-Labelled now cbs rs r h = split (is_stale now r && has_refund r.order_id rs) refl
  where
    split :
        (b : Bool)
        → (is_stale now r && has_refund r.order_id rs) ≡ b
        → Labelled cbs rs (if b then label refund_abuse r else r)
    split true e =
        label-Labelled cbs rs r refund_abuse (ground arith) (λ p. cc) (λ p. ground arith) h
    split false e = h

finalized-Labelled :
    (now now' : ℕ) (cbs : List Chargeback) (rs : List Refund) (rows : List OrderRow)
    → All (Labelled cbs rs) rows
    → All (Labelled cbs rs) (finalize_refund_abuse now' rs (finalize_legit now rs rows))
unfolding finalize_legit finalize_refund_abuse
finalized-Labelled now now' cbs rs rows h =
    All-map (Labelled cbs rs) (Labelled cbs rs) _ _ (abuse-Labelled now' cbs rs)
      (All-map (Labelled cbs rs) (Labelled cbs rs) _ rows (legit-Labelled now cbs rs) h)

move-AllLabelled : (keys : List Key) (db : Database) → AllLabelled db → AllLabelled (move keys db)
unfolding move
move-AllLabelled keys db (hot, archived) = (
  All-filter_by (Labelled db.chargebacks db.refunds) _ db.orders hot,
  All-append (Labelled db.chargebacks db.refunds) db.orders_archive _ archived
      (All-filter_by (Labelled db.chargebacks db.refunds) _ db.orders hot),
)

module _ (truths : ℕ → Option Truth) (F : Floats) (py : Python F.Float) where
  -- One run of a daemon or one call, with the times and limits that it has.
  pub data Step (db : Database) : Database → Type 0 where
    bulk_emits :
        (order_id received_at : ℕ) → Step db (bulk_emit_chargeback truths order_id received_at db)
    emits : (order_id now : ℕ) → Step db (maybe_emit_chargeback truths F py order_id now db)
    charges :
        (bound batch_size now sql_now : ℕ) (clock : ℕ → ℕ)
        → Step db (generate_chargebacks truths F py bound batch_size now sql_now clock db)
    refunds :
        (bound batch_size now sql_now : ℕ)
        → Step db (generate_refunds truths F py bound batch_size now sql_now db)
    finalizes : (now1 now2 now3 now4 : ℕ) → Step db (finalize_stale_labels now1 now2 now3 now4 db)
    archives :
        (batch_size max_batches : ℕ) (sweeps : ℕ → Sweep)
        → Step db (run_once batch_size max_batches sweeps db).1

  pub data Steps (db : Database) : Database → Type 0 where
    done : Steps db db
    then_step : {mid after : Database} → Steps db mid → Step mid after → Steps db after

  found-AllLabelled :
      (o : Option Candidate) (received_at : ℕ) (db : Database)
      → AllLabelled db
      → AllLabelled (emit_found truths o received_at db)
  found-AllLabelled none received_at db h = h
  found-AllLabelled (some c) received_at db h = emit-AllLabelled c received_at db h

  due-AllLabelled :
      (b : Bool) (c : Candidate) (received_at : ℕ) (db : Database)
      → AllLabelled db
      → AllLabelled (if b then emit c received_at db else db)
  due-AllLabelled true c received_at db h = emit-AllLabelled c received_at db h
  due-AllLabelled false c received_at db h = h

  found_due-AllLabelled :
      (now : ℕ) (o : Option Candidate) (db : Database)
      → AllLabelled db
      → AllLabelled (emit_found_due truths F py now o db)
  found_due-AllLabelled now none db h = h
  found_due-AllLabelled now (some c) db h =
      due-AllLabelled (should_emit truths F py now c) c now db h

  issue-AllLabelled :
      (b : Bool) (c : Candidate) (db : Database)
      → AllLabelled db
      → AllLabelled (if b then issue truths F py c db else db)
  issue-AllLabelled true c db (hot, archived) = (
    more_refunds db.chargebacks db.refunds _ db.orders (λ k. insert_refund_keeps k _ db.refunds)
        hot,
    more_refunds db.chargebacks db.refunds _ db.orders_archive
        (λ k. insert_refund_keeps k _ db.refunds) archived,
  )
  issue-AllLabelled false c db h = h

  step-AllLabelled : {db after : Database} → Step db after → AllLabelled db → AllLabelled after
  unfolding bulk_emit_chargeback maybe_emit_chargeback generate_chargebacks generate_refunds
      handle_refund finalize_stale_labels
  step-AllLabelled {db} (bulk_emits order_id received_at) h =
      found-AllLabelled (one_candidate truths order_id db) received_at db h
  step-AllLabelled {db} (emits order_id now) h =
      found_due-AllLabelled now (one_candidate truths order_id db) db h
  step-AllLabelled {db} (charges bound n now sql_now clock) h =
      pages-P _ (handle_chargeback truths F py now clock) AllLabelled
        (λ c s. due-AllLabelled (should_emit truths F py now c) c (clock c.order_id) s) _ n bound 0
        db h
  step-AllLabelled {db} (refunds bound n now sql_now) h =
      pages-P _ (handle_refund truths F py now) AllLabelled
        (λ c s. issue-AllLabelled (refund_due truths F py now c) c s) _ n bound 0 db h
  step-AllLabelled {db} (finalizes n1 n2 n3 n4) (hot, archived) = (
    finalized-Labelled n1 n3 db.chargebacks db.refunds db.orders hot,
    finalized-Labelled n2 n4 db.chargebacks db.refunds db.orders_archive archived,
  )
  step-AllLabelled {db} (archives n max_batches sweeps) h =
      run_once-Q (λ a b. AllLabelled a → AllLabelled b) (λ d p. p) (λ a b c p q r. q (p r))
        move-AllLabelled n max_batches sweeps db h

  -- Whatever the daemons do and in whatever order, with the archiver between them, the labels stay
  -- sound: a time of a chargeback comes with its amount, its record and a label, the label of a
  -- chargeback has such a time, and the label of refund abuse has a refund.
  pub Steps-AllLabelled :
      {db after : Database} → Steps db after → AllLabelled db → AllLabelled after
  Steps-AllLabelled done h = h
  Steps-AllLabelled (then_step before step) h = step-AllLabelled step (Steps-AllLabelled before h)
