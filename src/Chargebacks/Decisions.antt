-- ===== src/Chargebacks/Decisions.antt =====
-- The decisions of simulator/chargebacks.py: bulk generation and the daemon agree, and old labels are final.
use fraud_forecast.Base.{
  ℕ, ◌≤◌, ◌≡◌, refl, sym, ◌∙◌, Bool, true, false, not, ◌&&◌, Option, none, some, List, [], ◌∷◌, map,
  ltb, if◌then◌else◌, arith,
}
use fraud_forecast.Base.Float.{Floats}
use fraud_forecast.Tables.{refund_abuse, legit, OrderRow, Refund, Database}
use fraud_forecast.Chargebacks.{
  FraudCategory, Python, seed_of, days_to_chargeback_threshold, chargeback_age_allowed, drawn,
  min_time, bulk_chargeback_received_at, should_chargeback_now,
}
use fraud_forecast.Chargebacks.Emit.{has_refund}
use fraud_forecast.Chargebacks.Daemon.{
  is_stale, label, finalize_legit, finalize_refund_abuse, finalize_stale_labels,
}

module _ (F : Floats) (py : Python F.Float) (order_id delivered_at : ℕ) (is_fraud : Bool)
    (category : Option FraudCategory) where
  abbrev threshold : F.Float
  threshold = days_to_chargeback_threshold F py (seed_of order_id) is_fraud

  -- What it means that bulk generation charges an order back at `t`.
  pub record ChargedBackAt (window_end t : ℕ) : Type 0 where
    pub at_threshold : t ≡ py.plus_days delivered_at threshold
    pub in_window : t ≤ window_end
    pub live :
        (now : ℕ)
        → chargeback_age_allowed F py (py.days_since now delivered_at) ≡ true
        → F.le threshold (py.days_since now delivered_at) ≡ true
        → should_chargeback_now F py now order_id delivered_at is_fraud category ≡ true

  live_when_drawn :
      (now : ℕ)
      → drawn F py order_id is_fraud category ≡ true
      → chargeback_age_allowed F py (py.days_since now delivered_at) ≡ true
      → F.le threshold (py.days_since now delivered_at) ≡ true
      → should_chargeback_now F py now order_id delivered_at is_fraud category ≡ true
  unfolding should_chargeback_now
  live_when_drawn now d a l = rw (a, l, d) refl

  -- An order that bulk generation charges back is charged back at its threshold, within the window,
  -- and the live emitter decides the same at every time at which its age is allowed and has reached
  -- the threshold.
  pub bulk_chargeback_received_at-ChargedBackAt :
      (window_end t : ℕ)
      → bulk_chargeback_received_at F py order_id delivered_at is_fraud category window_end ≡ some t
      → ChargedBackAt window_end t
  unfolding bulk_chargeback_received_at
  bulk_chargeback_received_at-ChargedBackAt window_end t =
      split (ltb window_end at) refl (chargeback_age_allowed F py (py.days_since at delivered_at))
        (drawn F py order_id is_fraud category) refl
    where
      at : ℕ
      at = py.plus_days delivered_at threshold

      split :
          (late : Bool)
          → ltb window_end at ≡ late
          → (allowed chosen : Bool) → drawn F py order_id is_fraud category ≡ chosen
          → (if late
              then none
              else if not allowed
              then none
              else if not chosen
              then none
              else some (min_time at window_end))
            ≡ some t
          → ChargedBackAt window_end t
      split true e allowed chosen d h = absurd (cc h)
      split false e false chosen d h = absurd (cc h)
      split false e true false d h = absurd (cc h)
      split false e true true d h =
          let same : min_time at window_end ≡ t = cc in
          record {
            at_threshold = sym same ∙ (rw e refl);
            in_window = ground arith;
            live = λ now a l. live_when_drawn now d a l;
          }

-- The label that an old order without one gets, by whether it was refunded.
abbrev pub final : (now : ℕ) → List Refund → OrderRow → OrderRow
final now refunds r =
    if is_stale now r
    then label (if has_refund r.order_id refunds then refund_abuse else legit) r
    else r

finalize_row :
    (now : ℕ) (refunds : List Refund) (r : OrderRow)
    → (let r' =
          if is_stale now r && not (has_refund r.order_id refunds) then label legit r else r in
        (if is_stale now r' && has_refund r'.order_id refunds then label refund_abuse r' else r')
        ≡ final now refunds r)
finalize_row now refunds r = ground arith

finalized :
    (now : ℕ) (refunds : List Refund) (rows : List OrderRow)
    → finalize_refund_abuse now refunds (finalize_legit now refunds rows)
      ≡ map (final now refunds) rows
unfolding finalize_refund_abuse finalize_legit
finalized now refunds [] = refl
finalized now refunds (r ∷ rows) = rw (finalize_row now refunds r, finalized now refunds rows) refl

-- The four statements of finalize_stale_labels at one time are one pass over both tables: an order that
-- was delivered more than 60 days ago and has no label gets one by whether it was refunded, and every
-- other row stays.
pub finalize_stale_labels_pass :
    (now : ℕ) (db : Database)
    → finalize_stale_labels now now now now db ≡ (record db {
      orders = map (final now db.refunds) db.orders;
      orders_archive = map (final now db.refunds) db.orders_archive;
    })
unfolding finalize_stale_labels
finalize_stale_labels_pass now db =
    rw (finalized now db.refunds db.orders, finalized now db.refunds db.orders_archive) refl
