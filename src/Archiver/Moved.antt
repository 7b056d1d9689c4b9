-- ===== src/Archiver/Moved.antt =====
-- What a run of archival/archiver.py does to the rows: none is lost, none appears.
use fraud_forecast.Base.{
  ℕ, zero, suc, ◌+◌, ◌≡◌, refl, Bool, true, false, not, Option, none, some, List, [], ◌∷◌, ◌++◌,
  length, sum_by, ◌∙◌, sum_by-append, filter_by, if◌then◌else◌, arith, Bool-cases, inl, inr,
}
use fraud_forecast.Tables.{OrderRow, ChildRow, Database, Key, row_key, child_key, has_key}
use fraud_forecast.Archiver.{
  Sweep, archived_orders, move, batch_keys, archive_one_batch, add_moved, after_batch, passes,
  run_once,
}

module _ {A : Type 0} where
  pub sum_by-parts :
      (f : A → ℕ) (p : A → Bool) (xs : List A)
      → sum_by f (filter_by (λ x. not (p x)) xs) + sum_by f (filter_by p xs) ≡ sum_by f xs
  sum_by-parts f p [] = refl
  sum_by-parts f p (x ∷ xs) =
      let ih = sum_by-parts f p xs in
      elim (Bool-cases (p x)) [ inl h ↦ ground arith | inr h ↦ ground arith ]

-- Hot and archived rows together are the same rows: whatever is summed over them stays.
pub record Conserved (db after : Database) : Type 0 where
  pub orders :
      (f : OrderRow → ℕ)
      → sum_by f after.orders + sum_by f after.orders_archive
        ≡ sum_by f db.orders + sum_by f db.orders_archive
  pub items :
      (f : ChildRow → ℕ)
      → sum_by f after.order_items + sum_by f after.order_items_archive
        ≡ sum_by f db.order_items + sum_by f db.order_items_archive
  pub events :
      (f : ChildRow → ℕ)
      → sum_by f after.order_events + sum_by f after.order_events_archive
        ≡ sum_by f db.order_events + sum_by f db.order_events_archive
  pub others : (after.chargebacks ≡ db.chargebacks) × (after.refunds ≡ db.refunds)

-- What a transaction does: it fails and changes nothing, or it moves the keys that it chose.
pub data Batch (batch_size : ℕ) (sweep : Sweep) (db : Database) : Option ℕ × Database → Type 0 where
  rolled_back : Batch batch_size sweep db (none, db)
  moved : Batch batch_size sweep db (
    some (length (archived_orders (batch_keys batch_size sweep db) db.orders)),
    move (batch_keys batch_size sweep db) db,
  )

pub archive_one_batch-Batch :
    (batch_size : ℕ) (sweep : Sweep) (db : Database)
    → Batch batch_size sweep db (archive_one_batch batch_size sweep db)
unfolding archive_one_batch
archive_one_batch-Batch batch_size sweep db = split sweep.fails
  where
    split :
        (b : Bool)
        → Batch batch_size sweep db (
            if b then (none, db) else (
              some (length (archived_orders (batch_keys batch_size sweep db) db.orders)),
              move (batch_keys batch_size sweep db) db,
            ))
    split true = rolled_back
    split false = moved

-- A relation that every transaction gives and that composes holds of a run.
module _ (Q : Database → Database → Type 0) (same : (db : Database) → Q db db)
    (trans : (a b c : Database) → Q a b → Q b c → Q a c)
    (step : (keys : List Key) (db : Database) → Q db (move keys db)) where
  Batch-Q :
      {batch_size : ℕ} {sweep : Sweep} {db : Database} {r : Option ℕ × Database}
      → Batch batch_size sweep db r
      → Q db r.1
  Batch-Q {db} rolled_back = same db
  Batch-Q {batch_size} {sweep} {db} moved = step (batch_keys batch_size sweep db) db

  add_moved-Q :
      {db : Database} (n : ℕ) (r : Option ℕ × Database) → Q db r.1 → Q db (add_moved n r).1
  add_moved-Q n (none, d) q = q
  add_moved-Q n (some t, d) q = q

  after_batch-Q :
      {db : Database} (r : Option ℕ × Database) (rest : Database → Option ℕ × Database)
      → Q db r.1
      → ((d : Database) → Q d (rest d).1)
      → Q db (after_batch r rest).1
  after_batch-Q (none, d) rest h later = h
  after_batch-Q (some zero, d) rest h later = h
  after_batch-Q {db} (some (suc n), d) rest h later =
      add_moved-Q (suc n) (rest d) (trans db d (rest d).1 h (later d))

  passes-Q :
      (batch_size : ℕ) (sweeps : ℕ → Sweep) (batch_num left : ℕ) (db : Database)
      → Q db (passes batch_size sweeps batch_num left db).1
  unfolding passes
  passes-Q batch_size sweeps batch_num zero db = same db
  passes-Q batch_size sweeps batch_num (suc left) db =
      after_batch-Q (archive_one_batch batch_size (sweeps batch_num) db) _
        (Batch-Q (archive_one_batch-Batch batch_size (sweeps batch_num) db))
        (passes-Q batch_size sweeps (suc batch_num) left)

  pub run_once-Q :
      (batch_size max_batches : ℕ) (sweeps : ℕ → Sweep) (db : Database)
      → Q db (run_once batch_size max_batches sweeps db).1
  unfolding run_once
  run_once-Q batch_size max_batches sweeps db = passes-Q batch_size sweeps 1 max_batches db

-- Two parts of a table, after some rows went from the one to the other.
moved_sum :
    {A : Type 0} (f : A → ℕ) (p : A → Bool) (hot archive : List A)
    → sum_by f (filter_by (λ x. not (p x)) hot) + sum_by f (archive ++ filter_by p hot)
      ≡ sum_by f hot + sum_by f archive
moved_sum f p hot archive =
    omega (arith, sum_by-append f archive (filter_by p hot), sum_by-parts f p hot)

pub move-Conserved : (keys : List Key) (db : Database) → Conserved db (move keys db)
unfolding move
move-Conserved keys db = record {
  orders = λ f. moved_sum f (λ r. has_key (row_key r) keys) db.orders db.orders_archive;
  items = λ f. moved_sum f (λ c. has_key (child_key c) keys) db.order_items db.order_items_archive;
  events =
      λ f. moved_sum f (λ c. has_key (child_key c) keys) db.order_events db.order_events_archive;
  others = (refl, refl);
}

-- A run neither loses nor makes a row, whichever transactions fail and whatever they choose: orders,
-- items and events sum to the same over the hot table and its archive.
pub run_once-Conserved :
    (batch_size max_batches : ℕ) (sweeps : ℕ → Sweep) (db : Database)
    → Conserved db (run_once batch_size max_batches sweeps db).1
run_once-Conserved =
    run_once-Q Conserved
      (λ db. record {
        orders = λ f. refl;
        items = λ f. refl;
        events = λ f. refl;
        others = (refl, refl);
      })
      (λ a b c p q. record {
        orders = λ f. q.orders f ∙ p.orders f;
        items = λ f. q.items f ∙ p.items f;
        events = λ f. q.events f ∙ p.events f;
        others = (q.others.0 ∙ p.others.0, q.others.1 ∙ p.others.1);
      })
      move-Conserved
