-- ===== src/Archiver/Complete.antt =====
-- How many orders a run of archival/archiver.py moves.
use fraud_forecast.Base.{
  ℕ, zero, suc, ◌-◌, ◌*◌, ◌≤◌, min, ◌≡◌, refl, ap, Bool, true, false, Option, none, some, List, [],
  ◌∷◌, map, length, filter_by, if◌then◌else◌, arith,
}
use fraud_forecast.Tables.{OrderRow, Database, Key, row_key, key_eq, has_key}
use fraud_forecast.Tables.Keys.{has_key-filter_by}
use fraud_forecast.Archiver.{
  Sweep, eligible, terminal_orders, left_orders, archived_orders, move, batch_keys,
  archive_one_batch, add_moved, after_batch, passes, run_once,
}

-- The primary key: no two rows have the same.
abbrev pub Distinct : List OrderRow → Type 0
Distinct [] = Unit
Distinct (r ∷ rows) = (has_key (row_key r) (map row_key rows) ≡ false) × Distinct rows

Distinct-filter_by :
    (p : OrderRow → Bool) (rows : List OrderRow) → Distinct rows → Distinct (filter_by p rows)
Distinct-filter_by p [] h = tt
Distinct-filter_by p (r ∷ rows) (here, rest) = split (p r) (Distinct-filter_by p rows rest)
  where
    split :
        (b : Bool)
        → Distinct (filter_by p rows)
        → Distinct (if b then r ∷ filter_by p rows else filter_by p rows)
    split true ih = (has_key-filter_by (row_key r) p rows here, ih)
    split false ih = ih

-- A key that no row has plays no part.
archived_orders_other :
    (k : Key) (ks : List Key) (rows : List OrderRow)
    → has_key k (map row_key rows) ≡ false
    → archived_orders (k ∷ ks) rows ≡ archived_orders ks rows
archived_orders_other k ks [] h = refl
archived_orders_other k ks (r ∷ rows) h =
    let ih = archived_orders_other k ks rows (ground arith) in
    let apart : key_eq k (row_key r) ≡ false = ground arith in rw (apart, ih) refl

left_orders_other :
    (k : Key) (ks : List Key) (rows : List OrderRow)
    → has_key k (map row_key rows) ≡ false
    → left_orders (k ∷ ks) rows ≡ left_orders ks rows
left_orders_other k ks [] h = refl
left_orders_other k ks (r ∷ rows) h =
    let ih = left_orders_other k ks rows (ground arith) in
    let apart : key_eq k (row_key r) ≡ false = ground arith in rw (apart, ih) refl

module _ (test : OrderRow → Bool) where
  abbrev pub how_many : List OrderRow → ℕ
  how_many rows = length (filter_by test rows)

  has_key-terminal_orders :
      (k : Key) (limit : ℕ) (rows : List OrderRow)
      → has_key k (map row_key rows) ≡ false
      → has_key k (terminal_orders test limit rows) ≡ false
  unfolding terminal_orders
  has_key-terminal_orders k zero rows h = refl
  has_key-terminal_orders k (suc limit) [] h = refl
  has_key-terminal_orders k (suc limit) (r ∷ rows) h =
      let taken = has_key-terminal_orders k limit rows (ground arith) in
      let passed = has_key-terminal_orders k (suc limit) rows (ground arith) in ground arith

  -- What one batch takes and leaves, of the rows that pass the test.
  abbrev Taken : ℕ → List OrderRow → List Key → Type 0
  Taken limit rows ks =
      (length (archived_orders ks rows) ≡ min limit (how_many rows))
      × (how_many (left_orders ks rows) ≡ how_many rows - limit)

  none-Taken : (rows : List OrderRow) → Taken zero rows []
  none-Taken [] = (refl, refl)
  none-Taken (r ∷ rows) = let ih = none-Taken rows in (ground arith, ground arith)

  terminal_orders-Taken :
      (limit : ℕ) (rows : List OrderRow)
      → Distinct rows
      → Taken limit rows (terminal_orders test limit rows)
  unfolding terminal_orders
  terminal_orders-Taken zero rows h = none-Taken rows
  terminal_orders-Taken (suc limit) [] h = (omega arith, omega arith)
  terminal_orders-Taken (suc limit) (r ∷ rows) (here, rest) =
      split (test r) refl (terminal_orders-Taken limit rows rest)
        (terminal_orders-Taken (suc limit) rows rest)
    where
      self : key_eq (row_key r) (row_key r) ≡ true
      self = ground arith

      ts : List Key
      ts = terminal_orders test limit rows

      us : List Key
      us = terminal_orders test (suc limit) rows

      split :
          (b : Bool)
          → test r ≡ b
          → Taken limit rows ts
          → Taken (suc limit) rows us
          → Taken (suc limit) (r ∷ rows) (if b then row_key r ∷ ts else us)
      split true e (many, few) later =
          let gone = ap length (archived_orders_other (row_key r) ts rows here) in
          let stay = ap how_many (left_orders_other (row_key r) ts rows here) in
          (ground arith, ground arith)
      split false e now (many, few) =
          let out = has_key-terminal_orders (row_key r) (suc limit) rows here in
          (ground arith, ground arith)

-- A run in which nothing fails, and in which time and locks stand still.
module _ (batch_size : ℕ) (sweep : Sweep) (works : sweep.fails ≡ false)
    (some_room : 1 ≤ batch_size) where
  abbrev pub waiting : Database → ℕ
  waiting db = how_many (eligible sweep) db.orders

  -- The orders that were moved, the ones that still wait, and that keys stay distinct.
  record Run (passes_left : ℕ) (db : Database) (r : Option ℕ × Database) : Type 0 where
    total : r.0 ≡ some (min (waiting db) (passes_left * batch_size))
    remaining : waiting r.1 ≡ waiting db - passes_left * batch_size

  one_batch :
      (db : Database)
      → archive_one_batch batch_size sweep db ≡ (
        some (length (archived_orders (batch_keys batch_size sweep db) db.orders)),
        move (batch_keys batch_size sweep db) db,
      )
  unfolding archive_one_batch
  one_batch db = rw (works, archive_one_batch) refl

  moved_few :
      (db : Database)
      → Distinct db.orders
      → waiting (move (batch_keys batch_size sweep db) db) ≡ waiting db - batch_size
  unfolding move
  moved_few db h = (terminal_orders-Taken (eligible sweep) batch_size db.orders h).1

  moved_Distinct :
      (db : Database)
      → Distinct db.orders
      → Distinct (move (batch_keys batch_size sweep db) db).orders
  unfolding move
  moved_Distinct db h = Distinct-filter_by _ db.orders h

  add_moved-Run :
      (moved passes_left : ℕ) (db mid : Database) (r : Option ℕ × Database)
      → moved ≡ min batch_size (waiting db)
      → waiting mid ≡ waiting db - batch_size
      → Run passes_left mid r
      → Run (suc passes_left) db (add_moved moved r)
  add_moved-Run moved passes_left db mid (none, d) m w run = absurd (let t = run.total in cc)
  add_moved-Run moved passes_left db mid (some t, d) m w run =
      let e : t ≡ min (waiting mid) (passes_left * batch_size) = let h = run.total in cc in
      let rest = run.remaining in record { total = ap some (omega arith); remaining = omega arith }

  after_batch-Run :
      (moved passes_left : ℕ) (db mid : Database) (rest : Database → Option ℕ × Database)
      → moved ≡ min batch_size (waiting db)
      → waiting mid ≡ waiting db - batch_size
      → Run passes_left mid (rest mid)
      → Run (suc passes_left) db (after_batch (some moved, mid) rest)
  after_batch-Run zero passes_left db mid rest m w run =
      let done : waiting db ≡ 0 = omega arith in
      record { total = ap some (omega arith); remaining = omega arith }
  after_batch-Run (suc moved) passes_left db mid rest m w run =
      add_moved-Run (suc moved) passes_left db mid (rest mid) m w run

  passes-Run :
      (batch_num passes_left : ℕ) (db : Database)
      → Distinct db.orders
      → Run passes_left db (passes batch_size (λ i. sweep) batch_num passes_left db)
  unfolding passes
  passes-Run batch_num zero db h = record { total = ap some (omega arith); remaining = omega arith }
  passes-Run batch_num (suc passes_left) db h =
      let taken = terminal_orders-Taken (eligible sweep) batch_size db.orders h in
      let mid = move (batch_keys batch_size sweep db) db in
      rw (one_batch db) (
        after_batch-Run _ passes_left db mid
          (passes batch_size (λ i. sweep) (suc batch_num) passes_left) (taken.0) (moved_few db h)
          (passes-Run (suc batch_num) passes_left mid (moved_Distinct db h)))

  -- Where no transaction fails, no two hot orders have the same key, and time and locks stand still, a
  -- run moves every order that is due, up to the batches times their size, and returns their number.
  pub run_once_complete :
      (max_batches : ℕ) (db : Database)
      → Distinct db.orders
      → ((run_once batch_size max_batches (λ i. sweep) db).0
          ≡ some (min (waiting db) (max_batches * batch_size)))
        × (waiting (run_once batch_size max_batches (λ i. sweep) db).1
            ≡ waiting db - max_batches * batch_size)
  unfolding run_once
  run_once_complete max_batches db h =
      let run = passes-Run 1 max_batches db h in (run.total, run.remaining)
