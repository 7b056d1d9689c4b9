-- ===== src/Archiver.antt =====
-- archival/archiver.py: finished orders move, with their items and events, from the hot tables to the
-- archive tables, one batch in each transaction.
pub mod Moved
pub mod Together
pub mod Complete
mod Tests
use fraud_forecast.Base.{
  ℕ, zero, suc, ◌+◌, ◌*◌, Bool, true, false, not, ◌&&◌, Option, none, some, List, [], ◌∷◌, ◌++◌,
  ltb, length, map, filter_by, ◌==◌, if◌then◌else◌,
}
use fraud_forecast.Lifecycle.Order.{Status, delivered, cancelled, refunded, failed}
use fraud_forecast.Tables.{OrderRow, ChildRow, Database, Key, row_key, child_key, has_key}

-- `order_status IN ('DELIVERED','CANCELLED','REFUNDED','FAILED')`
abbrev pub is_archived_status : Status → Bool
is_archived_status delivered = true
is_archived_status cancelled = true
is_archived_status refunded = true
is_archived_status failed = true
is_archived_status _ = false

abbrev pub forty_eight_hours : ℕ
forty_eight_hours = 48 * 3600 * 1_000_000

-- `terminal_state_reached_at < NOW() - INTERVAL '48 hours'`, which NULL does not satisfy.
abbrev pub reached_before : Option ℕ → ℕ → Bool
reached_before none now = false
reached_before (some at) now = ltb (at + forty_eight_hours) now

-- What a transaction meets: its time, the rows that others have locked, and whether it fails.
pub record Sweep : Type 0 where
  pub now : ℕ
  pub locked : Key → Bool
  pub fails : Bool

unfoldable pub eligible : Sweep → OrderRow → Bool
eligible sweep r =
    is_archived_status r.order_status
    && (reached_before r.terminal_state_reached_at sweep.now && not (sweep.locked (row_key r)))

-- `terminal_orders`: up to `limit` keys, in the order in which the scan meets the rows.
unfoldable pub terminal_orders : (OrderRow → Bool) → (limit : ℕ) → List OrderRow → List Key
terminal_orders test zero rows = []
terminal_orders test (suc limit) [] = []
terminal_orders test (suc limit) (r ∷ rows) =
    if test r
    then row_key r ∷ terminal_orders test limit rows
    else terminal_orders test (suc limit) rows

-- What `DELETE … USING terminal_orders` leaves, and what it returns.
abbrev pub left_orders : List Key → List OrderRow → List OrderRow
left_orders keys = filter_by (λ r. not (has_key (row_key r) keys))

abbrev pub archived_orders : List Key → List OrderRow → List OrderRow
archived_orders keys = filter_by (λ r. has_key (row_key r) keys)

abbrev pub left_children : List Key → List ChildRow → List ChildRow
left_children keys = filter_by (λ c. not (has_key (child_key c) keys))

abbrev pub archived_children : List Key → List ChildRow → List ChildRow
archived_children keys = filter_by (λ c. has_key (child_key c) keys)

-- The statement, for the keys of `terminal_orders`.
unfoldable pub move : List Key → Database → Database
move keys db = record db {
  orders = left_orders keys db.orders;
  orders_archive = db.orders_archive ++ archived_orders keys db.orders;
  order_items = left_children keys db.order_items;
  order_items_archive = db.order_items_archive ++ archived_children keys db.order_items;
  order_events = left_children keys db.order_events;
  order_events_archive = db.order_events_archive ++ archived_children keys db.order_events;
}

abbrev pub batch_keys : ℕ → Sweep → Database → List Key
batch_keys batch_size sweep db = terminal_orders (eligible sweep) batch_size db.orders

-- `_archive_one_batch`: the rows that were moved; an exception is none, and its transaction is rolled back.
unfoldable pub archive_one_batch : ℕ → Sweep → Database → Option ℕ × Database
archive_one_batch batch_size sweep db = if sweep.fails then (none, db) else (
  some (length (archived_orders (batch_keys batch_size sweep db) db.orders)),
  move (batch_keys batch_size sweep db) db,
)

-- `moved_total += moved`
abbrev pub add_moved : ℕ → Option ℕ × Database → Option ℕ × Database
add_moved moved (none, db) = (none, db)
add_moved moved (some total, db) = (some (moved + total), db)

-- The passes that are left, after a pass.
abbrev pub after_batch :
    Option ℕ × Database → (Database → Option ℕ × Database) → Option ℕ × Database
after_batch (none, db) rest = (none, db)
after_batch (some zero, db) rest = (some 0, db)
after_batch (some (suc moved), db) rest = add_moved (suc moved) (rest db)

-- The loop of `run_once` from the batch `batch_num` on; `sweeps` gives what each transaction meets.
unfoldable pub passes :
    ℕ → (sweeps : ℕ → Sweep) → (batch_num left : ℕ) → Database → Option ℕ × Database
passes batch_size sweeps batch_num zero db = (some 0, db)
passes batch_size sweeps batch_num (suc left) db =
    after_batch (archive_one_batch batch_size (sweeps batch_num) db)
      (passes batch_size sweeps (suc batch_num) left)

unfoldable pub run_once :
    (batch_size max_batches : ℕ) → (sweeps : ℕ → Sweep) → Database → Option ℕ × Database
run_once batch_size max_batches sweeps db = passes batch_size sweeps 1 max_batches db
