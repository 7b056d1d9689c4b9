-- ===== src/Archiver/Together.antt =====
-- A run of archival/archiver.py keeps the items and events of an order on the order's side.
use fraud_forecast.Base.{
  ℕ, ◌≡◌, refl, sym, ◌∙◌, subst, Bool, true, false, not, List, [], ◌∷◌, ◌++◌, map, All, All-append,
  if◌then◌else◌, arith,
}
use fraud_forecast.Tables.{OrderRow, ChildRow, Database, Key, row_key, child_key, has_key}
use fraud_forecast.Tables.Keys.{
  has_key-append, has_key-archived, has_key-left, has_key-filter_by, map-append,
}
use fraud_forecast.Archiver.{
  Sweep, left_orders, archived_orders, left_children, archived_children, move, run_once,
}
use fraud_forecast.Archiver.Moved.{run_once-Q}

-- No child row has its order among the rows.
abbrev pub Apart : List OrderRow → List ChildRow → Type 0
Apart rows = All (λ c. has_key (child_key c) (map row_key rows) ≡ false)

-- A child row that is hot has no archived order, and one that is archived has no hot order.
pub record Together (db : Database) : Type 0 where
  pub hot_items : Apart db.orders_archive db.order_items
  pub archived_items : Apart db.orders db.order_items_archive
  pub hot_events : Apart db.orders_archive db.order_events
  pub archived_events : Apart db.orders db.order_events_archive

-- Rows that stay behind, against an archive that grows by the rows that go.
Apart-left :
    (keys : List Key) (rows archive : List OrderRow) (cs : List ChildRow)
    → Apart archive cs
    → Apart (archive ++ archived_orders keys rows) (left_children keys cs)
Apart-left keys rows archive [] h = tt
Apart-left keys rows archive (c ∷ cs) (here, rest) =
    let ih = Apart-left keys rows archive cs rest in split (has_key (child_key c) keys) refl ih
  where
    split :
        (b : Bool)
        → has_key (child_key c) keys ≡ b
        → Apart (archive ++ archived_orders keys rows) (left_children keys cs)
        → Apart
            (archive ++ archived_orders keys rows)
            (if not b then c ∷ left_children keys cs else left_children keys cs)
    split true e ih = ih
    split false e ih = (
      subst (λ ks. has_key (child_key c) ks ≡ false) (sym (map-append row_key archive _))
          (has_key-append (child_key c) (map row_key archive) _
            ∙ (let gone = has_key-archived keys (child_key c) rows e in ground arith)),
      ih,
    )

-- Rows that go, against hot orders that lose the keys that go.
Apart-archived :
    (keys : List Key) (rows : List OrderRow) (cs : List ChildRow)
    → Apart (left_orders keys rows) (archived_children keys cs)
Apart-archived keys rows [] = tt
Apart-archived keys rows (c ∷ cs) =
    split (has_key (child_key c) keys) refl (Apart-archived keys rows cs)
  where
    split :
        (b : Bool)
        → has_key (child_key c) keys ≡ b
        → Apart (left_orders keys rows) (archived_children keys cs)
        → Apart
            (left_orders keys rows)
            (if b then c ∷ archived_children keys cs else archived_children keys cs)
    split true e ih = (has_key-left keys (child_key c) rows e, ih)
    split false e ih = ih

Apart-fewer :
    (keys : List Key) (rows : List OrderRow) (cs : List ChildRow)
    → Apart rows cs
    → Apart (left_orders keys rows) cs
Apart-fewer keys rows [] h = tt
Apart-fewer keys rows (c ∷ cs) (here, rest) =
    (has_key-filter_by (child_key c) _ rows here, Apart-fewer keys rows cs rest)

Apart-joined :
    (keys : List Key) (rows : List OrderRow) (archived cs : List ChildRow)
    → Apart rows archived
    → Apart (left_orders keys rows) (archived ++ archived_children keys cs)
Apart-joined keys rows archived cs h =
    All-append _ archived (archived_children keys cs) (Apart-fewer keys rows archived h)
      (Apart-archived keys rows cs)

pub move-Together : (keys : List Key) (db : Database) → Together db → Together (move keys db)
unfolding move
move-Together keys db h = record {
  hot_items = Apart-left keys db.orders db.orders_archive db.order_items h.hot_items;
  archived_items =
      Apart-joined keys db.orders db.order_items_archive db.order_items h.archived_items;
  hot_events = Apart-left keys db.orders db.orders_archive db.order_events h.hot_events;
  archived_events =
      Apart-joined keys db.orders db.order_events_archive db.order_events h.archived_events;
}

-- Where no child row is parted from its order before a run, none is after it, whichever of its
-- transactions fail.
pub run_once-Together :
    (batch_size max_batches : ℕ) (sweeps : ℕ → Sweep) (db : Database)
    → Together db
    → Together (run_once batch_size max_batches sweeps db).1
run_once-Together batch_size max_batches sweeps db h =
    run_once-Q (λ db after. Together db → Together after) (λ db p. p) (λ a b c p q r. q (p r))
      move-Together batch_size max_batches sweeps db h
