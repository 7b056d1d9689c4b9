-- ===== src/Cart.antt =====
-- simulator/cart_builder.py: a cart drawn from a menu, merged by item and trimmed to eight units. What
-- the generator draws is an argument. `merged_items` and `ordered_item_ids` hold the same ids in the
-- same order at every statement between the loops, so they are one list.
pub mod Menu
pub mod Build
pub mod Trimming
pub mod Passes
pub mod Merging
pub mod Totals
pub mod Sampling
mod Tests
