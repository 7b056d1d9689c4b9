-- ===== src/Lifecycle.antt =====
-- simulator/lifecycle.py: the daemon that moves an order from PLACED to a terminal state.
pub mod Order
pub mod Transition
pub mod Edges
pub mod Advance
pub mod Outcome
pub mod Invariant
pub mod Progress
mod Tests
