-- ===== src/FeatureStore/Aggregator.antt =====
-- feature_store/aggregator.py: the daemon that keeps the stream hashes of the six entities of an order.
pub mod Trim
pub mod Refreshes
pub mod Trims
pub mod Trimmed
pub mod Redis
pub mod Window
pub mod Streams
pub mod Update
pub mod Frame
pub mod Mirror
pub mod Writes
pub mod InStep
pub mod Memory
pub mod Moving
pub mod Dedupe
pub mod Polls
pub mod Redelivery
pub mod KeyText
mod TrimTests
mod Tests
