-- ===== src/FeatureStore.antt =====
-- feature_store/: the stream aggregates of orders in Redis, and the clients that read them.
pub mod Keys
pub mod Schema
pub mod Declared
pub mod Aggregator
pub mod Client
pub mod Build
pub mod Decoding
pub mod Missing
pub mod Meaning
pub mod Reading
mod Tests
