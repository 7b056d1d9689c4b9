-- ===== src/Lib.antt =====
-- fraud-forecast: a UK food-delivery platform with a synthetic order simulator, a Redis feature store and
-- a training pipeline for fraud models. This library models the parts with logic of their own.
--
-- How the parts meet: the simulator picks users (simulator/user_picker.py), fills carts
-- (simulator/cart_builder.py), prices them in pence (shared/money.py) and moves orders through their states
-- (simulator/lifecycle.py). Each new order is announced to the aggregator (feature_store/aggregator.py),
-- which keeps sorted sets and one stream hash for each entity of the order in Redis; a client
-- (feature_store/client.py) reads the hashes of an order in one round trip and builds the features that the
-- models are trained on (feature_store/schema.py). Later a daemon charges orders back, refunds them and labels
-- them (simulator/chargebacks.py), while another moves finished orders to the archive
-- (archival/archiver.py); both work on the same tables, which Chargebacks.Steps puts together. Models that are
-- trained go into a registry of versions (ml/registry/model_registry.py), and one of them into production by a
-- gate on its metrics (ml/training/promote.py).
--
-- Which file models what:
--   Base            Boolean tests, lists measured by native numbers, integers, and floats as a parameter.
--   Money           shared/money.py: pounds_to_pence, pence_to_pounds_str, calculate_vat. A Decimal is a
--                   sign, its digits and the number of its decimal places.
--   Lifecycle       simulator/lifecycle.py: Order has the enums and the row, Transition has
--                   _compute_transition, Advance has advance_order on the two tables that its
--                   transaction writes. Edges, Outcome, Invariant and Progress prove.
--   Cart            simulator/cart_builder.py: Menu has the data, Build has build_realistic_cart in its
--                   five stages. Sampling, Trimming, Passes, Merging and Totals prove.
--   UserPicker      simulator/user_picker.py: WeightedUserPicker, whose draws are arguments. Member proves.
--   Tables          the columns of shared/models.py and db/migrations/versions/ that the two daemons below
--                   share, with lemmas on primary keys in Tables.Keys.
--   Archiver        archival/archiver.py: the statement, a batch with its rollback, run_once. Moved,
--                   Together and Complete prove.
--   Chargebacks     simulator/chargebacks.py: the decisions in the parent, the transactions in Emit, the
--                   daemon in Daemon on the loop of Paging. PagedAll, Ordered, Queries, Labels,
--                   Steps and Decisions prove.
--   Registry        ml/registry/model_registry.py: names, links and get_current in the parent, promote in
--                   Swap, save in Save. Atomic, Promoted, Names, Saved and Cycle prove.
--   Promotion       ml/training/promote.py: the gate in the parent, promote in Promotion.Promote. Gate,
--                   Allowed and Outcome prove.
--   FeatureStore    feature_store/: Keys and Schema have the keys and the fields, Declared what schema.py
--                   says of them, Client has the round trip of get_features, and Build has
--                   _build_feature_set. Decoding, Missing, Meaning and Reading prove.
--   FeatureStore.Aggregator
--                   feature_store/aggregator.py: Redis has the commands as a record and what their
--                   documentation says as a second one, Window has the reads of a sorted set, Streams
--                   has the writes and refreshes of the six entities, Update has the handlers, KeyText
--                   has the reading of a key, Trim has the cleanup. Frame, Mirror, Writes, InStep,
--                   Moving, Redelivery, Dedupe, Polls, Refreshes, Trims and Trimmed prove; Memory
--                   is a Redis in memory for runs.
--
-- State and effects: a function that changes tables or Redis takes the state and gives it back. The
-- commands of a pipeline run in their order, with no other client between them. Random draws, readings of
-- the clock and rows that a query gives are arguments, so a theorem holds for all of them. An
-- exception is `none`, or a value of the function's result type where the state has changed before it.
-- Times are whole seconds or microseconds since the epoch and not negative, so a subtraction that stops
-- at 0 only cuts a window at the epoch, where no score lies.
--
-- Fuel: `rounds` of sample_item_count multiplies draws until their product has fallen to a threshold, which
-- takes as many rounds as the draws make it; the rounds are an argument, and `none` says that they ran out.
-- decimal_digits gets one more than the number, which is at least its number of digits. All else is
-- structural recursion.
--
-- SQL is modelled by what its statements do to lists of rows; the order of a list stands for the one in which a
-- scan meets the rows. The bound on the pages of a paged loop is an argument, and one more than the
-- candidates is enough (generate_chargebacks_all).
--
-- A path of the registry is resolved over at most 40 links; a longer chain counts as a loop.
--
-- Parameters: Float with its operations (Base.Float), Redis with its laws, int() and UUID() of a text,
-- float() of a text, the seeded generators of the lifecycle, Python's random and datetime
-- (Chargebacks.Python), the ground truth, the queries for drivers and orders, the calls of the operating system
-- (Registry.Swap.Os with its laws), strftime and uuid4, the characters that `\d` matches, sorted() of names, and the metrics
-- files.
--
-- Not modelled: connections, logging, sleeping and endless loops; SQL and its migrations; the order generator, seeding and model training; ModelRegistry.list_versions, and model types
-- whose directory is a link.
pub mod Base
pub mod Money
pub mod Lifecycle
pub mod FeatureStore
pub mod Cart
pub mod UserPicker
pub mod Tables
pub mod Archiver
pub mod Chargebacks
pub mod Registry
pub mod Promotion
