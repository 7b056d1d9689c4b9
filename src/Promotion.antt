-- ===== src/Promotion.antt =====
-- ml/training/promote.py: a candidate goes into production when its metrics pass the gate, and the promotion
-- is logged.
pub mod Gate
pub mod Promote
pub mod Allowed
pub mod Outcome
mod Tests
use Prim.Native.String.{◌++◌}
use text.Mathlib.Text.{◌==◌}
use fraud_forecast.Base.{
  ℕ, Bool, true, false, not, ◌||◌, Option, none, some, List, [], ◌∷◌, String, if◌then◌else◌, map,
}
use fraud_forecast.Base.{◌++◌ as append}
use fraud_forecast.Base.Float.{Floats}
use fraud_forecast.Registry.{
  Root, Result, raises, returns, Error, promotion_gate_error, value_error, file_not_found_error,
  os_error, get_current,
}

abbrev pub and_then : {A B : Type 0} → Result A → (A → Result B) → Result B
and_then (raises e) next = raises e
and_then (returns a) next = next a

-- `FRAUD_CATEGORIES` of ml/training/evaluate.py
abbrev pub fraud_categories : List String
fraud_categories =
    "stolen_card" ∷ "account_takeover" ∷ "promo_abuse" ∷ "refund_abuse" ∷ "collusive_merchant"
    ∷ "triangulation" ∷ "reseller" ∷ []

abbrev pub recall_keys : List String
recall_keys = map (λ (category : String). "recall_" ++ category) fraud_categories

abbrev pub mem : String → List String → Bool
mem key [] = false
mem key (k ∷ ks) = key == k || mem key ks

module _ (F : Floats) where
  open F use {Float, lit, sub, mul, lt}

  -- A JSON value: `number` is an int or a float, by its float.
  pub data Value : Type 0 where
    number : Float → Value
    boolean : Bool → Value
    other : Value

  abbrev pub Metrics : Type 0
  Metrics = List (String × Value)

  -- A metrics file: missing, readable, or one whose reading raises an OSError (true) or a ValueError.
  pub data MetricsFile : Type 0 where
    missing : MetricsFile
    unreadable : Bool → MetricsFile
    readable : Metrics → MetricsFile

  -- `_load_metrics`
  abbrev pub load_metrics : MetricsFile → Result Metrics
  load_metrics missing = raises file_not_found_error
  load_metrics (unreadable true) = raises os_error
  load_metrics (unreadable false) = raises value_error
  load_metrics (readable metrics) = returns metrics

  -- `metrics.get(name)`
  abbrev pub get : String → Metrics → Option Value
  get name [] = none
  get name ((key, value) ∷ metrics) = if key == name then some value else get name metrics

  abbrev pub optional_float : Option Value → Option Float
  optional_float (some (number x)) = some x
  optional_float _ = none

  abbrev pub found : Option Float → Result Float
  found none = raises value_error
  found (some x) = returns x

  -- `_metric_as_float`
  abbrev pub metric_as_float : Metrics → String → Result Float
  metric_as_float metrics name = found (optional_float (get name metrics))

  -- `_headline_delta`
  abbrev pub delta_of : String → Option Float → Option Float → List (String × Float)
  delta_of name (some candidate) (some production) = (name, sub candidate production) ∷ []
  delta_of name _ _ = []

  unfoldable pub headline_delta : Metrics → Option Metrics → List (String × Float)
  headline_delta candidate none = []
  headline_delta candidate (some production) =
      let delta = λ (name : String).
        delta_of name (optional_float (get name candidate))
          (optional_float (get name production)) in
      append (delta "auprc") (append (delta "auroc") (delta "brier_score"))

  module _ (candidate production : Metrics) where
    -- What one recall adds to the failures, from its two values.
    abbrev pub add_failure :
        String → Option Float → Option Float → List String → Result (List String)
    add_failure name none c failures = raises value_error
    add_failure name (some p) none failures = returns (name ∷ failures)
    add_failure name (some p) (some c) failures =
        returns (if lt c (mul p (lit 9 10)) then name ∷ failures else failures)

    -- The loop of `_recall_gate_failures`: the metrics that its messages name.
    unfoldable pub recall_failures : List String → Result (List String)
    recall_failures [] = returns []
    recall_failures (name ∷ names) =
        let rest = recall_failures names in
        if mem name recall_keys
        then and_then rest (
            add_failure name (optional_float (get name production))
              (optional_float (get name candidate)))
        else rest

    abbrev pub no_failures : List String → Result Unit
    no_failures [] = returns tt
    no_failures (name ∷ names) = raises promotion_gate_error

    module _ (sorted : List String → List String) where
      -- `_recall_gate_failures`
      abbrev pub recall_gate_failures : Result (List String)
      recall_gate_failures = recall_failures (sorted (map (λ (m : String × Value). m.0) production))

      -- `_enforce_gate`
      unfoldable pub enforce_gate : Result Unit
      enforce_gate = and_then (metric_as_float candidate "auprc") (λ candidate_auprc.
          and_then (metric_as_float production "auprc") (λ production_auprc.
            if lt candidate_auprc (sub production_auprc (lit 1 100))
            then raises promotion_gate_error
            else and_then recall_gate_failures no_failures))
