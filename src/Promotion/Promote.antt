-- ===== src/Promotion/Promote.antt =====
-- promote of ml/training/promote.py, on the registry's root and the promotion log.
use fraud_forecast.Base.{ℕ, Bool, Option, none, some, List, [], ◌∷◌, ◌++◌, String, if◌then◌else◌}
use fraud_forecast.Base.Float.{Floats}
use fraud_forecast.Registry.{
  Root, Result, raises, returns, promotion_gate_error, os_error, get_current,
}
use fraud_forecast.Registry.Swap.{Os, promote_version}
use fraud_forecast.Promotion.{
  Metrics, MetricsFile, missing, unreadable, readable, load_metrics, headline_delta, enforce_gate,
  and_then,
}

module _ (F : Floats) where
  open F use {Float}

  -- The dictionary that `promote` returns, and the log's line for it.
  pub record Event : Type 0 where
    pub version : String
    pub model_type : String
    pub forced : Bool
    pub previous_version : Option String
    pub metrics_delta : List (String × Float)

  pub record LogLine : Type 0 where
    pub event : Event
    pub timestamp : String

  pub record State : Type 0 where
    pub root : Root
    pub promotion_log : List LogLine

  -- What a call has read before it changes anything.
  pub record Verdict : Type 0 where
    pub candidate_metrics : Metrics F
    pub production_version : Option String
    pub production_metrics : Option (Metrics F)

  -- The metrics of the version in production.
  abbrev pub baseline : (force : Bool) → MetricsFile F → Result (Option (Metrics F))
  baseline force (readable metrics) = returns (some metrics)
  baseline force missing = if force then returns none else raises promotion_gate_error
  baseline force (unreadable os) = if force then returns none else raises promotion_gate_error

  module _ (sorted : List String → List String) (reports : String → MetricsFile F) where
    abbrev pub production_baseline : (force : Bool) → Option String → Result (Option (Metrics F))
    production_baseline force none = returns none
    production_baseline force (some production_version) =
        baseline force (reports production_version)

    abbrev pub gate : (force : Bool) → Metrics F → Option (Metrics F) → Result Unit
    gate force candidate none = returns tt
    gate force candidate (some production) =
        if force then returns tt else enforce_gate F candidate production sorted

    module _ (decimal : ℕ → Bool) where
      -- `promote` up to the gate.
      unfoldable pub judge : (version model_type : String) → (force : Bool) → Root → Result Verdict
      judge version model_type force root =
          and_then (load_metrics F (reports version)) (λ (candidate : Metrics F).
            and_then (get_current decimal model_type root) (λ (current : Option String).
              and_then (production_baseline force current) (λ (production : Option (Metrics F)).
                and_then (gate force candidate production) (λ (passed : Unit). returns (record {
                  candidate_metrics = candidate;
                  production_version = current;
                  production_metrics = production;
                })))))

      abbrev pub event_of : (version model_type : String) → Bool → Verdict → Event
      event_of version model_type force verdict = record {
        version = version;
        model_type = model_type;
        forced = force;
        previous_version = verdict.production_version;
        metrics_delta = headline_delta F verdict.candidate_metrics verdict.production_metrics;
      }

      -- `_append_promotion_log`, which may raise an OSError.
      unfoldable pub append_promotion_log :
          (log_fails : Bool) → (timestamp : String) → Event → State → Result Event × State
      append_promotion_log log_fails timestamp event s =
          if log_fails then (raises os_error, s) else (
            returns event,
            record s {
              promotion_log =
                  s.promotion_log ++ record { event = event; timestamp = timestamp } ∷ [];
            },
          )

      -- What follows `registry.promote`.
      abbrev pub after_swap :
          (log_fails : Bool)
          → (timestamp : String) → Event
          → State
          → Result Unit × Root
          → Result Event × State
      after_swap log_fails timestamp event s (raises e, root) = (raises e, record s { root = root })
      after_swap log_fails timestamp event s (returns u, root) =
          append_promotion_log log_fails timestamp event (record s { root = root })

      unfoldable pub promote :
          Os
          → (log_fails : Bool) → (tmp timestamp version model_type : String) → (force : Bool)
          → State
          → Result Event × State
      promote os log_fails tmp timestamp version model_type force s =
          elim (judge version model_type force s.root) [
            | raises e ↦ (raises e, s)
            | returns verdict ↦
                after_swap log_fails timestamp (event_of version model_type force verdict) s
                  (promote_version decimal os tmp model_type version s.root)
          ]
