-- ===== src/Promotion/Tests.antt =====
-- Runs of the promotion on one model type with two versions, of which the first is in production.
use fraud_forecast.Base.{◌≡◌, refl, true, false, some, List, [], ◌∷◌, String, ◌↔◌, Among}
use fraud_forecast.Base.Float.{millionths}
use fraud_forecast.Registry.{
  raises, returns, get_current, is_version, is_model_type, stem, resolve, promotion_gate_error,
  is_dir, put, os_error,
}
use fraud_forecast.Registry.Tests.{
  posix, posix-Laws, posix-Works, ascii_digit, old_version, new_version, root,
}
use fraud_forecast.Registry.Swap.{
  tmp_name, promote_version, swap, check_and_swap, rename_over, finally, is_taken,
}
use fraud_forecast.Promotion.{
  Metrics, MetricsFile, missing, readable, number, headline_delta, enforce_gate, recall_failures,
}
use fraud_forecast.Promotion.Gate.{Gate, enforce_gate-Gate}
use fraud_forecast.Promotion.Promote.{State, Verdict, judge, promote, append_promotion_log}
use fraud_forecast.Promotion.Allowed.{Allowed, compared}
use fraud_forecast.Promotion.Outcome.{
  PromoteOutcome, promote-PromoteOutcome, Succeeded, promote-Succeeded,
}

abbrev as_listed : List String → List String
as_listed names = names

as_listed_iff :
    (names : List String) (name : String) → Among name names ↔ Among name (as_listed names)
as_listed_iff names name = (λ m. m, λ m. m)

abbrev old_metrics : Metrics millionths
old_metrics = ("auprc", number 800_000) ∷ ("recall_reseller", number 500_000) ∷ []

abbrev good_metrics : Metrics millionths
good_metrics = ("recall_reseller", number 450_000) ∷ ("auprc", number 790_000) ∷ []

abbrev bad_metrics : Metrics millionths
bad_metrics = ("recall_reseller", number 449_999) ∷ ("auprc", number 900_000) ∷ []

passes : enforce_gate millionths good_metrics old_metrics as_listed ≡ returns tt
unfolding enforce_gate recall_failures
passes = refl

fails : enforce_gate millionths bad_metrics old_metrics as_listed ≡ raises promotion_gate_error
unfolding passes
fails = refl

enforce_gate-Gate_example :
    (enforce_gate millionths good_metrics old_metrics as_listed ≡ returns tt)
    ↔ Gate millionths good_metrics old_metrics
enforce_gate-Gate_example =
    enforce_gate-Gate millionths good_metrics old_metrics as_listed as_listed_iff

abbrev reports : String → MetricsFile millionths
reports =
    put old_version (readable old_metrics)
      (put new_version (readable good_metrics) (λ name. missing))

abbrev state : State millionths
state = record { root = root; promotion_log = [] }

-- A run in which the log cannot be written.
raises_after_move :
    let o =
      promote millionths as_listed reports ascii_digit posix true
        (tmp_name "7" "ab")
        "now"
        new_version
        "xgboost"
        false
        state in
    (o.0 ≡ raises os_error)
    × (get_current ascii_digit "xgboost" o.1.root ≡ returns (some new_version))
unfolding passes judge promote append_promotion_log get_current resolve is_version stem
    is_model_type promote_version check_and_swap swap rename_over finally is_taken is_dir tmp_name
    headline_delta
raises_after_move = (refl, refl)

promote-PromoteOutcome_example :
    PromoteOutcome millionths as_listed as_listed_iff reports ascii_digit
      (tmp_name "7" "ab")
      "now"
      new_version
      "xgboost"
      false
      state
      (promote millionths as_listed reports ascii_digit posix true
        (tmp_name "7" "ab")
        "now"
        new_version
        "xgboost"
        false
        state)
promote-PromoteOutcome_example =
    promote-PromoteOutcome millionths as_listed as_listed_iff reports ascii_digit posix posix-Laws
      true "7" "ab" "now" new_version "xgboost" false state

abbrev verdict : Verdict millionths
verdict = record {
  candidate_metrics = good_metrics;
  production_version = some old_version;
  production_metrics = some old_metrics;
}

allowed :
    Allowed millionths as_listed as_listed_iff reports ascii_digit new_version "xgboost" false root
      verdict
unfolding get_current resolve is_version stem is_model_type
allowed = record {
  candidate_read = refl;
  current_read = refl;
  passes =
      compared refl
        ((enforce_gate-Gate millionths good_metrics old_metrics as_listed as_listed_iff).0 passes);
}

promote-Succeeded_example :
    Succeeded millionths as_listed as_listed_iff reports ascii_digit
      (tmp_name "7" "ab")
      "now"
      new_version
      "xgboost"
      false
      state
      (promote millionths as_listed reports ascii_digit posix false
        (tmp_name "7" "ab")
        "now"
        new_version
        "xgboost"
        false
        state)
unfolding allowed tmp_name is_version stem is_model_type
promote-Succeeded_example =
    promote-Succeeded millionths as_listed as_listed_iff reports ascii_digit posix posix-Laws
      posix-Works "7" "ab" "now" new_version "xgboost" false state verdict allowed refl refl refl
      refl refl
