-- ===== src/Promotion/Gate.antt =====
-- The gate of ml/training/promote.py, against a description of the metrics that pass it.
use text.Mathlib.Text.{◌==◌}
use text.Mathlib.TextEquality.{eq_iff}
use fraud_forecast.Base.{
  Bool, true, false, Option, none, some, List, [], ◌∷◌, String, if◌then◌else◌, map, ◌≡◌, refl, ap,
  ◌∙◌, ◌↔◌, Among, All, All-Among, Among-All, is_some, inl, inr, ◌⊎◌,
}
use fraud_forecast.Base.Float.{Floats}
use fraud_forecast.Registry.{Result, raises, returns, promotion_gate_error}
use fraud_forecast.Promotion.{
  Metrics, Value, get, optional_float, recall_keys, mem, recall_failures, no_failures, and_then,
  recall_gate_failures, enforce_gate, add_failure, found,
}

module _ (F : Floats) (candidate production : Metrics F) where
  open F use {Float, lit, sub, mul, lt}

  abbrev value_of : Metrics F → String → Option Float
  value_of metrics name = optional_float F (get F name metrics)

  -- Both have the metric as a number, and the candidate's is not below `bound` of production's.
  pub record NotBelow (bound : Float → Float) (name : String) : Type 0 where
    pub candidate_value : Float
    pub production_value : Float
    pub candidate_has : value_of candidate name ≡ some candidate_value
    pub production_has : value_of production name ≡ some production_value
    pub not_below : lt candidate_value (bound production_value) ≡ false

  -- The metrics that may follow those of production.
  pub record Gate : Type 0 where
    pub auprc : NotBelow (λ x. sub x (lit 1 100)) "auprc"
    pub recalls :
        (name : String)
        → mem name recall_keys ≡ true
        → is_some (get F name production) ≡ true
        → NotBelow (λ x. mul x (lit 9 10)) name

  abbrev Fine : String → Type 0
  Fine name = mem name recall_keys ≡ true → NotBelow (λ x. mul x (lit 9 10)) name

  added-NotBelow :
      (name : String) (p c : Option Float) (rest : List String)
      → value_of production name ≡ p
      → value_of candidate name ≡ c
      → add_failure F candidate production name p c rest ≡ returns []
      → NotBelow (λ x. mul x (lit 9 10)) name × (rest ≡ [])
  added-NotBelow name none c rest ep ec h = absurd (cc h)
  added-NotBelow name (some p) none rest ep ec h = absurd (cc h)
  added-NotBelow name (some p) (some c) rest ep ec h = split (lt c (mul p (lit 9 10))) refl h
    where
      split :
          (b : Bool)
          → lt c (mul p (lit 9 10)) ≡ b
          → returns (if b then name ∷ rest else rest) ≡ returns []
          → NotBelow (λ x. mul x (lit 9 10)) name × (rest ≡ [])
      split true q h' = absurd (cc h')
      split false q h' = (
        record {
          candidate_value = c;
          production_value = p;
          candidate_has = ec;
          production_has = ep;
          not_below = q;
        },
        cc h',
      )

  NotBelow-add_failure :
      (name : String) (rest : List String)
      → NotBelow (λ x. mul x (lit 9 10)) name
      → add_failure F candidate production name
          (value_of production name)
          (value_of candidate name)
          rest
        ≡ returns rest
  NotBelow-add_failure name rest nb = rw (nb.production_has, nb.candidate_has, nb.not_below) refl

  abbrev with_failure : (b : Bool) → String → Result (List String) → Result (List String)
  with_failure b name r =
      if b
      then and_then r (
          add_failure F candidate production name (value_of production name)
            (value_of candidate name))
      else r

  with_failure-Fine :
      (b : Bool) (name : String) (r : Result (List String))
      → (with_failure b name r ≡ returns [])
        ↔ ((r ≡ returns []) × (b ≡ true → NotBelow (λ x. mul x (lit 9 10)) name))
  with_failure-Fine false name r = (λ h. (h, λ t. absurd (cc t)), λ h. h.0)
  with_failure-Fine true name (raises e) = (λ h. absurd (cc h), λ h. absurd (cc (h.0)))
  with_failure-Fine true name (returns rest) = (
    λ h. let (nb, e) = added-NotBelow name _ _ rest refl refl h in (ap returns e, λ t. nb),
    λ h. NotBelow-add_failure name rest (h.1 refl) ∙ h.0,
  )

  recall_failures-Fine :
      (names : List String)
      → (recall_failures F candidate production names ≡ returns []) ↔ All Fine names
  unfolding recall_failures
  recall_failures-Fine [] = (λ h. tt, λ h. refl)
  recall_failures-Fine (name ∷ names) =
      let ih = recall_failures-Fine names in
      let step =
        with_failure-Fine (mem name recall_keys) name
          (recall_failures F candidate production names) in
      (λ h. let (r, fine) = step.0 h in (fine, ih.0 r), λ h. step.1 (ih.1 h.1, h.0))

  found-Among :
      (name : String) (metrics : Metrics F)
      → (is_some (get F name metrics) ≡ true)
        ↔ Among name (map (λ (m : String × Value F). m.0) metrics)
  found-Among name [] = (λ h. absurd (cc h), λ h. absurd h)
  found-Among name ((key, value) ∷ metrics) = split (key == name) refl (found-Among name metrics)
    where
      split :
          (b : Bool)
          → (key == name) ≡ b
          → (is_some (get F name metrics) ≡ true)
            ↔ Among name (map (λ (m : String × Value F). m.0) metrics)
          → (is_some (if b then some value else get F name metrics) ≡ true)
            ↔ ((key ≡ name) ⊎ Among name (map (λ (m : String × Value F). m.0) metrics))
      split true q ih = (λ h. inl ((eq_iff key name).0 q), λ h. refl)
      split false q ih = (
        λ h. inr (ih.0 h),
        λ h. elim h [ inl e ↦ absurd (cc (q, (eq_iff key name).1 e)) | inr there ↦ ih.1 there ],
      )

  module _ (sorted : List String → List String)
      (sorted_iff : (names : List String) (name : String)
        → Among name names ↔ Among name (sorted names)) where
    abbrev names : List String
    names = map (λ (m : String × Value F). m.0) production

    abbrev Recalls : Type 0
    Recalls =
        (name : String)
        → mem name recall_keys ≡ true
        → is_some (get F name production) ≡ true
        → NotBelow (λ x. mul x (lit 9 10)) name

    recalls_iff : (recall_gate_failures F candidate production sorted ≡ returns []) ↔ Recalls
    recalls_iff = (
      λ h name m there.
          All-Among Fine name (sorted names) ((recall_failures-Fine (sorted names)).0 h)
            ((sorted_iff names name).0 ((found-Among name production).0 there)) m,
      λ h. (recall_failures-Fine (sorted names)).1 (
          Among-All Fine (sorted names) (λ name am m.
            h name m ((found-Among name production).1 ((sorted_iff names name).1 am)))),
    )

    abbrev gate_on : Option Float → Option Float → Result (List String) → Result Unit
    gate_on c p failures = and_then (found F c) (λ (c : Float). and_then (found F p) (λ (p : Float).
        if lt c (sub p (lit 1 100))
        then raises promotion_gate_error
        else and_then failures (no_failures F candidate production)))

    passed :
        (failures : Result (List String))
        → and_then failures (no_failures F candidate production) ≡ returns tt
        → failures ≡ returns []
    passed (raises e) h = absurd (cc h)
    passed (returns []) h = refl
    passed (returns (n ∷ ns)) h = absurd (cc h)

    gate_on_iff :
        (c p : Option Float) (failures : Result (List String))
        → value_of candidate "auprc" ≡ c
        → value_of production "auprc" ≡ p
        → (gate_on c p failures ≡ returns tt)
        → NotBelow (λ x. sub x (lit 1 100)) "auprc" × (failures ≡ returns [])
    gate_on_iff none p failures ec ep h = absurd (cc h)
    gate_on_iff (some c) none failures ec ep h = absurd (cc h)
    gate_on_iff (some c) (some p) failures ec ep h = split (lt c (sub p (lit 1 100))) refl h
      where
        split :
            (b : Bool)
            → lt c (sub p (lit 1 100)) ≡ b
            → (if b
                then raises promotion_gate_error
                else and_then failures (no_failures F candidate production))
              ≡ returns tt
            → NotBelow (λ x. sub x (lit 1 100)) "auprc" × (failures ≡ returns [])
        split true q h' = absurd (cc h')
        split false q h' = (
          record {
            candidate_value = c;
            production_value = p;
            candidate_has = ec;
            production_has = ep;
            not_below = q;
          },
          passed failures h',
        )

    -- For a `sorted` that keeps the entries of a list, enforce_gate raises nothing exactly when both AUPRCs
    -- are numbers and the candidate's is not below production's minus 0.01, and each recall of a fraud category that
    -- production has is a number in both and the candidate's is not below 0.9 times production's.
    pub enforce_gate-Gate : (enforce_gate F candidate production sorted ≡ returns tt) ↔ Gate
    unfolding enforce_gate
    enforce_gate-Gate = (
      λ h.
          let (auprc, none_failed) = gate_on_iff _ _ _ refl refl h in
          record { auprc = auprc; recalls = recalls_iff.0 none_failed },
      λ g.
          rw
            (
              g.auprc.candidate_has,
              g.auprc.production_has,
              g.auprc.not_below,
              recalls_iff.1 g.recalls,
            )
            refl,
    )
