-- ===== src/Promotion/Allowed.antt =====
-- When promote of ml/training/promote.py gets past its gate.
use fraud_forecast.Base.{
  ℕ, Bool, true, false, Option, none, some, List, String, ◌≡◌, refl, subst, ap, ◌∙◌, ◌↔◌, ◌⊎◌, inl,
  inr, Among,
}
use fraud_forecast.Base.Float.{Floats}
use fraud_forecast.Registry.{Root, Result, raises, returns, get_current}
use fraud_forecast.Promotion.{
  Metrics, MetricsFile, missing, unreadable, readable, load_metrics, and_then,
}
use fraud_forecast.Promotion.Gate.{Gate, enforce_gate-Gate}
use fraud_forecast.Promotion.Promote.{Verdict, baseline, production_baseline, gate, judge}

module _ (F : Floats) (sorted : List String → List String)
    (sorted_iff : (names : List String) (name : String)
      → Among name names ↔ Among name (sorted names))
    (reports : String → MetricsFile F) where
  -- Force, no version in production, or metrics of that version and the gate.
  pub data Passes (force : Bool) (candidate : Metrics F)
      : Option String → Option (Metrics F) → Type 0 where
    forced :
        {current : Option String} {baseline : Option (Metrics F)}
        → force ≡ true
        → Passes force candidate current baseline
    first : Passes force candidate none none
    compared :
        {production_version : String} {production : Metrics F}
        → reports production_version ≡ readable production
        → Gate F candidate production
        → Passes force candidate (some production_version) (some production)

  load_metrics-readable :
      (file : MetricsFile F) (m : Metrics F) → load_metrics F file ≡ returns m → file ≡ readable m
  load_metrics-readable missing m h = absurd (cc h)
  load_metrics-readable (unreadable true) m h = absurd (cc h)
  load_metrics-readable (unreadable false) m h = absurd (cc h)
  load_metrics-readable (readable metrics) m h = ap readable (cc h)

  and_then_inv :
      {A B : Type 0} (r : Result A) (next : A → Result B) (b : B)
      → and_then r next ≡ returns b
      → (a : A) × (r ≡ returns a) × (next a ≡ returns b)
  and_then_inv (raises e) next b h = absurd (cc h)
  and_then_inv (returns a) next b h = (a, refl, h)

  baseline_cases :
      (force : Bool) (file : MetricsFile F) (b : Option (Metrics F))
      → baseline F force file ≡ returns b
      → (force ≡ true)
        ⊎ ((production : Metrics F) × (file ≡ readable production) × (b ≡ some production))
  baseline_cases true file b h = inl refl
  baseline_cases false missing b h = absurd (cc h)
  baseline_cases false (unreadable os) b h = absurd (cc h)
  baseline_cases false (readable m) b h = inr (m, refl, cc h)

  gate-Passes :
      (force : Bool) (candidate : Metrics F) (current : Option String) (b : Option (Metrics F))
      → production_baseline F sorted reports force current ≡ returns b
      → gate F sorted reports force candidate b ≡ returns tt
      → Passes force candidate current b
  gate-Passes true candidate current b hb hg = forced refl
  gate-Passes false candidate none none hb hg = first
  gate-Passes false candidate none (some p) hb hg = absurd (cc hb)
  gate-Passes false candidate (some v) none hb hg =
      elim (baseline_cases false (reports v) none hb) [
        | inl f ↦ absurd (cc f)
        | inr (p, e, q) ↦ absurd (cc q)
      ]
  gate-Passes false candidate (some v) (some p) hb hg =
      elim (baseline_cases false (reports v) (some p) hb) [
        | inl f ↦ absurd (cc f)
        | inr (p', e, q) ↦
            compared (e ∙ ap readable (cc q))
              ((enforce_gate-Gate F candidate p sorted sorted_iff).0 hg)
      ]

  abbrev Goes : (force : Bool) → Metrics F → Option String → Type 0
  Goes force candidate current =
      (production : Option (Metrics F)) × (production_baseline F sorted reports force current
        ≡ returns production)
      × (gate F sorted reports force candidate production ≡ returns tt)

  gate_forced :
      (candidate : Metrics F) (b : Option (Metrics F))
      → gate F sorted reports true candidate b ≡ returns tt
  gate_forced candidate none = refl
  gate_forced candidate (some p) = refl

  baseline_forced :
      (file : MetricsFile F) → (b : Option (Metrics F)) × (baseline F true file ≡ returns b)
  baseline_forced missing = (none, refl)
  baseline_forced (unreadable os) = (none, refl)
  baseline_forced (readable m) = (some m, refl)

  with_force : (candidate : Metrics F) (current : Option String) → Goes true candidate current
  with_force candidate none = (none, refl, refl)
  with_force candidate (some v) =
      let (b, e) = baseline_forced (reports v) in (b, e, gate_forced candidate b)

  passing :
      (force : Bool) (candidate : Metrics F) (current : Option String) (b : Option (Metrics F))
      → Passes force candidate current b
      → Goes force candidate current
  passing true candidate current b p = with_force candidate current
  passing false candidate current b (forced f) = absurd (cc f)
  passing false candidate none none first = (none, refl, refl)
  passing false candidate (some v) (some p) (compared e g) =
      (some p, ap (baseline F false) e, (enforce_gate-Gate F candidate p sorted sorted_iff).1 g)

  module _ (decimal : ℕ → Bool) (version model_type : String) (force : Bool) (root : Root) where
    -- What the call has read, and that it passes.
    pub record Allowed (verdict : Verdict F) : Type 0 where
      pub candidate_read : reports version ≡ readable verdict.candidate_metrics
      pub current_read : get_current decimal model_type root ≡ returns verdict.production_version
      pub passes :
          Passes force verdict.candidate_metrics verdict.production_version
            verdict.production_metrics

    pub judge-Allowed :
        (verdict : Verdict F)
        → judge F sorted reports decimal version model_type force root ≡ returns verdict
        → Allowed verdict
    unfolding judge
    judge-Allowed verdict h =
        let (candidate, ec, h1) = and_then_inv _ _ verdict h in
        let (current, ev, h2) = and_then_inv _ _ verdict h1 in
        let (production, ep, h3) = and_then_inv _ _ verdict h2 in
        let (passed, eg, h4) = and_then_inv _ _ verdict h3 in
        let same : record {
          candidate_metrics = candidate;
          production_version = current;
          production_metrics = production;
        }
            ≡ verdict =
          cc h4 in
        subst Allowed same (record {
          candidate_read = load_metrics-readable (reports version) candidate ec;
          current_read = ev;
          passes = gate-Passes force candidate current production ep eg;
        })

    pub judge_returns :
        (verdict : Verdict F)
        → Allowed verdict
        → (other : Verdict F) × (judge F sorted reports decimal version model_type force root
            ≡ returns other)
    unfolding judge
    judge_returns verdict a =
        let (production, ep, eg) =
          passing force verdict.candidate_metrics verdict.production_version
            verdict.production_metrics a.passes in
        (
          record {
            candidate_metrics = verdict.candidate_metrics;
            production_version = verdict.production_version;
            production_metrics = production;
          },
          rw (ap (load_metrics F) a.candidate_read, a.current_read, ep, eg) refl,
        )
