-- ===== src/Promotion/Outcome.antt =====
-- How a call of promote of ml/training/promote.py can end.
use fraud_forecast.Base.{
  ℕ, Bool, true, false, none, some, List, [], ◌∷◌, ◌++◌, String, ◌≡◌, ◌≢◌, refl, ◌↔◌, Among,
}
use fraud_forecast.Base.Float.{Floats}
use fraud_forecast.Registry.{
  Root, Result, raises, returns, Error, os_error, get_current, is_version, is_model_type,
  is_real_dir, production,
}
use fraud_forecast.Registry.Swap.{Os, Laws, Works, tmp_name, promote_version}
use fraud_forecast.Registry.Promoted.{Promoted, refused, done, promote_version-Promoted}
use fraud_forecast.Promotion.{MetricsFile}
use fraud_forecast.Promotion.Promote.{
  Event, LogLine, State, Verdict, judge, event_of, append_promotion_log, after_swap, promote,
}
use fraud_forecast.Promotion.Allowed.{Allowed, judge-Allowed, judge_returns}
use fraud_forecast.Registry.Cycle.{promote_current, promote_version_returns}

module _ (F : Floats) (sorted : List String → List String)
    (sorted_iff : (names : List String) (name : String)
      → Among name names ↔ Among name (sorted names))
    (reports : String → MetricsFile F) (decimal : ℕ → Bool)
    (tmp timestamp version model_type : String) (force : Bool) (s : State F) where
  -- What was read allowed the version, and it is in production after the call.
  pub record InPlace (verdict : Verdict F) (after : Root) : Type 0 where
    pub allowed :
        Allowed F sorted sorted_iff reports decimal version model_type force s.root verdict
    pub current : get_current decimal model_type after ≡ returns (some version)
    pub others : (other : String) → other ≢ model_type → after other ≡ s.root other

  -- How a call can end.
  pub data PromoteOutcome : Result (Event F) × State F → Type 0 where
    stays :
        {e : Error} {after : Root}
        → ((other name : String) → name ≢ tmp → after other name ≡ s.root other name)
        → PromoteOutcome (raises e, record s { root = after })
    unlogged :
        {after : Root} (verdict : Verdict F)
        → InPlace verdict after
        → PromoteOutcome (raises os_error, record s { root = after })
    logged :
        {after : Root} (verdict : Verdict F)
        → InPlace verdict after
        → PromoteOutcome (
          returns (event_of F sorted reports decimal version model_type force verdict),
          record {
            root = after;
            promotion_log =
                s.promotion_log
                ++ record {
                  event = event_of F sorted reports decimal version model_type force verdict;
                  timestamp = timestamp;
                }
                  ∷ [];
          },
        )

  appended :
      (log_fails : Bool) (after : Root) (verdict : Verdict F)
      → InPlace verdict after
      → PromoteOutcome (
          append_promotion_log F sorted reports decimal log_fails timestamp
            (event_of F sorted reports decimal version model_type force verdict)
            (record s { root = after }))
  unfolding append_promotion_log
  appended true after verdict p = unlogged verdict p
  appended false after verdict p = logged verdict p

  swapped :
      (log_fails : Bool) (verdict : Verdict F) (o : Result Unit × Root)
      → Allowed F sorted sorted_iff reports decimal version model_type force s.root verdict
      → Promoted decimal tmp model_type version s.root o
      → PromoteOutcome (
          after_swap F sorted reports decimal log_fails timestamp
            (event_of F sorted reports decimal version model_type force verdict)
            s
            o)
  swapped log_fails verdict (raises e, after) a (refused same) = stays same
  swapped log_fails verdict (returns u, after) a (done real current others names) =
      appended log_fails after verdict (record { allowed = a; current = current; others = others })

  judged :
      (os : Os) (laws : Laws os) (log_fails : Bool) (r : Result (Verdict F))
      → judge F sorted reports decimal version model_type force s.root ≡ r
      → Promoted decimal tmp model_type version s.root
          (promote_version decimal os tmp model_type version s.root)
      → PromoteOutcome
          (promote F sorted reports decimal os log_fails tmp timestamp version model_type force s)
  unfolding promote
  judged os laws log_fails (raises e) q p = rw (q, promote) (stays (λ other name n. refl))
  judged os laws log_fails (returns verdict) q p =
      rw (q, promote)
        (swapped log_fails verdict _
          (judge-Allowed F sorted sorted_iff reports decimal version model_type force s.root verdict
            q)
          p)

  -- The version is in production, and the log has one more line.
  abbrev pub Succeeded : Result (Event F) × State F → Type 0
  Succeeded o =
      (get_current decimal model_type o.1.root ≡ returns (some version))
      × ((line : LogLine F) × (line.event.version ≡ version)
          × (o.1.promotion_log ≡ s.promotion_log ++ line ∷ []))

  after_swap-Succeeded :
      (verdict : Verdict F) (o : Result Unit × Root)
      → o.0 ≡ returns tt
      → get_current decimal model_type o.1 ≡ returns (some version)
      → Succeeded (
          after_swap F sorted reports decimal false timestamp
            (event_of F sorted reports decimal version model_type force verdict)
            s
            o)
  unfolding append_promotion_log
  after_swap-Succeeded verdict (raises e, after) h current = absurd (cc h)
  after_swap-Succeeded verdict (returns u, after) h current = (current, (_, refl, refl))

module _ (F : Floats) (sorted : List String → List String)
    (sorted_iff : (names : List String) (name : String)
      → Among name names ↔ Among name (sorted names))
    (reports : String → MetricsFile F) (decimal : ℕ → Bool) where
  -- Whatever fails, promote ends in one of three ways: it raises, the log is as before and so is every entry
  -- of the registry but the temporary link; or it raises an OSError, the log is as before, but the version is in
  -- production; or it returns, the version is in production, and the log has one more line, with what is returned.
  -- In the last two, what was read allowed it: the candidate's metrics were readable, and the call was
  -- forced, or nothing was in production, or the metrics of what was there were readable and passed the gate.
  pub promote-PromoteOutcome :
      (os : Os) (laws : Laws os) (log_fails : Bool) (pid hex timestamp version model_type : String)
      (force : Bool) (s : State F)
      → PromoteOutcome F sorted sorted_iff reports decimal
          (tmp_name pid hex)
          timestamp
          version
          model_type
          force
          s
          (promote F sorted reports decimal os log_fails
            (tmp_name pid hex)
            timestamp
            version
            model_type
            force
            s)
  promote-PromoteOutcome os laws log_fails pid hex timestamp version model_type force s =
      judged F sorted sorted_iff reports decimal (tmp_name pid hex) timestamp version model_type
        force s os laws log_fails _ refl
        (promote_version-Promoted decimal os laws pid hex model_type version s.root)

  -- Where the metrics that can be read allow it, the version's name is valid and its directory real, the model
  -- type is valid, nothing has the temporary link's name, `production` is no real directory, and the operating
  -- system's calls and the log work: after promote, get_current gives the version, and the log has one more
  -- line, for it.
  pub promote-Succeeded :
      (os : Os) (laws : Laws os) (works : Works os) (pid hex timestamp version model_type : String)
      (force : Bool) (s : State F) (verdict : Verdict F)
      → Allowed F sorted sorted_iff reports decimal version model_type force s.root verdict
      → is_version decimal version ≡ true
      → is_model_type model_type ≡ true
      → is_real_dir (s.root model_type version) ≡ true
      → s.root model_type (tmp_name pid hex) ≡ none
      → is_real_dir (s.root model_type production) ≡ false
      → Succeeded F sorted sorted_iff reports decimal
          (tmp_name pid hex)
          timestamp
          version
          model_type
          force
          s
          (promote F sorted reports decimal os false
            (tmp_name pid hex)
            timestamp
            version
            model_type
            force
            s)
  unfolding promote
  promote-Succeeded os laws works pid hex timestamp version model_type force s verdict a v m real
        unused no_dir =
      let (read, e) =
        judge_returns F sorted sorted_iff reports decimal version model_type force s.root verdict
          a in
      let (current, there) =
        promote_current os laws works decimal pid hex model_type version s.root v m real unused
          no_dir in
      rw (e, promote)
        (after_swap-Succeeded F sorted sorted_iff reports decimal (tmp_name pid hex) timestamp
          version model_type force s read _
          (promote_version_returns os laws works decimal pid hex model_type version s.root v m real
            unused no_dir)
          current)
