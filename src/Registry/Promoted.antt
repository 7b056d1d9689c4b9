-- ===== src/Registry/Promoted.antt =====
-- What a call of ModelRegistry.promote of ml/registry/model_registry.py leaves behind.
use text.Mathlib.Text.{◌==◌}
use text.Mathlib.TextEquality.{eq_iff}
use fraud_forecast.Base.{◌==◌ as equals}
use fraud_forecast.Base.{
  ℕ, Bool, true, false, some, String, if◌then◌else◌, List, ◌∷◌, ◌≡◌, ◌≢◌, refl, sym, ap, ◌∙◌, subst,
  arith, Bool-cases, inl, inr,
}
use fraud_forecast.Registry.{
  Directory, Root, link, sibling, resolve, is_link, is_real_dir, is_dir, raises, returns, put,
  production, codes, is_version, stem, get_current, is_model_type, Result, Error,
  file_not_found_error, value_error,
}
use fraud_forecast.Registry.Swap.{
  Os, Laws, Outcome, tmp_name, swap, check_and_swap, promote_version,
}
use fraud_forecast.Registry.Atomic.{
  put_self, put_other, tmp_name-codes, tmp_name_ne, Atomic, kept, moved, swap-Atomic,
}

pub is_dir_real :
    (d : Directory) (name : String)
    → is_link (d name) ≡ false
    → is_dir d name ≡ is_real_dir (d name)
unfolding is_dir resolve
is_dir_real d name h = ground arith

module _ (decimal : ℕ → Bool) where
  version_first :
      (name : String) (c : ℕ) (rest : List ℕ)
      → codes name ≡ c ∷ rest
      → c ≢ 118
      → is_version decimal name ≡ false
  unfolding is_version stem
  version_first name c rest e h =
      let differs : equals 118 c ≡ false = ground arith in rw (e, differs) refl

  version_ne :
      (version : String) (name : String) (c : ℕ) (rest : List ℕ)
      → is_version decimal version ≡ true
      → codes name ≡ c ∷ rest
      → c ≢ 118
      → version ≢ name
  version_ne version name c rest v e h q =
      let no : true ≡ false = sym v ∙ ap (is_version decimal) q ∙ version_first name c rest e h in
      absurd (cc no)

  current_link :
      (model_type version : String) (root : Root)
      → is_model_type model_type ≡ true
      → is_version decimal version ≡ true
      → root model_type production ≡ some (link (sibling version))
      → is_real_dir (root model_type version) ≡ true
      → get_current decimal model_type root ≡ returns (some version)
  unfolding get_current resolve
  current_link model_type version root m v p r = ground arith

  module _ (tmp model_type version : String) (root : Root) where
    -- How a call can end: refused, or done.
    pub data Promoted : Result Unit × Root → Type 0 where
      refused :
          {e : Error} {after : Root}
          → ((other name : String) → name ≢ tmp → after other name ≡ root other name)
          → Promoted (raises e, after)
      done :
          {after : Root}
          → is_real_dir (root model_type version) ≡ true
          → get_current decimal model_type after ≡ returns (some version)
          → ((other : String) → other ≢ model_type → after other ≡ root other)
          → ((name : String)
              → name ≢ tmp
              → name ≢ production
              → after model_type name ≡ root model_type name)
          → Promoted (returns tt, after)

    put_at :
        (P : Directory → Directory → Type 0) (d : Directory)
        → ((m : Directory) → P m m)
        → P d (root model_type)
        → (other : String) → P (put model_type d root other) (root other)
    put_at P d same h other = split (model_type == other) refl
      where
        split :
            (b : Bool) → (model_type == other) ≡ b → P (if b then d else root other) (root other)
        split true e = subst (λ m. P d (root m)) ((eq_iff model_type other).0 e) h
        split false e = same (root other)

    swapped-Promoted :
        (ne : production ≢ tmp) (o : Outcome)
        → is_model_type model_type ≡ true
        → is_version decimal version ≡ true
        → version ≢ tmp
        → version ≢ production
        → is_real_dir (root model_type version) ≡ true
        → Atomic tmp version ne (root model_type) o
        → Promoted (o.0, put model_type o.1 root)
    swapped-Promoted ne (raises e, after) m v n1 n2 r (kept same) =
        refused
          (λ other name n. put_at (λ x y. x name ≡ y name) after (λ x. refl) (same name n) other)
    swapped-Promoted ne (returns u, after) m v n1 n2 r (moved p t others) =
        let here = put_self model_type after root in
        done r
          (current_link model_type version (put model_type after root) m v
            (ap (λ (d : Directory). d production) here ∙ p)
            (ap (λ (d : Directory). is_real_dir (d version)) here
              ∙ ap is_real_dir (others version n1 n2)
              ∙ r))
          (λ other n. put_other model_type other after root n)
          (λ name k1 k2. ap (λ (d : Directory). d name) here ∙ others name k1 k2)

  same_root :
      (tmp model_type version : String) (root : Root) (e : Error)
      → Promoted tmp model_type version root (raises e, put model_type (root model_type) root)
  same_root tmp model_type version root e = refused (λ other name n.
      put_at tmp model_type version root (λ x y. x name ≡ y name) (root model_type) (λ x. refl) refl
        other)

  pub version_apart :
      (pid hex version : String)
      → is_version decimal version ≡ true
      → (version ≢ tmp_name pid hex) × (version ≢ production)
  version_apart pid hex version v =
      let (rest, c) = tmp_name-codes pid hex in
      (
        version_ne version (tmp_name pid hex) 46 rest v c (ground arith),
        version_ne version production 112 _ v refl (ground arith),
      )

  checked-Promoted :
      (os : Os) (laws : Laws os) (pid hex model_type version : String) (root : Root)
      → is_model_type model_type ≡ true
      → is_version decimal version ≡ true
      → (o : Outcome) → check_and_swap os (tmp_name pid hex) version (root model_type) ≡ o
      → Promoted (tmp_name pid hex) model_type version root (o.0, put model_type o.1 root)
  unfolding check_and_swap
  checked-Promoted os laws pid hex model_type version root m v o e =
      let d = root model_type in
      let tmp = tmp_name pid hex in
      let P : Outcome → Type 0 =
        λ (q : Outcome). Promoted tmp model_type version root (q.0, put model_type q.1 root) in
      let (n1, n2) = version_apart pid hex version v in
      elim (Bool-cases (is_dir d version)) [
        | inr w ↦
            let it : check_and_swap os tmp version d ≡ (raises file_not_found_error, d) =
              rw w refl in
            subst P (sym it ∙ e) (same_root tmp model_type version root _)
        | inl w ↦ elim (Bool-cases (is_link (d version))) [
          | inl l ↦
              let it : check_and_swap os tmp version d ≡ (raises value_error, d) = rw (w, l) refl in
              subst P (sym it ∙ e) (same_root tmp model_type version root _)
          | inr l ↦
              let it : check_and_swap os tmp version d ≡ swap os tmp version d = rw (w, l) refl in
              let real = sym (is_dir_real d version l) ∙ w in
              let ne = tmp_name_ne pid hex in
              subst P (sym it ∙ e) (
                swapped-Promoted tmp model_type version root ne _ m v n1 n2 real
                  (swap-Atomic tmp version ne d os laws))
        ]
      ]

  -- Whichever calls of the operating system fail: an exception leaves every entry of the registry as it was
  -- but the temporary link, and a return means that the version's directory was real, that get_current gives
  -- the version now, and that nothing else has changed but the temporary link.
  pub promote_version-Promoted :
      (os : Os) (laws : Laws os) (pid hex model_type version : String) (root : Root)
      → Promoted
          (tmp_name pid hex)
          model_type
          version
          root
          (promote_version decimal os (tmp_name pid hex) model_type version root)
  unfolding promote_version
  promote_version-Promoted os laws pid hex model_type version root =
      elim (Bool-cases (is_version decimal version)) [
        | inr v ↦ rw (v, promote_version) (refused (λ other name n. refl))
        | inl v ↦ elim (Bool-cases (is_model_type model_type)) [
          | inr m ↦ rw (v, promote_version, m) (refused (λ other name n. refl))
          | inl m ↦
              rw (v, promote_version, m)
                (checked-Promoted os laws pid hex model_type version root m v _ refl)
        ]
      ]
