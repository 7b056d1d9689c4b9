-- ===== src/Registry/Atomic.antt =====
-- ModelRegistry.promote of ml/registry/model_registry.py moves the production link in one step or leaves it.
use Prim.Native.String.append
use text.Mathlib.TextEquality.{eq_iff}
use fraud_forecast.Base.{
  ℕ, true, false, Option, none, some, String, List, ◌∷◌, ◌≡◌, ◌≢◌, refl, sym, ap, ◌∙◌, subst, arith,
  Option-cases, inl, inr, if_ind,
}
use fraud_forecast.Registry.{
  Directory, Node, link, sibling, resolve, raises, returns, put, production, codes, Error,
  starts_with_dot,
}
use fraud_forecast.Registry.Swap.{Os, Laws, Outcome, tmp_name, is_taken, finally, rename_over, swap}

module _ {ℓ} {A : Type ℓ} where
  pub put_self : (name : String) (a : A) (f : String → A) → put name a f name ≡ a
  put_self name a f = ground (arith, eq_iff name name)

  pub put_other :
      (name other : String) (a : A) (f : String → A) → other ≢ name → put name a f other ≡ f other
  put_other name other a f h = ground (arith, eq_iff name other, λ (e : name ≡ other). h (sym e))

pub tmp_name-codes : (pid hex : String) → (rest : List ℕ) × (codes (tmp_name pid hex) ≡ 46 ∷ rest)
unfolding tmp_name
tmp_name-codes pid hex = (_, ap codes (append.cons _ String.[] _))

pub tmp_name_ne : (pid hex : String) → production ≢ tmp_name pid hex
tmp_name_ne pid hex e =
    let (rest, c) = tmp_name-codes pid hex in
    let dot : false ≡ true = ap starts_with_dot (ap codes e ∙ c) in absurd (cc dot)

-- Nothing but the entry `tmp` differs.
abbrev pub OnlyTmp : (tmp : String) → Directory → Directory → Type 0
OnlyTmp tmp d after = (other : String) → other ≢ tmp → after other ≡ d other

pub not_taken : (d : Directory) (name : String) → d name ≡ none → is_taken d name ≡ false
unfolding is_taken resolve
not_taken d name e = rw e (rw e refl)

module _ (tmp version : String) (ne : production ≢ tmp) (d : Directory) where
  -- How a swap can end: the directory is kept, or the production link has moved.
  pub data Atomic : Outcome → Type 0 where
    kept : {e : Error} {after : Directory} → OnlyTmp tmp d after → Atomic (raises e, after)
    moved :
        {after : Directory}
        → after production ≡ some (link (sibling version))
        → after tmp ≡ none
        → ((other : String) → other ≢ tmp → other ≢ production → after other ≡ d other)
        → Atomic (returns tt, after)

  put_tmp :
      (node : Option Node) (start : Directory)
      → OnlyTmp tmp d start
      → OnlyTmp tmp d (put tmp node start)
  put_tmp node start h other n = put_other tmp other node start n ∙ h other n

  module _ (os : Os) (laws : Laws os) where
    replaced-Atomic :
        (linked after : Directory)
        → OnlyTmp tmp d linked
        → linked tmp ≡ some (link (sibling version))
        → os.replace tmp production linked ≡ some after
        → Atomic (returns tt, after)
    replaced-Atomic linked after h there r =
        let e = laws.replaces tmp production linked after r in
        let cleared = put tmp none linked in
        subst (λ a. Atomic (returns tt, a)) (sym e)
          (moved (put_self production (linked tmp) cleared ∙ there)
            (put_other production tmp (linked tmp) cleared (λ q. ne (sym q))
              ∙ put_self tmp none linked)
            (λ other n1 n2.
              put_other production other (linked tmp) cleared n2 ∙ put_tmp none linked h other n1))

    rename_over-Atomic :
        (start : Directory) → OnlyTmp tmp d start → Atomic (rename_over os tmp version start)
    unfolding rename_over
    rename_over-Atomic start h = elim (Option-cases (os.symlink version tmp start)) [
      | inl w ↦ rw (w, rename_over) (kept h)
      | inr (linked, w) ↦
          let e = laws.links version tmp start linked w in
          let h' : OnlyTmp tmp d linked =
            subst (OnlyTmp tmp d) (sym e) (put_tmp (some (link (sibling version))) start h) in
          let there : linked tmp ≡ some (link (sibling version)) =
            ap (λ (f : Directory). f tmp) e ∙ put_self tmp (some (link (sibling version))) start in
          elim (Option-cases (os.replace tmp production linked)) [
            | inl q ↦ rw (w, rename_over, q) (kept h')
            | inr (after, q) ↦ rw (w, rename_over, q) (replaced-Atomic linked after h' there q)
          ]
    ]

    finally-Atomic : (o : Outcome) → Atomic o → Atomic (finally os tmp o)
    unfolding finally
    finally-Atomic (raises e, after) (kept h) =
        if_ind Atomic (is_taken after tmp) _ _
          (elim (Option-cases (os.unlink tmp after)) [
            | inl w ↦ rw w (kept h)
            | inr (cleared, w) ↦ rw w (
                kept (
                  subst (OnlyTmp tmp d) (sym (laws.unlinks tmp after cleared w))
                    (put_tmp none after h)))
          ])
          (kept h)
    finally-Atomic (returns u, after) (moved p t o) = rw (not_taken after tmp t) (moved p t o)

    pub swap-Atomic : Atomic (swap os tmp version d)
    unfolding swap
    swap-Atomic =
        let over : (start : Directory)
            → OnlyTmp tmp d start
            → Atomic (finally os tmp (rename_over os tmp version start)) =
          λ start h. finally-Atomic _ (rename_over-Atomic start h) in
        let same : OnlyTmp tmp d d = λ other n. refl in
        if_ind Atomic (is_taken d tmp) _ _
          (elim (Option-cases (os.unlink tmp d)) [
            | inl w ↦ rw w (kept same)
            | inr (cleared, w) ↦ rw w (
                over cleared (
                  subst (OnlyTmp tmp d) (sym (laws.unlinks tmp d cleared w)) (put_tmp none d same)))
          ])
          (over d same)
