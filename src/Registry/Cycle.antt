-- ===== src/Registry/Cycle.antt =====
-- A version that ModelRegistry.save of ml/registry/model_registry.py has written can be promoted and read back.
use fraud_forecast.Base.{
  subst, ℕ, Bool, true, false, none, some, String, ◌≡◌, ◌≢◌, refl, sym, ap, ◌∙◌, arith,
}
use fraud_forecast.Registry.{
  Directory, Root, is_there, is_real_dir, raises, returns, put, is_model_type, Result, is_version,
  production, link, sibling, get_current, is_link,
}
use fraud_forecast.Registry.Swap.{
  Os, Laws, Works, tmp_name, swap, check_and_swap, promote_version, rename_over, finally,
}
use fraud_forecast.Registry.Promoted.{
  is_dir_real, Promoted, refused, done, promote_version-Promoted, version_apart,
}
use fraud_forecast.Registry.Save.{Artefact, Metadata, Raised, Stamp, version_name, save}
use fraud_forecast.Registry.{is_hex}
use fraud_forecast.Registry.Names.{Spelled, is_version-version_name}
use fraud_forecast.Registry.Saved.{Saved, nothing_saved, saved, save-Saved}
use fraud_forecast.Registry.Atomic.{put_self, put_other, not_taken, tmp_name_ne}

module _ (os : Os) (works : Works os) (tmp version : String) (ne : production ≢ tmp) (d : Directory)
    (unused : d tmp ≡ none) (no_dir : is_real_dir (d production) ≡ false) where
  linked_eq : os.symlink version tmp d ≡ some (put tmp (some (link (sibling version))) d)
  linked_eq = works.link_works version tmp d unused

  abbrev linked : Directory
  linked = put tmp (some (link (sibling version))) d

  replaced_eq :
      os.replace tmp production linked ≡ some (put production (linked tmp) (put tmp none linked))
  replaced_eq =
      let there = ap is_there (put_self tmp (some (link (sibling version))) d) in
      let clear =
        ap is_real_dir (put_other tmp production (some (link (sibling version))) d ne) ∙ no_dir in
      works.replace_works tmp production linked there clear

  swapped_clear : put production (linked tmp) (put tmp none linked) tmp ≡ none
  swapped_clear =
      put_other production tmp (linked tmp) (put tmp none linked) (λ q. ne (sym q))
      ∙ put_self tmp none linked

  renamed :
      rename_over os tmp version d ≡ (returns tt, put production (linked tmp) (put tmp none linked))
  unfolding rename_over
  renamed = rw (linked_eq, rename_over, replaced_eq) refl

  closed :
      finally os tmp (rename_over os tmp version d)
      ≡ (returns tt, put production (linked tmp) (put tmp none linked))
  unfolding finally
  closed =
      rw
        (
          renamed,
          finally,
          not_taken (put production (linked tmp) (put tmp none linked)) tmp swapped_clear,
        )
        refl

  pub swap_returns : (swap os tmp version d).0 ≡ returns tt
  unfolding swap
  swap_returns = rw (not_taken d tmp unused, closed) refl

module _ (os : Os) (laws : Laws os) (works : Works os) (decimal : ℕ → Bool)
    (pid hex model_type version : String) (root : Root) where
  pub promote_version_returns :
      is_version decimal version ≡ true
      → is_model_type model_type ≡ true
      → is_real_dir (root model_type version) ≡ true
      → root model_type (tmp_name pid hex) ≡ none
      → is_real_dir (root model_type production) ≡ false
      → (promote_version decimal os (tmp_name pid hex) model_type version root).0 ≡ returns tt
  unfolding promote_version check_and_swap
  promote_version_returns v m real unused no_dir =
      let d = root model_type in
      let no_link : is_link (d version) ≡ false = ground arith in
      let there = is_dir_real d version no_link ∙ real in
      rw (v, promote_version, m, there, check_and_swap, no_link)
        (swap_returns os works (tmp_name pid hex) version (tmp_name_ne pid hex) d unused no_dir)

  current_after :
      (o : Result Unit × Root)
      → is_version decimal version ≡ true
      → Promoted decimal (tmp_name pid hex) model_type version root o
      → o.0 ≡ returns tt
      → (get_current decimal model_type o.1 ≡ returns (some version))
        × (o.1 model_type version ≡ root model_type version)
  current_after (raises e, after) v (refused same) h = absurd (cc h)
  current_after (returns u, after) v (done real current others names) h =
      let (n1, n2) = version_apart decimal pid hex version v in (current, names version n1 n2)

  pub promote_current :
      is_version decimal version ≡ true
      → is_model_type model_type ≡ true
      → is_real_dir (root model_type version) ≡ true
      → root model_type (tmp_name pid hex) ≡ none
      → is_real_dir (root model_type production) ≡ false
      → (get_current decimal model_type
            (promote_version decimal os (tmp_name pid hex) model_type version root).1
          ≡ returns (some version))
        × ((promote_version decimal os (tmp_name pid hex) model_type version root).1 model_type
              version
            ≡ root model_type version)
  promote_current v m real unused no_dir =
      current_after _ v (promote_version-Promoted decimal os laws pid hex model_type version root)
        (promote_version_returns v m real unused no_dir)

module _ (os : Os) (laws : Laws os) (works : Works os) (decimal : ℕ → Bool)
    (dump : Metadata → String) (pid hex model_type version saved_at : String) (artefact : Artefact)
    (metadata : Metadata) (root : Root) where
  current_after_save :
      (o : Result String × Root)
      → is_version decimal version ≡ true
      → is_model_type model_type ≡ true
      → root model_type (tmp_name pid hex) ≡ none
      → is_real_dir (root model_type production) ≡ false
      → Saved dump artefact metadata version saved_at model_type root o
      → o.0 ≡ returns version
      → let after = (promote_version decimal os (tmp_name pid hex) model_type version o.1).1 in
        (get_current decimal model_type after ≡ returns (some version))
        × (after model_type version ≡ o.1 model_type version)
  current_after_save (raises e, after) v m unused no_dir (nothing_saved same) h = absurd (cc h)
  current_after_save (returns r, after) v m unused no_dir (saved model w free there names others)
        h =
      let (n1, n2) = version_apart decimal pid hex version v in
      promote_current os laws works decimal pid hex model_type version after v m
        (ap is_real_dir there) (names (tmp_name pid hex) (λ q. n1 (sym q)) ∙ unused)
        (ap is_real_dir (names production (λ q. n2 (sym q))) ∙ no_dir)

module _ (os : Os) (laws : Laws os) (works : Works os) (decimal : ℕ → Bool)
    (dump : Metadata → String) (pid hex model_type : String) (artefact : Artefact)
    (metadata : Metadata) (root : Root) (now : Stamp) (uuid_hex : String) where
  named :
      {version : String} (o : Result String × Root)
      → Saved dump artefact metadata (version_name now uuid_hex) now.isoformat model_type root o
      → o.0 ≡ returns version
      → version_name now uuid_hex ≡ version
  named (raises e, after) (nothing_saved same) h = absurd (cc h)
  named (returns r, after) (saved model w free there names others) h = cc h

  -- Where `strftime` gives eight and six digits, the UUID's text has 32 hexadecimal digits,
  -- rmtree works, the model type is valid, nothing has the temporary link's name, `production` is no real directory, and
  -- the operating system's calls work: the name that save returns has the form of a version, and after promote
  -- of that name get_current gives it, with the directory that save has written.
  pub get_current-save :
      (raised : Raised)
      → raised.rmtree ≡ false
      → Spelled decimal 8 now.ymd
      → Spelled decimal 6 now.hms
      → Spelled is_hex 32 uuid_hex
      → is_model_type model_type ≡ true
      → root model_type (tmp_name pid hex) ≡ none
      → is_real_dir (root model_type production) ≡ false
      → (version : String)
      → (save dump raised model_type artefact metadata now uuid_hex root).0 ≡ returns version
      → let stored = (save dump raised model_type artefact metadata now uuid_hex root).1 in
        let after = (promote_version decimal os (tmp_name pid hex) model_type version stored).1 in
        (is_version decimal version ≡ true)
        × (get_current decimal model_type after ≡ returns (some version))
        × (after model_type version ≡ stored model_type version)
  get_current-save raised r ymd hms hexes m unused no_dir version h =
      let name = version_name now uuid_hex in
      let valid = is_version-version_name decimal now uuid_hex ymd hms hexes in
      let kept = save-Saved dump artefact metadata now uuid_hex model_type root raised r in
      let same : name ≡ version = named _ kept h in
      subst
        (λ (v : String).
          let stored = (save dump raised model_type artefact metadata now uuid_hex root).1 in
          let after = (promote_version decimal os (tmp_name pid hex) model_type v stored).1 in
          (is_version decimal v ≡ true)
          × (get_current decimal model_type after ≡ returns (some v))
          × (after model_type v ≡ stored model_type v))
        same
        (let (current, there) =
            current_after_save os laws works decimal dump pid hex model_type name now.isoformat
              artefact metadata root _ valid m unused no_dir kept (h ∙ ap returns (sym same)) in
          (valid, current, there))
