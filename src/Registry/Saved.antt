-- ===== src/Registry/Saved.antt =====
-- What ModelRegistry.save of ml/registry/model_registry.py leaves behind.
use text.Mathlib.Text.{◌==◌}
use text.Mathlib.TextEquality.{eq_iff}
use fraud_forecast.Base.{
  Bool, true, false, not, Option, none, some, String, if◌then◌else◌, List, [], ◌∷◌, ◌≡◌, ◌≢◌, refl,
  sym, ap, ◌∙◌, subst, Option-cases, inl, inr, if_ind,
}
use fraud_forecast.Registry.{
  Directory, Root, directory, File, raises, returns, put, is_model_type, Result, Error, os_error,
}
use fraud_forecast.Registry.Save.{
  Artefact, Raised, Metadata, Stamp, version_name, metadata_file, save, save_in, fill, roll_back,
  unless_raised, write_model_artefact,
}
use fraud_forecast.Registry.Atomic.{put_self, put_other}

module _ (dump : Metadata → String) (artefact : Artefact) (metadata : Metadata)
    (version saved_at : String) where
  module _ (d : Directory) where
    -- How a call can end, in the directory of its model type.
    pub data SavedIn : Result String × Directory → Type 0 where
      nothing :
          {e : Error} {after : Directory}
          → ((name : String) → after name ≡ d name)
          → SavedIn (raises e, after)
      added :
          {after : Directory} (model : File)
          → write_model_artefact artefact ≡ returns model
          → d version ≡ none
          → after version
            ≡ some (directory (model ∷ metadata_file dump metadata version saved_at ∷ []))
          → ((name : String) → name ≢ version → after name ≡ d name)
          → SavedIn (returns version, after)

    rolled_back :
        (files : List File) (e : Error)
        → d version ≡ none
        → SavedIn (roll_back false version files d e)
    unfolding roll_back
    rolled_back files e h = nothing (λ name. split name (version == name) refl)
      where
        split :
            (name : String) (b : Bool)
            → (version == name) ≡ b
            → (if b then none else d name) ≡ d name
        split name true q = sym (ap d (sym ((eq_iff version name).0 q)) ∙ h)
        split name false q = refl

    unless_raised-SavedIn :
        (o : Option Error) (failed : Error → Result String × Directory)
        (rest : Result String × Directory)
        → ((e : Error) → SavedIn (failed e))
        → SavedIn rest
        → SavedIn (unless_raised o failed rest)
    unless_raised-SavedIn none failed rest f r = r
    unless_raised-SavedIn (some e) failed rest f r = f e

    fill-SavedIn :
        (raised : Raised)
        → raised.rmtree ≡ false
        → d version ≡ none
        → SavedIn (fill dump raised artefact metadata version saved_at d)
    unfolding fill
    fill-SavedIn raised r h = split (write_model_artefact artefact) refl
      where
        back : (files : List File) (e : Error) → SavedIn (roll_back raised.rmtree version files d e)
        back files e =
            subst (λ b. SavedIn (roll_back b version files d e)) (sym r) (rolled_back files e h)

        split :
            (o : Result File)
            → write_model_artefact artefact ≡ o
            → SavedIn (fill dump raised artefact metadata version saved_at d)
        split (raises e) q = rw (q, fill) (back [] e)
        split (returns model) q =
            rw (q, fill)
              (unless_raised-SavedIn raised.write_model _ _ (back []) (
                unless_raised-SavedIn raised.write_metadata _ _ (back (model ∷ [])) (
                  added model q h (put_self version _ d) (λ name n. put_other version name _ d n))))

    pub save_in-SavedIn :
        (raised : Raised)
        → raised.rmtree ≡ false
        → SavedIn (save_in dump raised artefact metadata version saved_at d)
    unfolding save_in
    save_in-SavedIn raised r =
        let same : (e : Error) → SavedIn (raises e, d) = λ e. nothing (λ name. refl) in
        unless_raised-SavedIn raised.mkdir_parents _ _ same (
          unless_raised-SavedIn raised.mkdir _ _ same (elim (Option-cases (d version)) [
            | inl h ↦ rw h (fill-SavedIn raised r h)
            | inr (n, h) ↦ rw h (same os_error)
          ]))

  module _ (model_type : String) (root : Root) where
    -- The same in the whole registry.
    pub data Saved : Result String × Root → Type 0 where
      nothing_saved :
          {e : Error} {after : Root}
          → ((other name : String) → after other name ≡ root other name)
          → Saved (raises e, after)
      saved :
          {after : Root} (model : File)
          → write_model_artefact artefact ≡ returns model
          → root model_type version ≡ none
          → after model_type version
            ≡ some (directory (model ∷ metadata_file dump metadata version saved_at ∷ []))
          → ((name : String) → name ≢ version → after model_type name ≡ root model_type name)
          → ((other : String) → other ≢ model_type → after other ≡ root other)
          → Saved (returns version, after)

    at_root :
        (o : Result String × Directory)
        → SavedIn (root model_type) o
        → Saved (o.0, put model_type o.1 root)
    at_root (raises e, d) (nothing same) =
        nothing_saved (λ other name. split other name (model_type == other) refl)
      where
        split :
            (other name : String) (b : Bool)
            → (model_type == other) ≡ b
            → (if b then d else root other) name ≡ root other name
        split other name true q =
            subst (λ m. d name ≡ root m name) ((eq_iff model_type other).0 q) (same name)
        split other name false q = refl
    at_root (returns r, d) (added model w free there others) =
        let here = put_self model_type d root in
        saved model w free (ap (λ (f : Directory). f version) here ∙ there)
          (λ name n. ap (λ (f : Directory). f name) here ∙ others name n)
          (λ other n. put_other model_type other d root n)

module _ (dump : Metadata → String) (artefact : Artefact) (metadata : Metadata) (now : Stamp)
    (uuid_hex model_type : String) (root : Root) where
  -- Where rmtree removes what it is given: a call of save that raises, at whichever step, leaves every
  -- entry of the registry as it was; one that returns found no entry of that version, has added its
  -- directory with the model's file and the metadata, and has changed nothing else.
  pub save-Saved :
      (raised : Raised)
      → raised.rmtree ≡ false
      → Saved dump artefact metadata
          (version_name now uuid_hex)
          now.isoformat
          model_type
          root
          (save dump raised model_type artefact metadata now uuid_hex root)
  unfolding save
  save-Saved raised r =
      let version = version_name now uuid_hex in
      if_ind (Saved dump artefact metadata version now.isoformat model_type root)
        (not (is_model_type model_type)) _ _ (nothing_saved (λ other name. refl))
        (at_root dump artefact metadata version now.isoformat model_type root _
          (save_in-SavedIn dump artefact metadata version now.isoformat (root model_type) raised r))
