-- ===== src/Registry/Swap.antt =====
-- ModelRegistry.promote of ml/registry/model_registry.py: the production link is swapped by renaming a
-- temporary link over it.
use Prim.Native.String.{◌++◌}
use fraud_forecast.Base.{
  ℕ, Bool, true, false, not, ◌||◌, Option, none, some, String, if◌then◌else◌, ◌≡◌,
}
use fraud_forecast.Registry.{
  Directory, Root, link, looped, at, away, resolve, is_dir, is_link, is_real_dir, is_there, Result,
  raises, returns, value_error, file_not_found_error, os_error, put, production, is_version,
  is_model_type, sibling,
}

-- `os.unlink`, `os.symlink` and `os.replace` in a directory; none is an OSError, which changes nothing.
pub record Os : Type 0 where
  pub unlink : String → Directory → Option Directory
  pub symlink : (target name : String) → Directory → Option Directory
  pub replace : (from onto : String) → Directory → Option Directory

-- Their documentation says what a call that succeeds has done.
pub record Laws (os : Os) : Type 0 where
  pub unlinks :
      (name : String) (d after : Directory)
      → os.unlink name d ≡ some after
      → after ≡ put name none d
  pub links :
      (target name : String) (d after : Directory)
      → os.symlink target name d ≡ some after
      → after ≡ put name (some (link (sibling target))) d
  pub replaces :
      (from onto : String) (d after : Directory)
      → os.replace from onto d ≡ some after
      → after ≡ put onto (d from) (put from none d)

-- And when one succeeds, where nothing outside the directory hinders it.
pub record Works (os : Os) : Type 0 where
  pub link_works :
      (target name : String) (d : Directory)
      → d name ≡ none
      → os.symlink target name d ≡ some (put name (some (link (sibling target))) d)
  pub replace_works :
      (from onto : String) (d : Directory)
      → is_there (d from) ≡ true
      → is_real_dir (d onto) ≡ false
      → os.replace from onto d ≡ some (put onto (d from) (put from none d))

-- `f".{PRODUCTION_LINK}.tmp.{os.getpid()}.{uuid.uuid4().hex}"`
unfoldable pub tmp_name : (pid hex : String) → String
tmp_name pid hex = "." ++ ("production.tmp." ++ (pid ++ ("." ++ hex)))

-- `path.exists() or path.is_symlink()`
unfoldable pub is_taken : Directory → String → Bool
is_taken d name =
    elim (resolve d name) [
      | looped ↦ false
      | at other ↦ is_there (d other)
      | away is_directory ↦ true
    ]
    || is_link (d name)

-- What a directory is after a call that may have raised, and whether it has.
abbrev pub Outcome : Type 0
Outcome = Result Unit × Directory

-- `finally: if … : tmp_symlink.unlink()`, whose own exception replaces the outcome.
unfoldable pub finally : Os → String → Outcome → Outcome
finally os tmp (r, d) =
    if is_taken d tmp
    then elim (os.unlink tmp d) [ none ↦ (raises os_error, d) | some after ↦ (r, after) ]
    else (r, d)

-- The body of the `try`.
unfoldable pub rename_over : Os → (tmp version : String) → Directory → Outcome
rename_over os tmp version d = elim (os.symlink version tmp d) [
  | none ↦ (raises os_error, d)
  | some linked ↦ elim (os.replace tmp production linked) [
    | none ↦ (raises os_error, linked)
    | some after ↦ (returns tt, after)
  ]
]

-- What follows the checks of the version.
unfoldable pub swap : Os → (tmp version : String) → Directory → Outcome
swap os tmp version d =
    if is_taken d tmp
    then elim (os.unlink tmp d) [
      | none ↦ (raises os_error, d)
      | some cleared ↦ finally os tmp (rename_over os tmp version cleared)
    ]
    else finally os tmp (rename_over os tmp version d)

unfoldable pub check_and_swap : Os → (tmp version : String) → Directory → Outcome
check_and_swap os tmp version d =
    if not (is_dir d version)
    then (raises file_not_found_error, d)
    else if is_link (d version)
    then (raises value_error, d)
    else swap os tmp version d

module _ (decimal : ℕ → Bool) where
  -- `ModelRegistry.promote`
  unfoldable pub promote_version :
      Os → (tmp model_type version : String) → Root → Result Unit × Root
  promote_version os tmp model_type version root =
      if not (is_version decimal version) || not (is_model_type model_type)
      then (raises value_error, root)
      else let (result, d) = check_and_swap os tmp version (root model_type) in
        (result, put model_type d root)
