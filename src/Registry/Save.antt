-- ===== src/Registry/Save.antt =====
-- ModelRegistry.save of ml/registry/model_registry.py: a new version is written into its own directory, which
-- is removed again when a step fails.
use Prim.Native.String.{◌++◌}
use fraud_forecast.Base.{
  ℕ, zero, suc, Bool, true, false, not, Option, none, some, String, if◌then◌else◌, List, [], ◌∷◌,
}
use fraud_forecast.Registry.{
  Directory, Root, directory, is_there, put, File, Result, raises, returns, Error, value_error,
  os_error, type_error, is_model_type,
}

-- What `strftime` and `isoformat` of the time of a call give.
pub record Stamp : Type 0 where
  -- "%Y%m%d" and "%H%M%S"
  pub ymd : String
  pub hms : String
  pub isoformat : String

-- `text[:n]`
abbrev pub first : ℕ → String → String
first zero text = ""
first (suc n) String.[] = ""
first (suc n) (String.◌∷◌ c text) = String.◌∷◌ c (first n text)

-- `now.strftime("v%Y%m%d_%H%M%S") + "_" + uuid.uuid4().hex[:8]`
unfoldable pub version_name : Stamp → (uuid_hex : String) → String
version_name now uuid_hex = "v" ++ (now.ymd ++ ("_" ++ (now.hms ++ ("_" ++ first 8 uuid_hex))))

-- `Union[bytes, Path]`, where a path leads to a file or to a directory; what else a caller may pass.
pub data Artefact : Type 0 where
  bytes : String → Artefact
  file_path : String → Artefact
  directory_path : String → Artefact
  neither : Artefact

-- What each step raises, if it does.
pub record Raised : Type 0 where
  pub mkdir_parents : Option Error
  pub mkdir : Option Error
  pub write_model : Option Error
  pub write_metadata : Option Error
  -- Whether `rmtree` leaves the files where they are.
  pub rmtree : Bool

abbrev pub Metadata : Type 0
Metadata = String → Option String

-- `_write_model_artefact` on `model_path`, the file that it makes.
abbrev pub write_model_artefact : Artefact → Result File
write_model_artefact (bytes content) =
    returns (record { name = "model.bst"; is_tree = false; content = content })
write_model_artefact (file_path content) =
    returns (record { name = "model.bst"; is_tree = false; content = content })
write_model_artefact (directory_path content) =
    returns (record { name = "saved_model"; is_tree = true; content = content })
write_model_artefact neither = raises type_error

-- A step that may raise, before what comes after it.
abbrev pub unless_raised {ℓ} : {A : Type ℓ} → Option Error → (Error → A) → A → A
unless_raised none failed rest = rest
unless_raised (some e) failed rest = failed e

-- `except BaseException: if created: rmtree(version_dir, ignore_errors=True)`
unfoldable pub roll_back : Bool → String → List File → Directory → Error → Result String × Directory
roll_back stays version files d e =
    (raises e, put version (if stays then some (directory files) else none) d)

module _ (dump : Metadata → String) where
  -- `_write_metadata`
  abbrev pub metadata_file : Metadata → (version saved_at : String) → File
  metadata_file metadata version saved_at = record {
    name = "metadata.json";
    is_tree = false;
    content = dump (put "version" (some version) (put "saved_at" (some saved_at) metadata));
  }

  -- The body of the `try` behind the creation of the version's directory.
  unfoldable pub fill :
      Raised
      → Artefact
      → Metadata
      → (version saved_at : String) → Directory
      → Result String × Directory
  fill raised artefact metadata version saved_at d = elim (write_model_artefact artefact) [
    | raises e ↦ roll_back raised.rmtree version [] d e
    | returns model ↦ unless_raised raised.write_model (roll_back raised.rmtree version [] d) (
        unless_raised raised.write_metadata (roll_back raised.rmtree version (model ∷ []) d) (
          returns version,
          put version (some (directory (model ∷ metadata_file metadata version saved_at ∷ []))) d,
        ))
  ]

  unfoldable pub save_in :
      Raised
      → Artefact
      → Metadata
      → (version saved_at : String) → Directory
      → Result String × Directory
  save_in raised artefact metadata version saved_at d =
      unless_raised raised.mkdir_parents (λ e. (raises e, d))
        (unless_raised raised.mkdir (λ e. (raises e, d))
          (if is_there (d version)
            then (raises os_error, d)
            else fill raised artefact metadata version saved_at d))

  -- `save`, at the time `now` and with the text that `uuid4().hex` gives.
  unfoldable pub save :
      Raised
      → (model_type : String) → Artefact
      → Metadata
      → (now : Stamp) → (uuid_hex : String) → Root
      → Result String × Root
  save raised model_type artefact metadata now uuid_hex root =
      if not (is_model_type model_type)
      then (raises value_error, root)
      else let (result, d) =
          save_in raised artefact metadata (version_name now uuid_hex) now.isoformat
            (root model_type) in
        (result, put model_type d root)
