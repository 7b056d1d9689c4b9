-- ===== src/Registry.antt =====
-- ml/registry/model_registry.py: a registry of model versions in directories, with a symbolic link to the
-- one in production. The directory of each model type is a real one below the root.
pub mod Swap
pub mod Atomic
pub mod Promoted
pub mod Save
pub mod Names
pub mod Saved
pub mod Cycle
pub mod Tests
use Prim.Native.Char.{code}
use text.Mathlib.Text.{◌==◌}
use fraud_forecast.Base.{
  ℕ, zero, suc, Bool, true, false, not, ◌&&◌, ◌||◌, Option, none, some, List, [], ◌∷◌, String, leb,
  if◌then◌else◌, length,
}
use fraud_forecast.Base.{◌==◌ as equals, elem}

-- The characters of a text, by their numbers.
abbrev pub codes : String → List ℕ
codes String.[] = []
codes (String.◌∷◌ c s) = code c ∷ codes s

-- `c{n}` of a regular expression at the front of a text: what is left behind the match.
abbrev pub eat : (ℕ → Bool) → ℕ → List ℕ → Option (List ℕ)
eat test zero cs = some cs
eat test (suc n) [] = none
eat test (suc n) (c ∷ cs) = let rest = eat test n cs in if test c then rest else none

abbrev pub then_eat : (ℕ → Bool) → ℕ → Option (List ℕ) → Option (List ℕ)
then_eat test n none = none
then_eat test n (some cs) = eat test n cs

abbrev pub at_end : Option (List ℕ) → Bool
at_end none = false
at_end (some []) = true
at_end (some (c ∷ cs)) = false

-- `[0-9a-f]`
abbrev pub is_hex : ℕ → Bool
is_hex c = leb b'0' c && leb c b'9' || leb b'a' c && leb c b'f'

-- `VERSION_RE.fullmatch`; `decimal` tells the characters that `\d` matches.
module _ (decimal : ℕ → Bool) where
  unfoldable pub stem : String → Option (List ℕ)
  stem name =
      then_eat decimal 6
        (then_eat (equals b'_') 1 (then_eat decimal 8 (eat (equals b'v') 1 (codes name))))

  unfoldable pub is_version : String → Bool
  is_version name =
      at_end (stem name) || at_end (then_eat is_hex 8 (then_eat (equals b'_') 1 (stem name)))

abbrev pub starts_with_dot : List ℕ → Bool
starts_with_dot [] = false
starts_with_dot (c ∷ cs) = equals c b'.'

-- The guard of `_model_type_dir`, which leaves a single name; its path is then one below the root.
unfoldable pub is_model_type : String → Bool
is_model_type name = not (
    equals (length (codes name)) 0
    || elem b'/' (codes name)
    || elem b'\\' (codes name)
    || starts_with_dot (codes name))

-- A file, or a whole tree below a version, whose content is then that of all its files.
pub record File : Type 0 where
  pub name : String
  pub is_tree : Bool
  pub content : String

-- Where a link leads: to a name of its own directory, or elsewhere, to a directory or not.
pub data Target : Type 0 where
  sibling : String → Target
  outside : Bool → Target

pub data Node : Type 0 where
  directory : List File → Node
  regular : Node
  link : Target → Node

-- The directory of a model type, and the root with one for each.
abbrev pub Directory : Type 0
Directory = String → Option Node

abbrev pub Root : Type 0
Root = String → Directory

abbrev pub put {ℓ} : {A : Type ℓ} → String → A → (String → A) → String → A
put name a f other = if name == other then a else f other

pub data Resolved : Type 0 where
  looped : Resolved
  at : String → Resolved
  away : Bool → Resolved

-- A path resolved, with a bound on the links that it follows.
abbrev pub follow : ℕ → Directory → String → Resolved
follow zero d name = looped
follow (suc n) d name = elim (d name) [
  | some (link (sibling other)) ↦ follow n d other
  | some (link (outside is_directory)) ↦ away is_directory
  | _ ↦ at name
]

abbrev pub max_links : ℕ
max_links = 40

unfoldable pub resolve : Directory → String → Resolved
resolve d name = follow (suc max_links) d name

abbrev pub is_real_dir : Option Node → Bool
is_real_dir (some (directory files)) = true
is_real_dir _ = false

abbrev pub is_link : Option Node → Bool
is_link (some (link target)) = true
is_link _ = false

abbrev pub is_there : Option Node → Bool
is_there none = false
is_there (some _) = true

-- `Path.is_dir`, which follows links.
unfoldable pub is_dir : Directory → String → Bool
is_dir d name = elim (resolve d name) [
  | looped ↦ false
  | at other ↦ is_real_dir (d other)
  | away is_directory ↦ is_directory
]

-- The exceptions that callers tell apart, and a call that raises or returns.
pub data Error : Type 0 where
  promotion_gate_error value_error file_not_found_error type_error os_error : Error

pub data Result (A : Type 0) : Type 0 where
  raises : Error → Result A
  returns : A → Result A

-- `PRODUCTION_LINK`
abbrev pub production : String
production = "production"

abbrev pub current_of : (String → Bool) → Directory → Resolved → Option String
current_of version? d looped = none
current_of version? d (away is_directory) = none
current_of version? d (at name) =
    if is_real_dir (d name) then (if version? name then some name else none) else none

module _ (decimal : ℕ → Bool) where
  unfoldable pub get_current : String → Root → Result (Option String)
  get_current model_type root =
      if is_model_type model_type
      then returns (
          if is_link (root model_type production)
          then current_of (is_version decimal) (root model_type)
              (resolve (root model_type) production)
          else none)
      else raises value_error
