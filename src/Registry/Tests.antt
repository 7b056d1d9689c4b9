-- ===== src/Registry/Tests.antt =====
-- Runs of the registry on one model type with two versions.
use fraud_forecast.Base.{
  true, All, List, [], ◌∷◌, Option, not, ◌||◌, if◌then◌else◌, arith, ℕ, ◌≡◌, refl, Bool, false,
  ◌&&◌, none, some, [], String, leb,
}
use fraud_forecast.Registry.{
  codes, is_hex, is_there, is_real_dir, link, sibling, Directory, Root, Directory, directory, link,
  sibling, put, returns, get_current, is_version, is_model_type, stem, resolve, is_dir, stem,
}
use fraud_forecast.Registry.Swap.{
  Os, Laws, Works, tmp_name, promote_version, swap, check_and_swap, rename_over, finally, is_taken,
}
use fraud_forecast.Registry.Promoted.{Promoted, promote_version-Promoted}
use fraud_forecast.Registry.Save.{Stamp, version_name, save, save_in, fill, Raised, bytes, Metadata}
use fraud_forecast.Registry.Saved.{Saved, save-Saved}
use fraud_forecast.Registry.Cycle.{get_current-save}

abbrev pub ascii_digit : ℕ → Bool
ascii_digit c = leb b'0' c && leb c b'9'

-- A run's operating system: a call fails where its arguments are not in order.
abbrev pub unlinked : String → Directory → Option Directory
unlinked name d =
    if not (is_there (d name)) || is_real_dir (d name) then none else some (put name none d)

abbrev pub linked : (target name : String) → Directory → Option Directory
linked target name d =
    if is_there (d name) then none else some (put name (some (link (sibling target))) d)

abbrev pub replaced : (from onto : String) → Directory → Option Directory
replaced from onto d =
    if not (is_there (d from)) || is_real_dir (d onto)
    then none
    else some (put onto (d from) (put from none d))

abbrev pub posix : Os
posix = record { unlink = unlinked; symlink = linked; replace = replaced }

pub posix-Laws : Laws posix
posix-Laws = record {
  unlinks = λ name d after h. ground arith;
  links = λ target name d after h. ground arith;
  replaces = λ from onto d after h. ground arith;
}

pub posix-Works : Works posix
posix-Works = record {
  link_works = λ target name d h. rw h refl;
  replace_works = λ from onto d h1 h2. rw (h1, h2) refl;
}

abbrev pub old_version : String
old_version = "v20240101_120000"

abbrev pub new_version : String
new_version = "v20240201_120000_0123abcd"

abbrev empty_dir : Directory
empty_dir name = none

abbrev models : Directory
models = put "production" (some (link (sibling "v20240101_120000"))) (
    put "v20240101_120000" (some (directory []))
      (put "v20240201_120000_0123abcd" (some (directory [])) empty_dir))

abbrev pub root : Root
root = put "xgboost" models (λ name. empty_dir)

old_is_current : get_current ascii_digit "xgboost" root ≡ returns (some old_version)
unfolding get_current resolve is_version stem is_model_type
old_is_current = refl

moves :
    get_current ascii_digit "xgboost"
      (promote_version ascii_digit posix (tmp_name "7" "ab") "xgboost" new_version root).1
    ≡ returns (some new_version)
unfolding old_is_current promote_version check_and_swap swap rename_over finally is_taken is_dir
    tmp_name
moves = refl

promote_version-Promoted_example :
    Promoted ascii_digit
      (tmp_name "7" "ab")
      "xgboost"
      new_version
      root
      (promote_version ascii_digit posix (tmp_name "7" "ab") "xgboost" new_version root)
promote_version-Promoted_example =
    promote_version-Promoted ascii_digit posix posix-Laws "7" "ab" "xgboost" new_version root

abbrev no_dump : Metadata → String
no_dump metadata = "{}"

abbrev no_metadata : Metadata
no_metadata key = none

abbrev all_well : Raised
all_well = record {
  mkdir_parents = none;
  mkdir = none;
  write_model = none;
  write_metadata = none;
  rmtree = false;
}

abbrev march : Stamp
march = record { ymd = "20240301"; hms = "120000"; isoformat = "2024-03-01T12:00:00+00:00" }

abbrev uuid_hex : String
uuid_hex = "00ff00ff00ff00ff00ff00ff00ff00ff"

abbrev third_version : String
third_version = "v20240301_120000_00ff00ff"

third_name : version_name march uuid_hex ≡ third_version
unfolding version_name
third_name = refl

save-Saved_example :
    Saved no_dump
      (bytes "m")
      no_metadata
      (version_name march uuid_hex)
      march.isoformat
      "xgboost"
      root
      (save no_dump all_well "xgboost" (bytes "m") no_metadata march uuid_hex root)
save-Saved_example =
    save-Saved no_dump (bytes "m") no_metadata march uuid_hex "xgboost" root all_well refl

abbrev passes : (ℕ → Bool) → List ℕ → Bool
passes test [] = true
passes test (c ∷ cs) = test c && passes test cs

each_passes : (test : ℕ → Bool) (cs : List ℕ) → passes test cs ≡ true → All (λ c. test c ≡ true) cs
each_passes test [] h = tt
each_passes test (c ∷ cs) h = (ground arith, each_passes test cs (ground arith))

get_current-save_example :
    let stored = (save no_dump all_well "xgboost" (bytes "m") no_metadata march uuid_hex root).1 in
    let after =
      (promote_version ascii_digit posix (tmp_name "7" "ab") "xgboost" third_version stored).1 in
    (is_version ascii_digit third_version ≡ true)
    × (get_current ascii_digit "xgboost" after ≡ returns (some third_version))
    × (after "xgboost" third_version ≡ stored "xgboost" third_version)
unfolding is_model_type save save_in fill tmp_name version_name
get_current-save_example =
    get_current-save posix posix-Laws posix-Works ascii_digit no_dump "7" "ab" "xgboost" (bytes "m")
      no_metadata root march uuid_hex all_well refl
      (refl, each_passes ascii_digit (codes march.ymd) refl)
      (refl, each_passes ascii_digit (codes march.hms) refl)
      (refl, each_passes is_hex (codes uuid_hex) refl) refl refl refl third_version refl
