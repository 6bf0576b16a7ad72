-- ===== src/FileMaps.antt =====
-- python/lsst/sims/utils/fileMaps.py: where the spectrum of a name is, as a path.
pub mod Paths
pub mod Sorting
pub mod Outcomes
pub mod Updates
pub mod Shared
pub mod Defaults
use Prim.Native.String.{◌++◌ as ◌<>◌}
use sims_utils.Base.{
  String, Bool, true, false, Option, none, some, List, [], ◌∷◌, str_eq, if◌then◌else◌,
}
use sims_utils.Base.Dict.{Dict, lookup, insert}
use sims_utils.Base.Result.{Result, ok, err, ◌>>=◌}
use sims_utils.FileMaps.Paths.{strip, join, zipped}
use sims_utils.FileMaps.Sorting.{sorted}

pub data SpecError : Type 0 where
  -- `KeyError`, with the name
  no_path : String → SpecError
  -- what `re` raises at a pattern
  bad_pattern : String → SpecError

abbrev pub Paths : Type 0
Paths = Dict String String

pub record SpecMap : Type 0 where
  pub file_dict : Paths
  pub dir_dict : Paths

-- `if d: self.d = d`, `else: self.d = {}`
unfoldable pub given : Option Paths → Paths
given none = []
given (some d) = d

unfoldable pub spec_map : Option Paths → Option Paths → SpecMap
unfolding given
spec_map files dirs = record { file_dict = given files; dir_dict = given dirs }

unfoldable pub subdir_map : Paths
subdir_map =
    ("(^km)|(^kp)", "starSED/kurucz")
    ∷ ("(^bergeron)", "starSED/wDs")
    ∷ ("(^burrows)|(^(m|L|l)[0-9])", "starSED/old_mlt")
    ∷ ("(^lte)", "starSED/mlt")
    ∷ ("^(Exp|Inst|Burst|Const)", "galaxySED")
    ∷ []

-- `__setitem__`
unfoldable pub set_item : String → String → SpecMap → SpecMap
set_item key val m = record m { file_dict = insert str_eq key val m.file_dict }

-- `re.match(pattern, name)` as a test; `none` where it raises.
module _ (re_match : String → String → Option Bool) where
  -- The loop over the directories.
  unfoldable pub search_dirs : Paths → String → Result SpecError (Option String)
  search_dirs [] name = ok none
  search_dirs ((key, val) ∷ dirs) name =
      let rest = search_dirs dirs name in
      elim (re_match key name) [
        | none ↦ err (bad_pattern key)
        | some true ↦ ok (some (join val (zipped name)))
        | some false ↦ rest
      ]

  -- `__getitem__` once the name is stripped and is no key of `fileDict`.
  unfoldable pub in_dirs : Paths → String → Result SpecError String
  unfolding search_dirs subdir_map
  in_dirs dirs name = search_dirs (sorted dirs) name >>= λ found. elim found [
    | some path ↦ ok path
    | none ↦ search_dirs (sorted subdir_map) name >>= λ found'. elim found' [
      | some path ↦ ok path
      | none ↦ err (no_path name)
    ]
  ]

  -- `__getitem__`
  unfoldable pub get_item : SpecMap → String → Result SpecError String
  unfolding in_dirs
  get_item m item =
      let name = strip item in
      elim (lookup str_eq name m.file_dict) [ some path ↦ ok path | none ↦ in_dirs m.dir_dict name ]

  unfoldable pub has_key : SpecMap → String → Bool
  unfolding get_item
  has_key m item = elim (get_item m item) [ ok path ↦ true | err e ↦ false ]
