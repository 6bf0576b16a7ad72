-- ===== src/Tests/PathExamples.antt =====
-- The theorems about fileMaps.py, with patterns that are read as beginnings.
use text.Mathlib.Text.{starts_with}
use sims_utils.Base.{
  arith, ◌≡◌, refl, String, Bool, ◌||◌, Option, some, [], ◌∷◌, str_eq, if◌then◌else◌,
}
use sims_utils.Base.Dict.{lookup, insert}
use sims_utils.Base.Result.{ok}
use sims_utils.FileMaps.Paths.{strip, join, zipped}
use sims_utils.FileMaps.Sorting.{sorted}
use sims_utils.FileMaps.{SpecMap, spec_map, set_item, get_item, has_key}
use sims_utils.FileMaps.Outcomes.{Outcome, get_item-Outcome}
use sims_utils.FileMaps.Shared.{
  Heap, dict_at, new_map, set_item_of, shown, argument_at, takes, IsArgument, new_map-shares,
}
use sims_utils.FileMaps.Updates.{get_item-set_item}

abbrev begins : String → String → Option Bool
begins pattern name = some (starts_with name pattern)

abbrev two_dirs : SpecMap
unfolding spec_map
two_dirs =
    spec_map (some (("A.dat", "ssmSED/A.dat.gz") ∷ []))
      (some (("km", "second") ∷ ("k", "first/") ∷ []))

abbrev wanted : String
wanted = " km10.fits "

-- The directories are tried in the order of their patterns, not in that of the dict.
km10 : get_item begins two_dirs wanted ≡ ok "first/km10.fits.gz"
unfolding get_item strip two_dirs sorted join zipped
km10 = refl

get_item-Outcome_example :
    Outcome begins two_dirs
      (strip wanted)
      (lookup str_eq (strip wanted) two_dirs.file_dict)
      (get_item begins two_dirs wanted)
get_item-Outcome_example = get_item-Outcome begins two_dirs wanted

get_item-set_item_example :
    (get_item begins (set_item "km10.fits" "here" two_dirs) wanted
      ≡ (if str_eq (strip wanted) "km10.fits" then ok "here" else get_item begins two_dirs wanted))
    × (has_key begins (set_item "km10.fits" "here" two_dirs) wanted
        ≡ (str_eq (strip wanted) "km10.fits" || has_key begins two_dirs wanted))
get_item-set_item_example = get_item-set_item begins two_dirs "km10.fits" "here" wanted

-- Two dicts of a caller, of which the second is empty
abbrev heap : Heap
heap = (("A.dat", "here") ∷ []) ∷ [] ∷ []

new_map-shares_example :
    let (n, h') = new_map (some 0) (some 1) heap in
    (shown n h' ≡ spec_map (argument_at (some 0) heap) (argument_at (some 1) heap))
    × (dict_at 0 (set_item_of n "B.dat" "there" h') ≡ (
        if takes (some 0) 0 heap
        then insert str_eq "B.dat" "there" (dict_at 0 heap)
        else dict_at 0 heap))
unfolding IsArgument
new_map-shares_example =
    new_map-shares (some 0) (some 1) heap 0 "B.dat" "there" (omega arith) (omega arith)
      (omega arith)
