-- ===== src/FileMaps/Updates.antt =====
-- `SpecMap.__setitem__` as `__getitem__` and `has_key` see it.
use sims_utils.Base.{◌≡◌, String, Bool, ◌||◌, Option, arith, str_eq, if◌then◌else◌}
use sims_utils.Base.Dict.{lookup-insert, str_eq-IsKeyTest}
use sims_utils.Base.Result.{ok}
use sims_utils.FileMaps.Paths.{strip}
use sims_utils.FileMaps.{SpecMap, set_item, get_item, has_key}

module _ (re_match : String → String → Option Bool) where
  -- After `m[key] = val`, the names that strip to key have the path val, and every other name has
  -- what it had, an exception included; and `has_key` is true of the former and as before of the
  -- rest.
  pub get_item-set_item :
      (m : SpecMap) (key val item : String)
      → (get_item re_match (set_item key val m) item
          ≡ (if str_eq (strip item) key then ok val else get_item re_match m item))
        × (has_key re_match (set_item key val m) item
            ≡ (str_eq (strip item) key || has_key re_match m item))
  unfolding get_item has_key set_item
  get_item-set_item m key val item =
      ground (arith, lookup-insert str_eq str_eq-IsKeyTest key (strip item) val m.file_dict)
