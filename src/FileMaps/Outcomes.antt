-- ===== src/FileMaps/Outcomes.antt =====
-- What `SpecMap.__getitem__` gives, without the order in which it looks at the directories.
use sims_utils.Base.{
  ◌≡◌, ◌⊎◌, inl, inr, refl, String, Bool, true, false, Option, none, some, [], ◌∷◌, str_eq,
}
use sims_utils.Base.Dict.{lookup}
use sims_utils.Base.Result.{Result, ok, err, ◌>>=◌}
use sims_utils.FileMaps.Paths.{strip, join, zipped}
use sims_utils.FileMaps.Sorting.{sorted, All, Any, sorted-All, sorted-Any}
use sims_utils.FileMaps.{
  Paths, SpecError, no_path, bad_pattern, SpecMap, subdir_map, search_dirs, in_dirs, get_item,
}

module _ (re_match : String → String → Option Bool) where
  -- A directory whose pattern matches the name, and the path there; one that does not; one whose
  -- pattern is no pattern.
  abbrev IsHit : String → String → String × String → Type 0
  IsHit name path (key, val) = (re_match key name ≡ some true) × (path ≡ join val (zipped name))

  abbrev IsMiss : String → String × String → Type 0
  IsMiss name (key, val) = re_match key name ≡ some false

  abbrev IsBad : String → String × String → Type 0
  IsBad name (key, val) = re_match key name ≡ none

  -- What a search of some directories may give.
  abbrev Searched : String → Paths → Result SpecError (Option String) → Type 0
  Searched name dirs (ok (some path)) = Any (IsHit name path) dirs
  Searched name dirs (ok none) = All (IsMiss name) dirs
  Searched name dirs (err (no_path n)) = ⊥
  Searched name dirs (err (bad_pattern k)) = Any (IsBad name) dirs

  -- What the lookup of a stripped name may give: a path of the class's own directories only where
  -- no other pattern matches, and a `KeyError` only where none does.
  unfoldable pub InDirs : Paths → String → Result SpecError String → Type 0
  InDirs dirs name (ok path) =
      Any (IsHit name path) dirs ⊎ (All (IsMiss name) dirs × Any (IsHit name path) subdir_map)
  InDirs dirs name (err (no_path n)) =
      (n ≡ name) × All (IsMiss name) dirs × All (IsMiss name) subdir_map
  InDirs dirs name (err (bad_pattern k)) = Any (IsBad name) dirs ⊎ Any (IsBad name) subdir_map

  unfoldable pub Outcome : SpecMap → String → Option String → Result SpecError String → Type 0
  Outcome m name (some path) r = r ≡ ok path
  Outcome m name none r = InDirs m.dir_dict name r

  one_more :
      (name key val : String) (dirs : Paths) (o : Option Bool)
      (rest : Result SpecError (Option String))
      → re_match key name ≡ o
      → Searched name dirs rest
      → Searched name ((key, val) ∷ dirs) (elim o [
        | none ↦ err (bad_pattern key)
        | some true ↦ ok (some (join val (zipped name)))
        | some false ↦ rest
      ])
  one_more name key val dirs none rest e h = inl e
  one_more name key val dirs (some true) rest e h = inl (e, refl)
  one_more name key val dirs (some false) (ok (some path)) e h = inr h
  one_more name key val dirs (some false) (ok none) e h = (e, h)
  one_more name key val dirs (some false) (err (no_path n)) e h = h
  one_more name key val dirs (some false) (err (bad_pattern k)) e h = inr h

  search_dirs-Searched :
      (dirs : Paths) (name : String) → Searched name dirs (search_dirs re_match dirs name)
  unfolding search_dirs
  search_dirs-Searched [] name = tt
  search_dirs-Searched ((key, val) ∷ dirs) name =
      one_more name key val dirs (re_match key name) (search_dirs re_match dirs name) refl
        (search_dirs-Searched dirs name)

  -- A search of the sorted directories is one of the directories.
  Searched-sorted :
      (name : String) (dirs : Paths) (r : Result SpecError (Option String))
      → Searched name (sorted dirs) r
      → Searched name dirs r
  Searched-sorted name dirs (ok (some path)) h = sorted-Any (IsHit name path) dirs h
  Searched-sorted name dirs (ok none) h = sorted-All (IsMiss name) dirs h
  Searched-sorted name dirs (err (no_path n)) h = h
  Searched-sorted name dirs (err (bad_pattern k)) h = sorted-Any (IsBad name) dirs h

  both_searches :
      (name : String) (dirs : Paths) (r r' : Result SpecError (Option String))
      → Searched name dirs r
      → Searched name subdir_map r'
      → InDirs dirs name (
          r >>= λ found. elim found [
            | some path ↦ ok path
            | none ↦
                r' >>= λ found'. elim found' [ some path ↦ ok path | none ↦ err (no_path name) ]
          ])
  unfolding InDirs
  both_searches name dirs (ok (some path)) r' h k = inl h
  both_searches name dirs (ok none) (ok (some path)) h k = inr (h, k)
  both_searches name dirs (ok none) (ok none) h k = (refl, h, k)
  both_searches name dirs (ok none) (err (no_path n)) h k = absurd k
  both_searches name dirs (ok none) (err (bad_pattern p)) h k = inr k
  both_searches name dirs (err (no_path n)) r' h k = absurd h
  both_searches name dirs (err (bad_pattern p)) r' h k = inl h

  found_in :
      (m : SpecMap) (name : String) (o : Option String)
      → Outcome m name o (elim o [ some path ↦ ok path | none ↦ in_dirs re_match m.dir_dict name ])
  unfolding Outcome in_dirs
  found_in m name (some path) = refl
  found_in m name none =
      both_searches name m.dir_dict (search_dirs re_match (sorted m.dir_dict) name)
        (search_dirs re_match (sorted subdir_map) name)
        (Searched-sorted name m.dir_dict _ (search_dirs-Searched (sorted m.dir_dict) name))
        (Searched-sorted name subdir_map _ (search_dirs-Searched (sorted subdir_map) name))

  -- `m[item]` for the stripped name: its path in fileDict, if it has one. Otherwise, a path in a
  -- directory of dirDict whose pattern matches, or in one of the class's own where none of dirDict
  -- does; a `KeyError` with the name only where none matches in either; and an exception of `re`
  -- only where a pattern of either raises it.
  pub get_item-Outcome :
      (m : SpecMap) (item : String)
      → Outcome m (strip item) (lookup str_eq (strip item) m.file_dict) (get_item re_match m item)
  unfolding get_item
  get_item-Outcome m item = found_in m (strip item) (lookup str_eq (strip item) m.file_dict)
