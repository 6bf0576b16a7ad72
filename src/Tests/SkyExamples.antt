-- ===== src/Tests/SkyExamples.antt =====
-- The theorems about healpyUtils.py on the small sky.
use sims_utils.Base.{◌≡◌, refl, some, List, [], ◌∷◌, arith, get_elem?}
use sims_utils.Base.Int.{pos}
use sims_utils.Base.Result.{ok}
use sims_utils.Healpix.{ra_dec_to_hpid_radians, healbin_radians}
use sims_utils.Healpix.Grouping.{values_in}
use sims_utils.Healpix.Binning.{pixel_of, healbin_radians_at}
use sims_utils.Tests.Sky.{Arr, arrays, sky, sky-IsHealpy}
use mathlib.Core.List.{Permᴰ}

abbrev lon : Arr
lon = pos 5 ∷ pos 2 ∷ pos 17 ∷ []

abbrev lat : Arr
lat = pos 0 ∷ pos 0 ∷ pos 0 ∷ []

abbrev values : List Arr
values = (pos 70 ∷ []) ∷ (pos 80 ∷ []) ∷ (pos 90 ∷ []) ∷ []

-- The first of the values.
abbrev reduce : List Arr → Arr
reduce [] = []
reduce (x ∷ xs) = x

healbin_radians_at_example :
    (m : List Arr) × (healbin_radians arrays sky lon lat values 1 reduce (pos 0 ∷ []) ≡ ok m)
    × (vs : List Arr) × Permᴰ vs (values_in 5 (ra_dec_to_hpid_radians arrays sky 1 lon lat) values)
    × (get_elem? m 5 ≡ some (pixel_of arrays sky reduce vs))
unfolding ra_dec_to_hpid_radians
healbin_radians_at_example =
    healbin_radians_at arrays sky sky-IsHealpy reduce (pos 0 ∷ []) lon lat 1 values 5 refl
      (omega arith) (omega arith)
