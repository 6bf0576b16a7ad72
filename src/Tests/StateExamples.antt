-- ===== src/Tests/StateExamples.antt =====
-- The theorems about what an object shows and keeps, at the observation of a sky of binary digits.
use sims_utils.Base.{◌≡◌, refl, Bool, true, some, false, List, [], ◌∷◌, inl, inr}
use sims_utils.Mjd.{Scale, tai, utc, ut1, dut1, tt as terrestrial, tdb, reads}
use sims_utils.Mjd.Settled.{IsIn, reads_settle}
use sims_utils.Observation.Assign.{build_bounds}
use sims_utils.Observation.Methods.{set_pointing_ra, guard}
use sims_utils.Observation.Steps.{apply, pointing_ra}
use sims_utils.Observation.Getters.{view, expected, IsDirect, view-apply}
use sims_utils.Compound.Angles.{Angles, single, column}
use sims_utils.Compound.Horizon.{alt_az_pa_from_ra_dec_radians, ra_dec_from_alt_az_radians}
use sims_utils.Compound.Rotator.{get_rot_sky_pos_radians, get_rot_tel_pos_radians}
use sims_utils.Compound.Untouched.{IsLeftThere, keeps_observation_of_horizon}
use sims_utils.Tests.CompoundExamples.{ephemeris}
use sims_utils.Tests.Binary.{digit, clock, sphere, visit, night, night-IsCoherent}
use sims_utils.Tests.PlaceExamples.{start}

abbrev one : Angles Bool
one = single true

view-apply_example :
    view digit clock (apply digit clock (pointing_ra false) visit).1
    ≡ expected digit clock (pointing_ra false) visit (view digit clock visit)
unfolding apply set_pointing_ra guard build_bounds IsDirect
view-apply_example = view-apply digit clock (pointing_ra false) visit tt refl

abbrev all_scales : List Scale
all_scales = ut1 ∷ tdb ∷ tai ∷ dut1 ∷ utc ∷ terrestrial ∷ []

every : (q : Scale) → IsIn digit clock q all_scales
every tai = inr (inr (inl refl))
every utc = inr (inr (inr (inr (inl refl))))
every ut1 = inl refl
every dut1 = inr (inr (inr (inl refl)))
every terrestrial = inr (inr (inr (inr (inr (inl refl)))))
every tdb = inr (inl refl)

reads_settle_example :
    ((reads digit clock (ut1 ∷ dut1 ∷ []) (reads digit clock all_scales start).1).1
      ≡ (reads digit clock all_scales start).1)
    × ((reads digit clock (ut1 ∷ dut1 ∷ []) (reads digit clock all_scales start).1).2 ≡ [])
reads_settle_example = reads_settle digit clock all_scales (ut1 ∷ dut1 ∷ []) start every

-- A number beside an array, so that each of the calls raises.
keeps_observation_of_horizon_example :
    IsLeftThere digit clock night
      (some visit)
      (alt_az_pa_from_ra_dec_radians digit clock sphere ephemeris one (column []) (some visit)).1
    × IsLeftThere digit clock night
        (some visit)
        (ra_dec_from_alt_az_radians digit clock sphere ephemeris one (column []) (some visit)).1
    × IsLeftThere digit clock night
        (some visit)
        (get_rot_sky_pos_radians digit clock sphere ephemeris one (column []) one (some visit)).1
    × IsLeftThere digit clock night
        (some visit)
        (get_rot_tel_pos_radians digit clock sphere ephemeris one (column []) one (some visit)).1
keeps_observation_of_horizon_example =
    keeps_observation_of_horizon digit clock night sphere ephemeris (some visit) one (column []) one
      night-IsCoherent
