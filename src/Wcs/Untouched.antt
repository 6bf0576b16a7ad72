-- ===== src/Wcs/Untouched.antt =====
-- What the functions of WcsUtils.py, of FocalPlaneUtils.py and of observed places in
-- AstrometryUtils.py leave of the observation that they are given.
use sims_utils.Base.{◌≡◌, Bool, Option, some, List}
use sims_utils.Base.Frame.{IsSafe}
use sims_utils.Numpy.{Numpy}
use sims_utils.Astropy.{Astropy}
use sims_utils.Palpy.Places.{Places}
use sims_utils.Mjd.Reads.{Given}
use sims_utils.Observation.State.{ObservationMetaData}
use sims_utils.Astrometry.Observed.{Maybe, observed_from_icrs_radians, icrs_from_observed_radians}
use sims_utils.Astrometry.Untouched.{
  steps, observations, IsRight, IsLeftOf, IsSafeForSome, on_some-IsSafe, unless_none-IsSafe,
  observed_from_icrs-IsSafe, icrs_from_observed-IsSafe,
}
use sims_utils.FocalPlane.Projection.{
  observed_in_2000, observed_pointing, rotate, orientation, can_project, projected,
  pupil_coords_from_ra_dec_radians, can_deproject, deprojected, ra_dec_from_pupil_coords_radians,
}
use sims_utils.Wcs.Sky.{
  pointing_of, native_about_pointing, native_from_ra_dec_arrays, ra_dec_from_native_arrays,
}

module _ (N : Numpy) (A : Astropy N) (g : Given N A) (P : Places N) where
  open N use {Object}

  pub in_2000-IsSafe :
      (ra dec : List Object) → IsSafe (observations N A g) (observed_in_2000 N A P ra dec)
  unfolding observed_in_2000
  in_2000-IsSafe ra dec = search (on_some-IsSafe, observed_from_icrs-IsSafe)

  pub observed_pointing-IsSafe :
      (ra dec : Object) → IsSafe (observations N A g) (observed_pointing N A P ra dec)
  unfolding observed_pointing
  observed_pointing-IsSafe ra dec = search (steps, in_2000-IsSafe)

  rotate-IsSafe :
      (theta : Object) (x y : List Object) → IsSafe (observations N A g) (rotate N A P theta x y)
  unfolding rotate
  rotate-IsSafe theta x y = search (steps)

  orientation-IsSafe : IsSafe (observations N A g) (orientation N A P)
  unfolding orientation
  orientation-IsSafe = search (steps)

  can_project-IsSafe :
      (ra dec : List Object) (epoch : Option Object)
      → IsSafe (observations N A g) (can_project N A P ra dec epoch)
  unfolding can_project
  can_project-IsSafe ra dec epoch = search (steps, orientation-IsSafe) depth 9

  projected-IsSafe :
      (ra dec : List Object) (at : Object × Object × Object)
      → IsSafe (observations N A g) (projected N A P ra dec at)
  unfolding projected
  projected-IsSafe ra dec at =
      search (steps, in_2000-IsSafe, observed_pointing-IsSafe, rotate-IsSafe)

  pupil-IsSafe :
      (ra dec : List Object) (epoch : Option Object)
      → IsSafeForSome N A g (pupil_coords_from_ra_dec_radians N A P ra dec epoch)
  unfolding pupil_coords_from_ra_dec_radians
  pupil-IsSafe ra dec epoch =
      search (steps, unless_none-IsSafe, can_project-IsSafe, projected-IsSafe)

  can_deproject-IsSafe :
      (x y : List Object) (epoch : Option Object)
      → IsSafe (observations N A g) (can_deproject N A P x y epoch)
  unfolding can_deproject
  can_deproject-IsSafe x y epoch = search (steps, orientation-IsSafe) depth 9

  deprojected-IsSafe :
      (x y : List Object) (at : Object × Object × Object)
      → IsSafe (observations N A g) (deprojected N A P x y at)
  unfolding deprojected
  deprojected-IsSafe x y at =
      search
        (steps, observed_pointing-IsSafe, rotate-IsSafe, on_some-IsSafe, icrs_from_observed-IsSafe)

  sky-IsSafe :
      (x y : List Object) (epoch : Option Object)
      → IsSafeForSome N A g (ra_dec_from_pupil_coords_radians N A P x y epoch)
  unfolding ra_dec_from_pupil_coords_radians
  sky-IsSafe x y epoch =
      search (steps, unless_none-IsSafe, can_deproject-IsSafe, deprojected-IsSafe)

  pointing_of-IsSafe : IsSafe (observations N A g) (pointing_of N A P)
  unfolding pointing_of
  pointing_of-IsSafe = search (steps, observed_pointing-IsSafe)

  native-IsSafe :
      (ra dec : List Object) → IsSafeForSome N A g (native_from_ra_dec_arrays N A P ra dec)
  unfolding native_from_ra_dec_arrays native_about_pointing
  native-IsSafe ra dec = search (steps, unless_none-IsSafe, in_2000-IsSafe, pointing_of-IsSafe)

  from_native-IsSafe :
      (lon lat : List Object) → IsSafeForSome N A g (ra_dec_from_native_arrays N A P lon lat)
  unfolding ra_dec_from_native_arrays
  from_native-IsSafe lon lat =
      search
        (steps, unless_none-IsSafe, pointing_of-IsSafe, on_some-IsSafe, icrs_from_observed-IsSafe)

  -- A call that leaves an observation as it is but for what its date keeps, and that right.
  abbrev pub Leaves : {X : Type 0} → Maybe N A P X → ObservationMetaData N A → Type 0
  Leaves m o = (o' : ObservationMetaData N A) × ((m (some o)).1 ≡ some o') × IsLeftOf N A g o o'

  -- Of an observation whose date, if it has one, keeps nothing but its own scales, and whatever the
  -- other arguments are and whether they raise or not, `_observedFromICRS`, `_icrsFromObserved`,
  -- `_pupilCoordsFromRaDec`, `_raDecFromPupilCoords`, `_nativeLonLatFromRaDec` and
  -- `_raDecFromNativeLonLat` (the last two of arrays) leave every field as it was but the date,
  -- which is still there if it was and still keeps nothing but its own scales.
  pub keeps_observation :
      (o : ObservationMetaData N A) (xs ys : List Object)
      (pm_ra pm_dec parallax v_rad : Option (List Object)) (epoch : Option Object)
      (include_refraction : Bool)
      → IsRight N A g o.mjd
      → Leaves
          (observed_from_icrs_radians N A P xs ys pm_ra pm_dec parallax v_rad epoch
            include_refraction)
          o
        × Leaves (icrs_from_observed_radians N A P xs ys epoch include_refraction) o
        × Leaves (pupil_coords_from_ra_dec_radians N A P xs ys epoch) o
        × Leaves (ra_dec_from_pupil_coords_radians N A P xs ys epoch) o
        × Leaves (native_from_ra_dec_arrays N A P xs ys) o
        × Leaves (ra_dec_from_native_arrays N A P xs ys) o
  keeps_observation o xs ys pm_ra pm_dec parallax v_rad epoch include_refraction h = (
    (observed_from_icrs-IsSafe N A g P xs ys pm_ra pm_dec parallax v_rad epoch
          include_refraction).leaves
        o h,
    (icrs_from_observed-IsSafe N A g P xs ys epoch include_refraction).leaves o h,
    (pupil-IsSafe xs ys epoch).leaves o h,
    (sky-IsSafe xs ys epoch).leaves o h,
    (native-IsSafe xs ys).leaves o h,
    (from_native-IsSafe xs ys).leaves o h,
  )
