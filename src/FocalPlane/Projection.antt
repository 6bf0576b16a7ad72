-- ===== src/FocalPlane/Projection.antt =====
-- The functions of FocalPlaneUtils.py, on arrays and on the observation that they are given.
use sims_utils.Base.{
  Bool, true, not, ◌||◌, Option, none, some, List, [], ◌∷◌, map, length, is_some, ◌==◌,
}
use sims_utils.Base.Result.{or_raise}
use sims_utils.Base.Action.{◌>>=◌, ◌>>◌, raise_when, evaluate, pure}
use sims_utils.Numpy.{Numpy}
use sims_utils.Arrays.{broadcast, zip_with, pair_columns}
use sims_utils.Astropy.{Astropy}
use sims_utils.Palpy.Places.{Places}
use sims_utils.Observation.State.{ObservationMetaData}
use sims_utils.Astrometry.Actions.{
  no_obs_metadata, no_mjd, no_rot_sky_pos, no_pointing, lengths_differ, no_attribute,
  undefined_name, bad_shapes, palpy_raised, or_else, unless_none, on_some,
}
use sims_utils.Astrometry.Apparent.{Columns, in_degrees}
use sims_utils.Astrometry.Observed.{
  Observing, Maybe, the_epoch, observed_from_icrs_radians, icrs_from_observed_radians,
}

module _ (N : Numpy) (A : Astropy N) (P : Places N) where
  open N use {Object, literal, add, sub, mul, sin, cos, nan, radians}

  -- The calls of `_observedFromICRS`
  unfoldable pub observed_in_2000 : List Object → List Object → Observing N A P (Columns N A P)
  observed_in_2000 ra dec =
      on_some
        (observed_from_icrs_radians N A P ra dec none none none none (some (literal "2000.0")) true)

  -- `x[0]`
  unfoldable pub first : List Object → Option Object
  first [] = none
  first (x ∷ xs) = some x

  -- The pointing as it is observed.
  unfoldable pub observed_pointing : Object → Object → Observing N A P (Object × Object)
  unfolding observed_in_2000 first
  observed_pointing pointing_ra pointing_dec = do
    temp ← observed_in_2000 (pointing_ra ∷ []) (pointing_dec ∷ [])
    ra ← or_else bad_shapes (first temp.0)
    dec ← or_else bad_shapes (first temp.1)
    pure (ra, dec)

  -- One point, with NaN where palpy refuses it.
  unfoldable pub gnomonic_or_nan : Object → Object → Object → Object → Object × Object
  gnomonic_or_nan ra dec rr dd = elim (P.ds2tp rr dd ra dec) [ some xy ↦ xy | none ↦ (nan, nan) ]

  -- `palpy.ds2tpVector`, or the loop over `zip(ra_obs, dec_obs)` where it raises
  unfoldable pub gnomonic : List Object → List Object → Object → Object → Columns N A P
  unfolding gnomonic_or_nan
  gnomonic ra_obs dec_obs ra dec = elim (P.ds2tp_vector ra_obs dec_obs ra dec) [
    | some xy ↦ xy
    | none ↦ pair_columns (zip_with (gnomonic_or_nan ra dec) ra_obs dec_obs)
  ]

  -- `x*np.cos(theta) - y*np.sin(theta)` and `x*np.sin(theta) + y*np.cos(theta)`
  unfoldable pub rotate : Object → List Object → List Object → Observing N A P (Columns N A P)
  rotate theta x y = do
    x_out ←
        or_else bad_shapes
          (broadcast sub (map (λ a. mul a (cos theta)) x) (map (λ b. mul b (sin theta)) y))
    y_out ←
        or_else bad_shapes
          (broadcast add (map (λ a. mul a (sin theta)) x) (map (λ b. mul b (cos theta)) y))
    pure (x_out, y_out)

  -- `x *= -1.0`
  abbrev pub flip : Object → Object
  flip x = mul x (literal "-1.0")

  -- `_rotSkyPos`, `_pointingRA` and `_pointingDec`, once they are known to be there
  unfoldable pub orientation : Observing N A P (Object × Object × Object)
  orientation = do
    theta ← evaluate (λ o. or_raise o.rot_sky_pos no_attribute)
    ra ← evaluate (λ o. or_raise o.pointing_ra no_attribute)
    dec ← evaluate (λ o. or_raise o.pointing_dec no_attribute)
    pure (theta, ra, dec)

  abbrev pub has_no_pointing : ObservationMetaData N A → Bool
  has_no_pointing o = not (is_some o.pointing_ra) || not (is_some o.pointing_dec)

  -- What `_pupilCoordsFromRaDec` asks of its arguments
  unfoldable pub can_project :
      List Object → List Object → Option Object → Observing N A P (Object × Object × Object)
  unfolding orientation
  can_project ra_in dec_in epoch = do
    raise_when (λ o. not (is_some o.mjd)) (no_mjd "pupilCoordsFromRaDec")
    the_epoch N A P epoch "pupilCoordsFromRaDec"
    raise_when (λ _. not (length ra_in == length dec_in)) (lengths_differ "pupilCoordsFromRaDec")
    raise_when (λ o. not (is_some o.rot_sky_pos)) (no_rot_sky_pos "pupilCoordsFromRaDec")
    raise_when has_no_pointing (no_pointing "pupilCoordsFromRaDec")
    orientation

  -- `_observedFromICRS` of the arrays and of the pointing, the projection and the rotation
  unfoldable pub projected :
      List Object → List Object → Object × Object × Object → Observing N A P (Columns N A P)
  unfolding observed_in_2000 observed_pointing gnomonic rotate
  projected ra_in dec_in at = do
    observed ← observed_in_2000 ra_in dec_in
    pointing ← observed_pointing at.1 at.2
    let xy = gnomonic observed.0 observed.1 pointing.0 pointing.1
    rotate at.0 (map flip xy.0) xy.1

  -- `_pupilCoordsFromRaDec`, in radians; of the epoch it only asks that there is one.
  unfoldable pub pupil_coords_from_ra_dec_radians :
      List Object → List Object → Option Object → Maybe N A P (Columns N A P)
  unfolding can_project projected
  pupil_coords_from_ra_dec_radians ra_in dec_in epoch =
      unless_none (no_obs_metadata "pupilCoordsFromRaDec")
        (do at ← can_project ra_in dec_in epoch; projected ra_in dec_in at)

  unfoldable pub pupil_coords_from_ra_dec :
      List Object → List Object → Option Object → Maybe N A P (Columns N A P)
  unfolding pupil_coords_from_ra_dec_radians
  pupil_coords_from_ra_dec ra_in dec_in epoch =
      pupil_coords_from_ra_dec_radians (map radians ra_in) (map radians dec_in) epoch

  -- What `_raDecFromPupilCoords` asks of its arguments; the message about lengths names variables
  -- that the function does not have.
  unfoldable pub can_deproject :
      List Object → List Object → Option Object → Observing N A P (Object × Object × Object)
  unfolding orientation
  can_deproject x_pupil y_pupil epoch = do
    the_epoch N A P epoch "raDecFromPupilCoords"
    raise_when (λ o. not (is_some o.rot_sky_pos)) (no_rot_sky_pos "raDecFromPupilCoords")
    raise_when has_no_pointing (no_pointing "raDecFromPupilCoords")
    raise_when (λ o. not (is_some o.mjd)) (no_mjd "raDecFromPupilCoords")
    raise_when (λ _. not (length x_pupil == length y_pupil)) undefined_name
    orientation

  -- The rotation back, `palpy.dtp2sVector` and `_icrsFromObserved`
  unfoldable pub deprojected :
      List Object → List Object → Object × Object × Object → Observing N A P (Columns N A P)
  unfolding observed_pointing rotate icrs_from_observed_radians
  deprojected x_pupil y_pupil at = do
    pointing ← observed_pointing at.1 at.2
    xy ← rotate (mul (literal "-1.0") at.0) x_pupil y_pupil
    observed ← or_else palpy_raised (P.dtp2s_vector (map flip xy.0) xy.1 pointing.0 pointing.1)
    on_some (icrs_from_observed_radians N A P observed.0 observed.1 (some (literal "2000.0")) true)

  -- `_raDecFromPupilCoords`, in radians
  unfoldable pub ra_dec_from_pupil_coords_radians :
      List Object → List Object → Option Object → Maybe N A P (Columns N A P)
  unfolding can_deproject deprojected
  ra_dec_from_pupil_coords_radians x_pupil y_pupil epoch =
      unless_none (no_obs_metadata "raDecFromPupilCoords")
        (do at ← can_deproject x_pupil y_pupil epoch; deprojected x_pupil y_pupil at)

  unfoldable pub ra_dec_from_pupil_coords :
      List Object → List Object → Option Object → Maybe N A P (Columns N A P)
  unfolding ra_dec_from_pupil_coords_radians
  ra_dec_from_pupil_coords x_pupil y_pupil epoch = do
    output ← ra_dec_from_pupil_coords_radians x_pupil y_pupil epoch
    pure (in_degrees N A P output)
