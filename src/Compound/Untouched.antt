-- ===== src/Compound/Untouched.antt =====
-- What the functions of CompoundCoordinateTransformations.py leave of the observation that they are
-- given, when they raise too.
use sims_utils.Base.{◌≡◌, refl, subst, String, Option, none, some}
use sims_utils.Base.Action.{Action}
use sims_utils.Base.Frame.{Frame, IsSafe}
use sims_utils.Numpy.{Numpy}
use sims_utils.Astropy.{Astropy}
use sims_utils.Palpy.{Palpy}
use sims_utils.Palpy.Places.{Places}
use sims_utils.Mjd.Reads.{Given}
use sims_utils.Observation.State.{ObservationMetaData}
use sims_utils.Astrometry.Actions.{AstrometryError, unless_none}
use sims_utils.Astrometry.Untouched.{
  steps, observations, IsRight, IsLeftOf, on_some-IsSafe, on_mjd-IsSafe, read_scale-IsSafe,
  icrs_from_observed-IsSafe,
}
use sims_utils.Wcs.Untouched.{in_2000-IsSafe, observed_pointing-IsSafe}
use sims_utils.Compound.Angles.{Angles, single, column, one_kind}
use sims_utils.Compound.Horizon.{
  local_apparent_time, observed_angles, horizontal, horizon_of, alt_az_pa_from_ra_dec_radians,
  icrs_in_2000, sky_above, ra_dec_from_alt_az_radians,
}
use sims_utils.Compound.Rotator.{get_rot_sky_pos_radians, get_rot_tel_pos_radians}

module _ (N : Numpy) (A : Astropy N) (g : Given N A) where
  open N use {Object}

  abbrev Perhaps : Type 0
  Perhaps = Option (ObservationMetaData N A)

  abbrev pub IsRightThere : Perhaps → Type 0
  IsRightThere none = Unit
  IsRightThere (some o) = IsRight N A g o.mjd

  -- An observation, or `None`, is another but for what its date keeps.
  abbrev pub IsLeftThere : Perhaps → Perhaps → Type 0
  IsLeftThere none s = s ≡ none
  IsLeftThere (some o) s = (o' : ObservationMetaData N A) × (s ≡ some o') × IsLeftOf N A g o o'

  unchanged : (s : Perhaps) → IsRightThere s → IsLeftThere s s
  unchanged none h = refl
  unchanged (some o) h = (o, refl, (observations N A g).nothing o h)

  right_after : (s s' : Perhaps) → IsLeftThere s s' → IsRightThere s'
  right_after none s' e = rw e tt
  right_after (some o) s' (o', e, left) = rw e ((observations N A g).follows o o' left)

  left_after : (s s' s'' : Perhaps) → IsLeftThere s s' → IsLeftThere s' s'' → IsLeftThere s s''
  left_after none s' s'' e left = rw e at left
  left_after (some o) s' s'' (o', e, left) left' =
      let (o'', e', left'') = subst (λ d. IsLeftThere d s'') e left' in
      (o'', e', (observations N A g).both o o' o'' left left'')

  abbrev perhaps : Frame Perhaps
  perhaps = record {
    Starts = IsRightThere;
    Changes = IsLeftThere;
    nothing = unchanged;
    follows = right_after;
    both = left_after;
  }

  unless_none_frame :
      {X : Type 0} (e : AstrometryError) (m : Action (ObservationMetaData N A) AstrometryError X)
      (s : Perhaps)
      → IsSafe (observations N A g) m
      → IsRightThere s
      → IsLeftThere s (unless_none e m s).1
  unless_none_frame e m none safe h = refl
  unless_none_frame e m (some o) safe h = ((m o).1, refl, safe.frame o h)

  unless-IsSafe :
      {X : Type 0} (e : AstrometryError) (m : Action (ObservationMetaData N A) AstrometryError X)
      → IsSafe (observations N A g) m
      → IsSafe perhaps (unless_none e m)
  unless-IsSafe e m safe = record { frame = λ s h. unless_none_frame e m s safe h }

  one_kind-IsSafe :
      {F : Frame Perhaps} (name first second : String) (x y : Angles Object)
      → IsSafe F (one_kind name first second x y)
  unfolding one_kind
  one_kind-IsSafe name first second x y = search (steps)

  module _ (P : Places N) (Q : Palpy N) where
    time-IsSafe : IsSafe (observations N A g) (local_apparent_time N A P Q)
    unfolding local_apparent_time
    time-IsSafe = search (steps, on_mjd-IsSafe, read_scale-IsSafe) depth 9

    observed_angles-IsSafe :
        (ra dec : Angles Object) → IsSafe (observations N A g) (observed_angles N A P Q ra dec)
    unfolding observed_angles
    observed_angles-IsSafe (single ra) (single dec) = search (steps, observed_pointing-IsSafe)
    observed_angles-IsSafe (single ra) (column dec) = search (steps)
    observed_angles-IsSafe (column ra) (single dec) = search (steps)
    observed_angles-IsSafe (column ra) (column dec) = search (steps, in_2000-IsSafe)

    horizontal-IsSafe :
        (ha dec : Angles Object) (lat : Option Object)
        → IsSafe (observations N A g) (horizontal N A P Q ha dec lat)
    unfolding horizontal
    horizontal-IsSafe (single ha) (single dec) lat = search (steps)
    horizontal-IsSafe (single ha) (column dec) lat = search (steps)
    horizontal-IsSafe (column ha) (single dec) lat = search (steps)
    horizontal-IsSafe (column ha) (column dec) lat = search (steps)

    horizon_of-IsSafe :
        (ra dec : Angles Object) → IsSafe (observations N A g) (horizon_of N A P Q ra dec)
    unfolding horizon_of
    horizon_of-IsSafe ra dec =
        search (steps, observed_angles-IsSafe, time-IsSafe, horizontal-IsSafe) depth 9

    alt_az-IsSafe :
        (ra dec : Angles Object) → IsSafe perhaps (alt_az_pa_from_ra_dec_radians N A P Q ra dec)
    unfolding alt_az_pa_from_ra_dec_radians
    alt_az-IsSafe ra dec = search (steps, one_kind-IsSafe, unless-IsSafe, horizon_of-IsSafe)

    rot_sky-IsSafe :
        (ra dec rot : Angles Object) → IsSafe perhaps (get_rot_sky_pos_radians N A P Q ra dec rot)
    unfolding get_rot_sky_pos_radians
    rot_sky-IsSafe ra dec rot = search (steps, alt_az-IsSafe)

    rot_tel-IsSafe :
        (ra dec rot : Angles Object) → IsSafe perhaps (get_rot_tel_pos_radians N A P Q ra dec rot)
    unfolding get_rot_tel_pos_radians
    rot_tel-IsSafe ra dec rot = search (steps, alt_az-IsSafe)

    icrs_in_2000-IsSafe :
        (ra dec : Angles Object) → IsSafe (observations N A g) (icrs_in_2000 N A P Q ra dec)
    unfolding icrs_in_2000
    icrs_in_2000-IsSafe (single ra) (single dec) =
        search (steps, on_some-IsSafe, icrs_from_observed-IsSafe) depth 9
    icrs_in_2000-IsSafe (single ra) (column dec) = search (steps)
    icrs_in_2000-IsSafe (column ra) (single dec) = search (steps)
    icrs_in_2000-IsSafe (column ra) (column dec) =
        search (steps, on_some-IsSafe, icrs_from_observed-IsSafe)

    sky_above-IsSafe :
        (alt az : Angles Object) → IsSafe (observations N A g) (sky_above N A P Q alt az)
    unfolding sky_above
    sky_above-IsSafe alt az = search (steps, time-IsSafe, icrs_in_2000-IsSafe) depth 9

    ra_dec-IsSafe :
        (alt az : Angles Object) → IsSafe perhaps (ra_dec_from_alt_az_radians N A P Q alt az)
    unfolding ra_dec_from_alt_az_radians
    ra_dec-IsSafe alt az = search (steps, one_kind-IsSafe, unless-IsSafe, sky_above-IsSafe)

    -- Whatever the arguments, and whether they raise or not: _altAzPaFromRaDec, _raDecFromAltAz,
    -- _getRotSkyPos and _getRotTelPos leave None as None and all of an observation as it was, but for
    -- what its date keeps; if that was only the own scales of the date, it still is.
    pub keeps_observation_of_horizon :
        (o : Perhaps) (x y z : Angles Object)
        → IsRightThere o
        → IsLeftThere o (alt_az_pa_from_ra_dec_radians N A P Q x y o).1
          × IsLeftThere o (ra_dec_from_alt_az_radians N A P Q x y o).1
          × IsLeftThere o (get_rot_sky_pos_radians N A P Q x y z o).1
          × IsLeftThere o (get_rot_tel_pos_radians N A P Q x y z o).1
    keeps_observation_of_horizon o x y z h = (
      (alt_az-IsSafe x y).frame o h,
      (ra_dec-IsSafe x y).frame o h,
      (rot_sky-IsSafe x y z).frame o h,
      (rot_tel-IsSafe x y z).frame o h,
    )
