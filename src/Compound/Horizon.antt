-- ===== src/Compound/Horizon.antt =====
-- `_altAzPaFromRaDec` and `_raDecFromAltAz`: to the horizon of the observatory, and back.
use sims_utils.Base.{true, Option, some, [], ◌∷◌}
use sims_utils.Base.Result.{Result, ok, err}
use sims_utils.Base.Action.{◌>>=◌, ◌>>◌, evaluate, pure}
use sims_utils.Numpy.{Numpy}
use sims_utils.Astropy.{Astropy}
use sims_utils.Palpy.{Palpy}
use sims_utils.Palpy.Places.{Places}
use sims_utils.Mjd.{ut1}
use sims_utils.Coordinates.{calc_lmst_last, LengthError}
use sims_utils.Astrometry.Actions.{
  AstrometryError, no_obs_metadata, no_attribute, no_number, no_array, no_sidereal_time, bad_shapes,
  palpy_raised, or_else, unless_none, on_some, on_mjd, read_scale,
}
use sims_utils.Astrometry.Observed.{Observing, Maybe, the_site, icrs_from_observed_radians}
use sims_utils.FocalPlane.Projection.{observed_in_2000, observed_pointing, first}
use sims_utils.Compound.Angles.{Angles, single, column, each, one_kind}
use sims_utils.Compound.Triangle.{observed_at}

module _ (N : Numpy) (A : Astropy N) (P : Places N) (Q : Palpy N) where
  open N use {Object, literal, sub, mul, radians, degrees}

  abbrev pub Pair : Type 0
  Pair = Angles Object × Angles Object

  abbrev pub Triple : Type 0
  Triple = Angles Object × Angles Object × Angles Object

  unfoldable pub times : Result LengthError (Object × Object) → Result AstrometryError Object
  times (ok t) = ok t.1
  times (err e) = err (no_sidereal_time e)

  -- `calcLmstLast(obs.mjd.UT1, obs.site.longitude_rad)[1]`
  unfoldable pub local_apparent_time : Observing N A P Object
  unfolding read_scale times
  local_apparent_time = do
    date ← on_mjd N A (read_scale N A ut1)
    s ← the_site N A P
    longitude ← or_else no_number s.longitude_rad
    evaluate (λ _. times (calc_lmst_last N Q date longitude))

  -- The calls of `_observedFromICRS`; the guards keep out a number beside an array.
  unfoldable pub observed_angles : Angles Object → Angles Object → Observing N A P Pair
  unfolding observed_in_2000 observed_pointing
  observed_angles (single ra) (single dec) = do
    p ← observed_pointing N A P ra dec
    pure (single p.0, single p.1)
  observed_angles (column ra) (column dec) = do
    c ← observed_in_2000 N A P ra dec
    pure (column c.0, column c.1)
  observed_angles (column ra) (single dec) = evaluate (λ _. err no_array)
  observed_angles (single ra) (column dec) = evaluate (λ _. err bad_shapes)

  -- `palpy.altaz`, or `palpy.altazVector` where the hour angle is an array: the altitude, the
  -- azimuth and the parallactic angle
  unfoldable pub horizontal : Angles Object → Angles Object → Option Object → Observing N A P Triple
  horizontal (single ha) (single dec) latitude = do
    lat ← or_else palpy_raised latitude
    let h = P.altaz ha dec lat
    pure (single h.alt, single h.az, single h.pa)
  horizontal (column ha) (column dec) latitude = do
    lat ← or_else palpy_raised latitude
    h ← or_else palpy_raised (P.altaz_vector ha dec lat)
    pure (column h.alt, column h.az, column h.pa)
  horizontal (column ha) (single dec) latitude = evaluate (λ _. err palpy_raised)
  horizontal (single ha) (column dec) latitude = evaluate (λ _. err palpy_raised)

  -- The body of `_altAzPaFromRaDec`, of an observation that is there
  unfoldable pub horizon_of : Angles Object → Angles Object → Observing N A P Triple
  unfolding observed_angles local_apparent_time horizontal
  horizon_of ra dec = do
    seen ← observed_angles ra dec
    last ← local_apparent_time
    s ← the_site N A P
    horizontal (each (sub (radians (mul last (literal "15.0")))) seen.0) seen.1 s.latitude_rad

  -- `_altAzPaFromRaDec`, in radians
  unfoldable pub alt_az_pa_from_ra_dec_radians : Angles Object → Angles Object → Maybe N A P Triple
  unfolding one_kind horizon_of
  alt_az_pa_from_ra_dec_radians ra dec = do
    one_kind "altAzPaFromRaDec" "RA" "Dec" ra dec
    unless_none (no_obs_metadata "observedFromICRS") (horizon_of ra dec)

  unfoldable pub alt_az_pa_from_ra_dec : Angles Object → Angles Object → Maybe N A P Triple
  unfolding alt_az_pa_from_ra_dec_radians
  alt_az_pa_from_ra_dec ra dec = do
    h ← alt_az_pa_from_ra_dec_radians (each radians ra) (each radians dec)
    pure (each degrees h.0, each degrees h.1, each degrees h.2)

  -- The calls of `_icrsFromObserved`
  unfoldable pub icrs_in_2000 : Angles Object → Angles Object → Observing N A P Pair
  unfolding icrs_from_observed_radians first
  icrs_in_2000 (single ra) (single dec) = do
    c ←
        on_some
          (icrs_from_observed_radians N A P (ra ∷ []) (dec ∷ []) (some (literal "2000.0")) true)
    mean_ra ← or_else bad_shapes (first N A P c.0)
    mean_dec ← or_else bad_shapes (first N A P c.1)
    pure (single mean_ra, single mean_dec)
  icrs_in_2000 (column ra) (column dec) = do
    c ← on_some (icrs_from_observed_radians N A P ra dec (some (literal "2000.0")) true)
    pure (column c.0, column c.1)
  icrs_in_2000 (column ra) (single dec) = evaluate (λ _. err no_array)
  icrs_in_2000 (single ra) (column dec) = evaluate (λ _. err bad_shapes)

  -- The body of `_raDecFromAltAz`, of an observation that is there
  unfoldable pub sky_above : Angles Object → Angles Object → Observing N A P Pair
  unfolding local_apparent_time icrs_in_2000
  sky_above alt az = do
    last ← local_apparent_time
    s ← the_site N A P
    latitude ← or_else no_number s.latitude_rad
    observed ← evaluate (λ _. observed_at N last latitude alt az)
    icrs_in_2000 observed.0 observed.1

  -- `_raDecFromAltAz`, in radians
  unfoldable pub ra_dec_from_alt_az_radians : Angles Object → Angles Object → Maybe N A P Pair
  unfolding one_kind sky_above
  ra_dec_from_alt_az_radians alt az = do
    one_kind "raDecFromAltAz" "alt" "az" alt az
    unless_none no_attribute (sky_above alt az)

  unfoldable pub ra_dec_from_alt_az : Angles Object → Angles Object → Maybe N A P Pair
  unfolding ra_dec_from_alt_az_radians
  ra_dec_from_alt_az alt az = do
    c ← ra_dec_from_alt_az_radians (each radians alt) (each radians az)
    pure (each degrees c.0, each degrees c.1)
