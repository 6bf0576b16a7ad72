-- ===== src/Astrometry/Apparent.antt =====
-- Mean places and apparent places.
use sims_utils.Base.{ℕ, not, Option, none, some, List, map, length, is_some, ◌==◌}
use sims_utils.Base.Action.{Action, ◌>>=◌, ◌>>◌, raise_when, pure}
use sims_utils.Healpix.Arrays.{replicate}
use sims_utils.Numpy.{Numpy}
use sims_utils.Arrays.{broadcast}
use sims_utils.Astropy.{Astropy}
use sims_utils.Palpy.Places.{Places}
use sims_utils.Mjd.{ModifiedJulianDate, tdb}
use sims_utils.Astrometry.Actions.{
  AstrometryError, no_mjd, lengths_differ, bad_shapes, palpy_raised, or_else, read_scale,
}

module _ (N : Numpy) (A : Astropy N) (P : Places N) where
  open N use {Object, literal, mul, div, cos, radians, degrees}
  open P use {mappa, mapqk_vector, ampqk_vector}

  abbrev pub Columns : Type 0
  Columns = List Object × List Object

  -- A function that may read a date.
  abbrev pub Dated : Type 0 → Type 0
  Dated X = Action (Option (ModifiedJulianDate N A)) AstrometryError X

  -- `if x is None: x = numpy.zeros(n)`
  unfoldable pub or_zeros : ℕ → Option (List Object) → List Object
  or_zeros n none = replicate n (literal "0.0")
  or_zeros n (some xs) = xs

  -- `arcsecFromRadians` of an array
  unfoldable pub arcsec : Object → Object
  arcsec x = mul (literal "3600.0") (degrees x)

  -- `_appGeoFromICRS`, in radians
  unfoldable pub app_geo_from_icrs_radians :
      List Object
      → List Object
      → Option (List Object)
      → Option (List Object)
      → Option (List Object)
      → Option (List Object)
      → Object
      → Dated Columns
  unfolding or_zeros arcsec read_scale
  app_geo_from_icrs_radians ra dec pm_ra pm_dec parallax v_rad epoch = do
    raise_when (λ mjd. not (is_some mjd)) (no_mjd "appGeoFromICRS")
    raise_when (λ _. not (length ra == length dec)) (lengths_differ "appGeoFromICRS")
    let n = length ra
    date ← read_scale N A tdb
    let prms = mappa epoch date
    pm_ra_corrected ← or_else bad_shapes (broadcast div (or_zeros n pm_ra) (map cos dec))
    or_else palpy_raised (
        mapqk_vector ra dec pm_ra_corrected (or_zeros n pm_dec) (map arcsec (or_zeros n parallax))
          (or_zeros n v_rad) prms)

  -- `radiansFromArcsec` of an array
  unfoldable pub from_arcsec : Option (List Object) → Option (List Object)
  from_arcsec none = none
  from_arcsec (some xs) = some (map (λ x. radians (div x (literal "3600.0"))) xs)

  abbrev pub in_degrees : Columns → Columns
  in_degrees (ra, dec) = (map degrees ra, map degrees dec)

  unfoldable pub app_geo_from_icrs :
      List Object
      → List Object
      → Option (List Object)
      → Option (List Object)
      → Option (List Object)
      → Option (List Object)
      → Object
      → Dated Columns
  unfolding app_geo_from_icrs_radians from_arcsec
  app_geo_from_icrs ra dec pm_ra pm_dec parallax v_rad epoch = do
    output ←
        app_geo_from_icrs_radians (map radians ra) (map radians dec) (from_arcsec pm_ra)
          (from_arcsec pm_dec) (from_arcsec parallax) v_rad epoch
    pure (in_degrees output)

  -- `_icrsFromAppGeo`, in radians
  unfoldable pub icrs_from_app_geo_radians : List Object → List Object → Object → Dated Columns
  unfolding read_scale
  icrs_from_app_geo_radians ra dec epoch = do
    date ← read_scale N A tdb
    or_else palpy_raised (ampqk_vector ra dec (mappa epoch date))

  unfoldable pub icrs_from_app_geo : List Object → List Object → Object → Dated Columns
  unfolding icrs_from_app_geo_radians
  icrs_from_app_geo ra dec epoch = do
    output ← icrs_from_app_geo_radians (map radians ra) (map radians dec) epoch
    pure (in_degrees output)
