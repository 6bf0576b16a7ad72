-- ===== src/Coordinates.antt =====
-- python/lsst/sims/utils/CoordinateTransformations.py: sidereal time, galactic coordinates and
-- arcseconds.
pub mod Sidereal
pub mod Galactic
pub mod Units
pub mod Vectors
pub mod Turning
use sims_utils.Base.{ℕ, Bool, true, false, Option, none, some, not, if◌then◌else◌, is_some, ◌==◌}
use sims_utils.Base.Result.{Result, ok, err, raise_if, ◌>>=◌, ◌>>◌}
use sims_utils.Numpy.{Numpy}
use sims_utils.Palpy.{Palpy}

pub data LengthError : Type 0 where
  different_lengths longitude_array : LengthError

module _ (N : Numpy) (P : Palpy N) where
  open N use {Object, literal, add, sub, mul, div, mod_, lt, pi, radians, degrees}
  open P use {
    array_length, floor, greater, where_, eqgal, eqgal_vector, galeq, galeq_vector, eqeqx,
    eqeqx_vector, gmsta, gmsta_vector,
  }

  -- `isinstance(x, numpy.ndarray)`
  abbrev pub is_array : Object → Bool
  is_array x = is_some (array_length x)

  unfoldable pub equation_of_equinoxes : Object → Object
  equation_of_equinoxes d = if is_array d then eqeqx_vector d else eqeqx d

  -- An angle in radians as hours from 0 to 24.
  abbrev hours : Object → Object
  hours x = mod_ (div (mul x (literal "24.0")) (mul (literal "2.0") pi)) (literal "24.0")

  unfoldable pub calc_gmst_gast : Object → Object × Object
  unfolding equation_of_equinoxes
  calc_gmst_gast mjd =
      let date = floor mjd in
      let ut1 = sub mjd date in
      let gmst = if is_array mjd then gmsta_vector date ut1 else gmsta date ut1 in
      let gast = add gmst (equation_of_equinoxes mjd) in (hours gmst, hours gast)

  -- The longitude in degrees from -180 to 180.
  unfoldable pub longitude_degrees : Object → Object
  longitude_degrees long =
      let deg = mod_ (degrees long) (literal "360.0") in
      if is_array long
      then where_ (greater deg (literal "180.0")) (sub deg (literal "360.0")) deg
      else if lt (literal "180.") deg
      then sub deg (literal "360.")
      else deg

  -- `len(longRad) != len(mjd)`, where both are arrays
  abbrev pub lengths_differ : Option ℕ → Option ℕ → Bool
  lengths_differ (some n) (some k) = not (n == k)
  lengths_differ (some n) none = false
  lengths_differ none k = false

  -- `longRadIsArray and not mjdIsArray`
  abbrev pub only_longitude : Option ℕ → Option ℕ → Bool
  only_longitude (some n) none = true
  only_longitude (some n) (some k) = false
  only_longitude none k = false

  unfoldable pub calc_lmst_last : Object → Object → Result LengthError (Object × Object)
  unfolding calc_gmst_gast longitude_degrees
  calc_lmst_last mjd long =
      raise_if (lengths_differ (array_length long) (array_length mjd)) different_lengths
      >> raise_if (only_longitude (array_length long) (array_length mjd)) longitude_array
      >> (let hrs = div (longitude_degrees long) (literal "15.") in
          let (gmst, gast) = calc_gmst_gast mjd in
          ok (mod_ (add gmst hrs) (literal "24."), mod_ (add gast hrs) (literal "24.")))

  -- `_galacticFromEquatorial`, in radians
  unfoldable pub galactic_from_equatorial_radians : Object → Object → Object × Object
  galactic_from_equatorial_radians ra dec =
      if is_array ra then eqgal_vector ra dec else eqgal ra dec

  unfoldable pub galactic_from_equatorial : Object → Object → Object × Object
  unfolding galactic_from_equatorial_radians
  galactic_from_equatorial ra dec =
      let (long, lat) = galactic_from_equatorial_radians (radians ra) (radians dec) in
      (degrees long, degrees lat)

  -- `_equatorialFromGalactic`, in radians
  unfoldable pub equatorial_from_galactic_radians : Object → Object → Object × Object
  equatorial_from_galactic_radians long lat =
      if is_array long then galeq_vector long lat else galeq long lat

  unfoldable pub equatorial_from_galactic : Object → Object → Object × Object
  unfolding equatorial_from_galactic_radians
  equatorial_from_galactic long lat =
      let (ra, dec) = equatorial_from_galactic_radians (radians long) (radians lat) in
      (degrees ra, degrees dec)

-- The conversions of arcseconds; `None` gives `None`.
module _ (N : Numpy) where
  open N use {Object, literal, mul, div, radians, degrees}

  unfoldable pub arcsec_from_radians : Option Object → Option Object
  arcsec_from_radians none = none
  arcsec_from_radians (some x) = some (mul (literal "3600.0") (degrees x))

  unfoldable pub radians_from_arcsec : Option Object → Option Object
  radians_from_arcsec none = none
  radians_from_arcsec (some x) = some (radians (div x (literal "3600.0")))

  unfoldable pub arcsec_from_degrees : Option Object → Option Object
  arcsec_from_degrees none = none
  arcsec_from_degrees (some x) = some (mul (literal "3600.0") x)

  unfoldable pub degrees_from_arcsec : Option Object → Option Object
  degrees_from_arcsec none = none
  degrees_from_arcsec (some x) = some (div x (literal "3600.0"))
