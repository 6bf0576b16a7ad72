-- ===== src/Astrometry/Motion.antt =====
-- Refraction, precession and proper motion.
use sims_utils.Base.{Bool, not, ◌&&◌, ◌||◌, Option, none, some, List, map, length, is_some, ◌==◌}
use sims_utils.Base.Result.{Result, ok, err, or_raise}
use sims_utils.Base.Action.{◌>>=◌, ◌>>◌, raise_when, evaluate, pure}
use sims_utils.Numpy.{Numpy}
use sims_utils.Arrays.{
  Value, number, array, sequence, apply_to, scaled, combine, is_list, as_number, items,
}
use sims_utils.Astropy.{Astropy}
use sims_utils.Palpy.Places.{Places}
use sims_utils.Mjd.{tt as terrestrial}
use sims_utils.Site.{Site}
use sims_utils.Coordinates.Vectors.{
  no_arrays, no_operator, unequal_rows, Vector, cartesian_from_spherical, spherical_from_cartesian,
  dot,
}
use sims_utils.Astrometry.Actions.{
  AstrometryError, no_site, no_mjd, is_list as list_given, lengths_differ, bad_shapes, palpy_raised,
  no_array, or_else, read_scale,
}
use sims_utils.Astrometry.Apparent.{Columns, Dated, in_degrees, arcsec}

module _ (N : Numpy) (A : Astropy N) (P : Places N) where
  open N use {Object, literal, div, cos, radians, degrees}

  -- `refractionCoefficients`
  unfoldable pub refraction_coefficients :
      Object → Option (Site N) → Result AstrometryError (Object × Object)
  refraction_coefficients wavelength none = err (no_site "refractionCoefficients")
  refraction_coefficients wavelength (some s) =
      or_raise
        (P.refco s.height s.temperature_kelvin s.pressure s.humidity wavelength s.latitude_rad
          s.lapse_rate (literal "1.e-10"))
        palpy_raised

  unfoldable pub apply_refraction :
      Value Object → Object → Object → Result AstrometryError (Value Object)
  apply_refraction (sequence zs) tanz tan3z = err (list_given "applyRefraction")
  apply_refraction (array zs) tanz tan3z = ok (array (P.refz_vector zs tanz tan3z))
  apply_refraction (number z) tanz tan3z = ok (number (P.refz z tanz tan3z))

  -- `len(x)`
  abbrev pub items_of : Value Object → Result AstrometryError (List Object)
  items_of v = or_raise (items v) no_array

  -- What `_applyPrecession` asks of the lengths, if RA has one
  unfoldable pub precession_lengths : Value Object → Value Object → Dated N A P Unit
  precession_lengths (number ra) dec = pure tt
  precession_lengths ra dec = do
    xs ← evaluate (λ _. items_of ra)
    ys ← evaluate (λ _. items_of dec)
    raise_when (λ _. not (length xs == length ys)) (lengths_differ "applyPrecession")

  -- `numpy.dot(rmat, v)`
  unfoldable pub turned : Vector N × Vector N × Vector N → Vector N → Vector N
  turned (a, b, c) v = (dot N a v, dot N b v, dot N c v)

  -- `cartesianFromSpherical(ra,dec)`
  unfoldable pub vectors : Value Object → Value Object → Result AstrometryError (List (Vector N))
  unfolding cartesian_from_spherical
  vectors ra dec = elim (cartesian_from_spherical N ra dec) [
    | ok vs ↦ ok vs
    | err no_arrays ↦ err no_array
    | err no_operator ↦ err bad_shapes
    | err unequal_rows ↦ err bad_shapes
  ]

  -- The rotation of the points by the matrix of a date
  unfoldable pub turned_to : Value Object → Value Object → Object → Dated N A P (Columns N A P)
  unfolding read_scale vectors spherical_from_cartesian turned
  turned_to ra dec epoch = do
    raise_when (λ mjd. not (is_some mjd)) (no_mjd "applyPrecession")
    date ← read_scale N A terrestrial
    xyz ← evaluate (λ _. vectors ra dec)
    pure (spherical_from_cartesian N (map (turned (P.prenut epoch date)) xyz))

  -- `_applyPrecession`, in radians
  unfoldable pub apply_precession_radians :
      Value Object → Value Object → Object → Dated N A P (Columns N A P)
  unfolding precession_lengths turned_to
  apply_precession_radians ra dec epoch = do precession_lengths ra dec; turned_to ra dec epoch

  unfoldable pub apply_precession :
      Value Object → Value Object → Object → Dated N A P (Columns N A P)
  unfolding apply_precession_radians
  apply_precession ra dec epoch = do
    output ← apply_precession_radians (apply_to radians ra) (apply_to radians dec) epoch
    pure (in_degrees N A P output)

  -- The arguments of `_applyProperMotion`.
  pub record Motion : Type 0 where
    pub ra : Value Object
    pub dec : Value Object
    pub pm_ra : Value Object
    pub pm_dec : Value Object
    pub parallax : Value Object
    pub v_rad : Value Object

  abbrev pub has_list : Motion → Bool
  has_list a =
      is_list a.ra
      || is_list a.dec
      || is_list a.pm_ra
      || is_list a.pm_dec
      || is_list a.parallax
      || is_list a.v_rad

  -- `palpy.pmVector` of an array of RAs, if the other arguments are arrays of its length
  unfoldable pub pm_of_arrays :
      List Object
      → Value Object
      → Motion
      → Object
      → Object
      → Dated N A P (Value Object × Value Object)
  pm_of_arrays ra pm_ra_corrected a epoch date = do
    dec ← evaluate (λ _. items_of a.dec)
    pm_ra ← evaluate (λ _. items_of a.pm_ra)
    pm_dec ← evaluate (λ _. items_of a.pm_dec)
    parallax ← evaluate (λ _. items_of a.parallax)
    v_rad ← evaluate (λ _. items_of a.v_rad)
    let n = length ra
    raise_when
        (λ _. not (
          n == length dec
          && n == length pm_ra
          && n == length pm_dec
          && n == length parallax
          && n == length v_rad))
        (lengths_differ "applyPm")
    corrected ← evaluate (λ _. items_of pm_ra_corrected)
    output ← or_else palpy_raised (P.pm_vector ra dec corrected pm_dec parallax v_rad epoch date)
    pure (array output.0, array output.1)

  -- `palpy.pm`, which takes numbers
  unfoldable pub pm_of_numbers :
      Object → Value Object → Motion → Object → Object → Dated N A P (Value Object × Value Object)
  pm_of_numbers ra pm_ra_corrected a epoch date = do
    dec ← or_else palpy_raised (as_number a.dec)
    corrected ← or_else palpy_raised (as_number pm_ra_corrected)
    pm_dec ← or_else palpy_raised (as_number a.pm_dec)
    parallax ← or_else palpy_raised (as_number a.parallax)
    v_rad ← or_else palpy_raised (as_number a.v_rad)
    let output = P.pm ra dec corrected pm_dec parallax v_rad epoch date
    pure (number output.0, number output.1)

  unfoldable pub proper_motion :
      Value Object → Motion → Object → Object → Dated N A P (Value Object × Value Object)
  unfolding pm_of_arrays pm_of_numbers
  proper_motion pm_ra_corrected a epoch date = elim a.ra [
    | number ra ↦ pm_of_numbers ra pm_ra_corrected a epoch date
    | array ra ↦ pm_of_arrays ra pm_ra_corrected a epoch date
    | sequence ra ↦ evaluate (λ _. err (list_given "applyPm"))
  ]

  -- `_applyProperMotion`, in radians
  unfoldable pub apply_proper_motion_radians :
      Motion → Object → Dated N A P (Value Object × Value Object)
  unfolding proper_motion read_scale arcsec
  apply_proper_motion_radians a epoch = do
    raise_when (λ _. has_list a) (list_given "applyPm")
    raise_when (λ mjd. not (is_some mjd)) (no_mjd "applyProperMotion")
    let in_arcsec = record a { parallax = apply_to (arcsec N A P) a.parallax }
    date ← read_scale N A terrestrial
    pm_ra_corrected ← or_else bad_shapes (combine div a.pm_ra (apply_to cos a.dec))
    proper_motion pm_ra_corrected in_arcsec epoch (P.epj date)

  -- `radiansFromArcsec`, which a list has not
  abbrev pub radians_of : Value Object → Dated N A P (Value Object)
  radians_of v = or_else no_array (scaled (λ x. radians (div x (literal "3600.0"))) v)

  unfoldable pub apply_proper_motion : Motion → Object → Dated N A P (Value Object × Value Object)
  unfolding apply_proper_motion_radians
  apply_proper_motion a epoch = do
    pm_ra ← radians_of a.pm_ra
    pm_dec ← radians_of a.pm_dec
    parallax ← radians_of a.parallax
    output ←
        apply_proper_motion_radians
          record {
            ra = apply_to radians a.ra;
            dec = apply_to radians a.dec;
            pm_ra = pm_ra;
            pm_dec = pm_dec;
            parallax = parallax;
            v_rad = a.v_rad;
          }
          epoch
    pure (apply_to degrees output.0, apply_to degrees output.1)
