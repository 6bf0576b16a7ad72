-- ===== src/Tests/MotionExamples.antt =====
-- The theorems about motions, the Sun and native positions, for binary digits.
use sims_utils.Base.{◌≡◌, refl, Bool, true, false, some, map, if◌then◌else◌, none, [], ◌∷◌, arith}
use sims_utils.Base.Result.{ok, err}
use sims_utils.Arrays.{array, number, pair_columns}
use sims_utils.Palpy.Places.{Star}
use sims_utils.Mjd.Reads.{IsCoherent}
use sims_utils.Coordinates.Turning.{
  HasSigns, Matrix, is_not_unit, rotation_matrix_from_vectors, transposed, rotation_matrix-swap,
}
use sims_utils.Astrometry.Actions.{no_array}
use sims_utils.Astrometry.Points.{at_date}
use sims_utils.Astrometry.Motion.{apply_proper_motion_radians, apply_precession_radians}
use sims_utils.Astrometry.Moved.{moved, motion_of, motions_of, apply_proper_motion-eq}
use sims_utils.Astrometry.Precessed.{precessed, apply_precession-eq}
use sims_utils.FocalPlane.Points.{seen}
use sims_utils.Wcs.{to_native, from_native, native_of, y_out, native_lon_lat_arrays, native_lon_lat}
use sims_utils.Wcs.Each.{KeepsNumbers, direction, native_lon_lat_each}
use sims_utils.Wcs.Sky.{native_from_ra_dec_arrays, ra_dec_from_native_arrays, native_from_ra_dec-eq}
use sims_utils.Wcs.Rotations.{HasNumerals, from_native-to_native}
use sims_utils.Wcs.Untouched.{Leaves as Kept, keeps_observation}
use sims_utils.Astrometry.Observed.{observed_from_icrs_radians, icrs_from_observed_radians}
use sims_utils.FocalPlane.Projection.{
  pupil_coords_from_ra_dec_radians, ra_dec_from_pupil_coords_radians,
}
use sims_utils.Tests.Binary.{
  digit, digit-IsExact, clock, sphere, sphere-IsElementwise, place, visit, night, night-IsCoherent,
}
use sims_utils.Tests.PlaceExamples.{stars, places, prms, computed, start, Leaves, Date}

abbrev mover : Star digit
mover = record {
  ra = false;
  dec = false;
  pm_ra = true;
  pm_dec = true;
  parallax = false;
  v_rad = true;
}

apply_proper_motion-eq_example :
    (m : Date) × (apply_proper_motion_radians digit clock sphere
        (motions_of digit clock sphere stars)
        false
        (some start)
      ≡ (
        ok (
          array (map (λ p. p.0) (map (moved digit clock sphere false night) stars)),
          array (map (λ p. p.1) (map (moved digit clock sphere false night) stars)),
        ),
        some m,
      ))
    × (apply_proper_motion_radians digit clock sphere
          (motion_of digit clock sphere mover)
          false
          (some start)
        ≡ (
          ok (
            number (moved digit clock sphere false night mover).0,
            number (moved digit clock sphere false night mover).1,
          ),
          some m,
        ))
    × IsCoherent digit clock night m
apply_proper_motion-eq_example =
    apply_proper_motion-eq digit clock sphere sphere-IsElementwise night start stars mover false
      night-IsCoherent

apply_precession-eq_example :
    Leaves
      (λ m. (ok (pair_columns (map (precessed digit clock sphere false night) places)), some m))
      (apply_precession_radians digit clock sphere
        (array (map (λ p. p.0) places))
        (array (map (λ p. p.1) places))
        false
        (some start))
apply_precession-eq_example =
    apply_precession-eq digit clock sphere night start places false night-IsCoherent

no_nan : KeepsNumbers digit
no_nan = record { nan_of_number = λ x e. refl; nan_of_nan = λ x e. e }

native_lon_lat_each_example :
    let native : Bool × Bool → Bool × Bool =
      λ q. native_of digit (to_native digit true false (direction digit q)) in
    (native_lon_lat_arrays digit (map (λ q. q.0) places) (map (λ q. q.1) places) true false
      ≡ ok (pair_columns (map native places)))
    × (native_lon_lat digit true true true false ≡ (
        if digit.is_nan
          (digit.arccos (y_out digit (to_native digit true false (direction digit (true, true)))))
        then err no_array
        else ok (native (true, true))))
native_lon_lat_each_example = native_lon_lat_each digit no_nan true false places (true, true)

native_from_ra_dec-eq_example :
    let tangent = seen digit clock sphere prms night (true, false) in
    Leaves
      (λ m. (
        ok (
            pair_columns (
              map
                (λ p. native_of digit (
                  to_native digit tangent.0 tangent.1
                    (direction digit (seen digit clock sphere prms night p))))
                places)),
        some (at_date digit clock sphere visit m),
      ))
      (native_from_ra_dec_arrays digit clock sphere
        (map (λ p. p.0) places)
        (map (λ p. p.1) places)
        (some (at_date digit clock sphere visit start)))
native_from_ra_dec-eq_example =
    native_from_ra_dec-eq digit clock sphere sphere-IsElementwise no_nan night prms visit place
      (true, false) refl computed refl refl start places night-IsCoherent

-- The arrays differ in length, so that each of the calls raises.
keeps_observation_example :
    Kept digit clock night sphere
      (observed_from_icrs_radians digit clock sphere
        (true ∷ [])
        []
        none
        none
        none
        none
        (some false)
        true)
      visit
    × Kept digit clock night sphere
        (icrs_from_observed_radians digit clock sphere (true ∷ []) [] (some false) true)
        visit
    × Kept digit clock night sphere
        (pupil_coords_from_ra_dec_radians digit clock sphere (true ∷ []) [] (some false))
        visit
    × Kept digit clock night sphere
        (ra_dec_from_pupil_coords_radians digit clock sphere (true ∷ []) [] (some false))
        visit
    × Kept digit clock night sphere
        (native_from_ra_dec_arrays digit clock sphere (true ∷ []) [])
        visit
    × Kept digit clock night sphere
        (ra_dec_from_native_arrays digit clock sphere (true ∷ []) [])
        visit
keeps_observation_example =
    keeps_observation digit clock night sphere visit (true ∷ []) [] none none none none (some false)
      true night-IsCoherent

digit-HasNumerals : HasNumerals digit digit-IsExact
unfolding digit-IsExact
digit-HasNumerals = record {
  zero_literal = refl;
  one_literal = refl;
  zero_mul = λ x. refl;
  neg_eq = λ x. ground arith;
}

from_native-to_native_example :
    from_native digit true false (to_native digit true false (true, false, true))
    ≡ (true, false, true)
from_native-to_native_example =
    from_native-to_native digit digit-IsExact digit-HasNumerals true false (true, false, true)

digit-HasSigns : HasSigns digit
digit-HasSigns = record {
  mul_comm = λ x y. ground arith;
  sub_swap = λ x y. ground arith;
  div_neg = λ x y. refl;
  neg_twice = λ x. refl;
  mul_signs = λ x y. refl;
  mul_signs_apart = λ k x y. refl;
}

rotation_matrix-swap_example :
    (m : Matrix digit) × (rotation_matrix_from_vectors digit
        (true, false, false)
        (false, true, false)
      ≡ ok m)
    × (rotation_matrix_from_vectors digit (false, true, false) (true, false, false)
        ≡ ok (transposed digit m))
unfolding is_not_unit
rotation_matrix-swap_example =
    rotation_matrix-swap digit digit-HasSigns (true, false, false) (false, true, false) refl refl
